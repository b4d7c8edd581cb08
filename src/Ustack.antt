-- ===== src/Ustack.antt =====
-- ustack/link: the queue between the user-space TCP stack and the connections.
pub mod Slice
pub mod Link
pub mod Closing
pub mod Stack
