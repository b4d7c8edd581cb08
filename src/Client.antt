-- ===== src/Client.antt =====
-- client.go: the client's rewriting of captured packets.
pub mod Mss
pub mod Service
pub mod Capture
