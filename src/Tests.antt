-- ===== src/Tests.antt =====
-- The theorems at concrete inputs.
pub mod Ports
pub mod Links
pub mod Wire
pub mod Sums
pub mod Buffers
pub mod Channels
pub mod Handshakes
pub mod Stacks
pub mod Openings
pub mod Captures
pub mod Packets
pub mod Queues
pub mod Proxy
pub mod Headers
pub mod Tunnels
