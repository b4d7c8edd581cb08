-- ===== src/Conn.antt =====
-- conn: datagram connections that carry packets with a small peer header.
pub mod Handshake
pub mod Peer
pub mod Crypto
pub mod Channel
pub mod Udp
