-- ===== src/Server.antt =====
-- server.go and server_linux.go.
pub mod Filter
pub mod Proxy
