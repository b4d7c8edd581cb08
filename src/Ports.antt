-- ===== src/Ports.antt =====
-- ports: the pool of local ports of a proxy server.
pub mod AddrSet
pub mod Manager
pub mod Filter
pub mod Adapter
