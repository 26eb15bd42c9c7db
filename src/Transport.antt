-- ===== src/Transport.antt =====
-- internal/transport: choosing a transport, and the HTTP transport.
pub mod Manager
pub mod Pool
pub mod Quic
pub mod Reconnect
pub mod Xhttp
