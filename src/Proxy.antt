-- ===== src/Proxy.antt =====
-- internal/proxy: the local side of the tunnel.
pub mod Socks
pub mod UdpRelay
