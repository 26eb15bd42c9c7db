-- ===== src/Protocol.antt =====
-- internal/protocol: frames, addresses and datagrams on the tunnel.
pub mod Framing
pub mod Decimal
pub mod Quad
pub mod Address
pub mod Datagram
pub mod Handshake
