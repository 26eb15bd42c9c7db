-- ===== src/Session.antt =====
-- internal/session: the state of a tunnel session.
pub mod Error
pub mod Download
pub mod Chunks
pub mod Tunnel
pub mod Manager
