-- ===== src/Security.antt =====
-- internal/security: what is looked at before a TLS connection is served.
pub mod Sni
pub mod Peek
