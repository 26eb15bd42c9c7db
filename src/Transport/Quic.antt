-- ===== src/Transport/Quic.antt =====
-- internal/transport/quictun: datagrams that do not look like QUIC, to ports that change.
pub mod Obfuscate
pub mod Hopping
