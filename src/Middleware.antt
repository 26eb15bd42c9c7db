-- ===== src/Middleware.antt =====
-- internal/middleware: stages that wrap a connection.
pub mod Chain
pub mod Jitter
pub mod Padding
pub mod Shaping
