-- ===== src/Transport/Xhttp.antt =====
-- internal/transport/xhttp: a tunnel in HTTP requests.
pub mod Config
pub mod Client
pub mod Multiplex
pub mod Upload
pub mod Accept
pub mod Conn
pub mod Download
pub mod RateLimit
