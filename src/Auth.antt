-- ===== src/Auth.antt =====
-- internal/crypto/auth: the token that authenticates a request.
pub mod Crypto
pub mod Token
pub mod Validate
pub mod Layout
pub mod RoundTrip
pub mod Accepted
pub mod Tests
