-- ===== src/Auth.antt =====
-- auth/: tokens. The guards of requests are in Middleware.
pub mod Jwt
pub mod Oidc
pub mod Request
mod Tests
