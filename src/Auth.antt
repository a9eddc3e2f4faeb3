-- ===== src/Auth.antt =====
-- internal/auth: who a request comes from.
pub mod Credentials
pub mod Identify
pub mod Touch
