-- ===== src/Auth.antt =====
-- internal/auth: the login limiter and the authentication service.
pub mod Limiter
pub mod Accounts
pub mod Store
pub mod Service
pub mod SetupToken
pub mod PasswordHash
