-- ===== src/Auth.antt =====
-- internal/auth: credentials and authorization shared by the public and the management listeners.
pub mod Errors
pub mod Time
pub mod Base64
pub mod Credential
pub mod Keys
pub mod Cache
pub mod Limiter
pub mod Headers
pub mod Service
mod Examples
