-- ===== src/Http.antt =====
-- internal/httpapi: the credential middleware and the management API.
pub mod Errors
pub mod Middleware
pub mod Json
pub mod Parsing
pub mod Admin
pub mod Handlers
pub mod Routes
mod Examples
