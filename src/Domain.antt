-- ===== src/Domain.antt =====
-- internal/domain: the types that every other package of the program shares.
pub mod State
pub mod Money
pub mod Uuid
pub mod Scopes
pub mod Usage
mod Examples
