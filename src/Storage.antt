-- ===== src/Storage.antt =====
-- internal/storage/postgres: the management store, over a database whose statements may fail.
pub mod Errors
pub mod Database
pub mod Tx
pub mod Audit
pub mod Rows
pub mod Found
pub mod Tenants
pub mod TenantPages
pub mod ApiKeys
pub mod KeyReads
pub mod AdminTokens
pub mod Authenticator
pub mod Operations
pub mod Mutation
mod Examples
