-- ===== src/Catalog.antt =====
-- src/storage: the catalog of a REST service, in its parts.
pub mod Endpoint
pub mod Config
pub mod Cache
pub mod Entries
pub mod Transactions
pub mod Requests
pub mod Tables
pub mod Fetched
pub mod Credentials
pub mod TableSet
pub mod Schemas
pub mod Lookup
pub mod TableScan
pub mod Prefixes
pub mod Scopes
pub mod Unsupported
