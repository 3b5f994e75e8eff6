-- ===== src/Functions.antt =====
-- src/iceberg_functions: the table functions that list snapshots, and how the functions of the
-- extension are registered.
pub mod Snapshots
pub mod Batch
pub mod Metadata
pub mod Cursor
pub mod Range
pub mod Calls
pub mod Registry
pub mod Parameters
pub mod Table
