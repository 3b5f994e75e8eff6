-- ===== src/Tests.antt =====
-- Concrete runs of the modules, one file for each part of the tree.
mod Fixtures
mod Reading
mod Files
mod Metadata
mod Service
mod Functions
mod Types
mod Requests
mod Deletes
mod Scan
mod Columns
mod Table
mod Scopes
mod Agrees
