-- ===== src/Manifest.antt =====
-- src/iceberg_manifest.cpp: how the columns of a manifest list and of a manifest are found, and
-- how their rows become entries. A chunk of the Avro reader is the list of its rows.
pub mod Chunk
pub mod Mapping
pub mod Produce
pub mod Deliver
pub mod Verify
