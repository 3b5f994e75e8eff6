-- ===== src/Lib.antt =====
-- The DuckDB Iceberg extension: reading Iceberg tables, from their metadata file to the rows of
-- their data files, and the catalog of an Iceberg REST service.
--
-- A table's folder holds a metadata file, which lists the snapshots of the table and its schemas
-- (src/common/iceberg.cpp, src/common/schema.cpp). A snapshot names a manifest list, an Avro file
-- that lists manifests, which list data files and delete files (src/iceberg_manifest.cpp, read in
-- batches by src/manifest_reader.cpp). `iceberg_scan` finds the data files one by one, and takes
-- out the rows that the delete files name (src/iceberg_functions/iceberg_multi_file_reader.cpp).
--
--   Common, Json, Duckdb      lists, texts, exceptions as values; yyjson's values; the parameters
--   Utils                     src/common/utils.cpp: IcebergUtils
--   Types                     src/include/iceberg_types.hpp
--   Manifest                  src/iceberg_manifest.cpp: PopulateNameMapping and VerifySchema in
--                             Mapping, ProduceEntries in Produce
--   Reader                    src/manifest_reader.cpp, and AvroScan of src/iceberg_manifest.cpp
--   Schema                    src/common/schema.cpp
--   Snapshot                  src/common/iceberg.cpp: the searches in Find, GetMetaDataPath in
--                             MetadataPath, IcebergTable::Load in Read
--   FileList                  src/iceberg_functions/iceberg_multi_file_reader.cpp: the list of
--                             files; Initial has InitializeFiles, Deletes IcebergDeleteData,
--                             Options has ParseOption, Columns the columns. Listing is what the
--                             readers of manifests must deliver; Counting, Finalized and Scan
--                             have what follows for the loops, the chunks and the whole scan,
--                             and Agrees compares it with Snapshot's way to the data files
--   Functions                 src/iceberg_functions: iceberg_snapshots.cpp in Snapshots,
--                             iceberg_metadata.cpp in Metadata; iceberg_scan.cpp and
--                             src/iceberg_functions.cpp in Registry
--   TypeText                  src/catalog_utils.cpp: LogicalToIcebergType in Names,
--                             TypeToLogicalType in Parser, its loops in Segments
--   Catalog                   src/storage and src/common/url_utils.cpp: Endpoint, Config, Cache,
--                             Entries and Transactions; irc_table_set.cpp in TableSet,
--                             irc_schema_set.cpp and irc_schema_entry.cpp in Schemas,
--                             irc_table_entry.cpp in TableScan; what is refused in Unsupported.
--                             src/catalog_api.cpp: Requests and
--                             Tables, and what it reads of credentials and tokens in Credentials
--   Extension                 src/iceberg_extension.cpp: the options of ATTACH, and ATTACH itself in
--                             Attach, GetConfig after it in Configure, LoadInternal in Load; of
--                             src/common/api_utils.cpp what is read off a host in Hosts, the
--                             requests in Http
--
-- Each part has modules of its own for what is proved of it, and Tests runs them on small tables.
--
-- Functions keep the source's names, in lower case; an exception is a value of `Error` in a
-- `Result`, and undefined behaviour is one of them. An object that the source changes in place is
-- a record that is passed on. Every file that is read stays the same while it is read.
--
-- What is not in the repository is a parameter: the file system, `StringUtil`, yyjson's parser, the
-- clock, the readers of DuckDB's values, and `read_avro` and `parquet_scan`, which a function from a
-- path to chunks stands for. An empty chunk is the end of a file, and rows past the end of a chunk are
-- undefined behaviour. Integers of a column are bit patterns. A `time_point` of the system's clock
-- counts nanoseconds in a signed 64-bit integer, as libstdc++ has it. Assertions of a debug build that
-- only check are left out.
--
-- Loops are structural, or have fuel. `parse_type_value` gives one round more than the value is
-- deep. `read_entries` gives one more than the rows that are left, as each round but the last uses
-- up a row. `expand_files` gives three more than the manifests that are left, and
-- `scan_avro_metadata` two more than the rows of the file. `parse_text` gives one more than the text
-- is long, and so do its loops over children. `process_deletes` is given its rounds: a round for
-- each row of the delete manifests, one for each manifest and one at the end, as for `expand_files`.
-- The fuel of `count_files` is given as well: a round for each data file that is left, and one.
--
-- The service of a catalog is a parameter too, as are libcurl and Amazon's library. The service is
-- given the requests that it answered before, so that its answers may change; `Session` holds these
-- and the cache of the catalog. The clock is an argument, once for each time that it is read. What
-- an object holds after an exception was thrown is not modelled.
--
-- Not modelled: what DuckDB does with what is registered, locks, logging and printing; functions of
-- src/catalog_api.cpp that only throw; DuckDB's class MultiFileReader.
pub mod Common
pub mod Json
pub mod Types
pub mod Duckdb
pub mod Utils
pub mod Manifest
pub mod Reader
pub mod Schema
pub mod Snapshot
pub mod FileList
pub mod Functions
pub mod Catalog
pub mod Tests
pub mod TypeText
pub mod Extension
