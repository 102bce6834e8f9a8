-- ===== src/Sqlite.antt =====
-- The statements of src/casc_cache.rs on its SQLite database, each a parameter. A connection is what
-- SQLite knows of the database; `bytes` is what the file holds when the connection is closed, where
-- an open transaction counts for nothing.
use asset_resolver.Base.{ℕ, Text, Option, Result}

-- What the query of the metadata table gives.
pub data MetadataQuery : Type 0 where
  no_table corrupt no_row : MetadataQuery
  stored : ℕ → ℕ → ℕ → MetadataQuery
  failed : Text → MetadataQuery

pub record Sqlite : Type 1 where
  pub Connection : Type 0
  pub open_database : Option Text → Result Connection
  pub init_schema : Connection → Result Connection
  pub prepare_resolution : Connection → Result (Unit {0})
  pub insert_resolution : Connection → ℕ → Text → Text → Result Connection
  pub insert_metadata : Connection → ℕ → ℕ → ℕ → Result Connection
  pub commit : Connection → Result Connection
  pub bytes : Connection → Text
  pub read_metadata : Text → MetadataQuery
  pub count_resolution : Text → Result ℕ
  pub select_resolution : Text → ℕ → Option (Text × Text)
