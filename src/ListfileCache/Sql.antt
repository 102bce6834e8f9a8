-- ===== src/ListfileCache/Sql.antt =====
-- The statements of src/listfile_cache.rs on its SQLite databases, each a parameter. A connection is
-- what SQLite knows of a database; `bytes` is what its file holds when the connection is closed, where
-- an open transaction counts for nothing.
use asset_resolver.Base.{ℕ, Text, Option, Result}

-- `query_row`: a row, no row, the error of a missing table, or another error.
pub data Query (A : Type 0) : Type 0 where
  row : A → Query A
  no_rows : Query A
  no_table failed : Text → Query A

-- The query of the metadata table, which is prepared first.
pub data Prepared : Type 0 where
  prepared : Query (Text × ℕ) → Prepared
  no_metadata : Prepared
  not_prepared : Text → Prepared

pub record Database : Type 1 where
  pub Connection : Type 0
  pub open_writable : Option Text → Result Connection
  pub open_read_only : Text → Result Connection
  pub set_busy_timeout : Connection → ℕ → Result Connection
  pub bytes : Connection → Text
  pub init_schema : Connection → Result Connection
  pub prepare_insert : Connection → Result (Unit {0})
  pub insert_entry : Connection → ℕ → Text → Text → Result Connection
  pub insert_metadata : Connection → Text → ℕ → Result Connection
  pub init_local : Connection → Result Connection
  pub insert_local : Connection → ℕ → Text → Text → Result Connection
  pub commit : Connection → Result Connection
  pub select_metadata : Connection → Prepared
  pub select_any : Connection → Query (Unit {0})
  pub select_by_fdid : Connection → ℕ → Query Text
  pub select_by_path : Connection → Text → Query (ℕ × Text)
  pub select_local_by_fdid : Connection → ℕ → Query Text
  pub select_local_by_path : Connection → Text → Query (ℕ × Text)
