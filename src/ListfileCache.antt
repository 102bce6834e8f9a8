-- ===== src/ListfileCache.antt =====
-- src/listfile_cache.rs: the SQLite copies of the listfiles.
pub mod Sql
pub mod Lines
pub mod Community
pub mod Foreign
pub mod StatementLaws
pub mod LineLaws
use asset_resolver.Base.{
  ℕ, zero, suc, ◌+◌, ◌*◌, ◌/◌, ◌%◌, ◌^◌, Text, txt, FilePath, path, parent, display, decimal,
  Option, none, some, Bool, true, false, not, List, [], ◌∷◌, ◌++◌, Result, if◌then◌else◌, ltb, ◌==◌,
  ◌&&◌, to_ascii_lowercase, nat_eq, list_eq,
}
use asset_resolver.Base
use Prim.Native.Nat.{bit_xor}
use asset_resolver.Paths.{ResolverPaths, shared_data_path}
use asset_resolver.World.Fs.{Node, absent, dir, file, put, node_exists}
use asset_resolver.World.Io.{
  World, Io, Answer, ok, err, ◌>>=◌, ◌>>◌, pure, throw, lift, map_err, gets, exists, mtime,
  create_dir_all, fallible, set_fs,
}
use Sql.{
  Database, Query, row, no_rows, no_table, failed, Prepared, prepared, no_metadata, not_prepared,
}
use Lines.{lines, parse_line}

-- WRITE_BUSY_TIMEOUT, in seconds
abbrev pub write_busy_timeout : ℕ
write_busy_timeout = 30

abbrev offset_basis : ℕ
offset_basis = 0xcbf2_9ce4_8422_2325

abbrev prime : ℕ
prime = 0x0000_0100_0000_01b3

-- The fold of `fnv1a_64` from a hash on.
unfoldable pub fnv1a_from : ℕ → Text → ℕ
fnv1a_from hash [] = hash
fnv1a_from hash (byte ∷ bytes) = fnv1a_from (bit_xor hash byte * prime % 2 ^ 64) bytes

unfoldable pub fnv1a_64 : Text → ℕ
fnv1a_64 bytes = fnv1a_from offset_basis bytes

abbrev hex_digit : ℕ → ℕ
hex_digit d = if ltb d 10 then d + 48 else d + 87

-- The last `width` hexadecimal digits of a number.
unfoldable pub hex_digits : ℕ → ℕ → Text
hex_digits zero n = []
hex_digits (suc width) n = hex_digits width (n / 16) ++ (hex_digit (n % 16) ∷ [])

-- The name of the cache of a source.
unfoldable pub cache_name : FilePath → Text
cache_name source_path =
    txt "community-listfile-" ++ (hex_digits 16 (fnv1a_64 (display source_path)) ++ txt ".sqlite")

unfoldable pub cache_path : ResolverPaths → FilePath → FilePath
cache_path paths source_path = shared_data_path paths (path (cache_name source_path))

-- The seconds of a file's modification time
unfoldable pub source_mtime : {T : Type 0} → FilePath → Io T ℕ
source_mtime p = map_err (λ e. txt "stat " ++ (display p ++ (txt ": " ++ e))) (mtime p)

-- `or_else` of a query whose missing table is an error.
unfoldable pub row_or_none : {A : Type 0} → Text → Query A → Result (Option A)
row_or_none what (row a) = Base.ok (some a)
row_or_none what no_rows = Base.ok none
row_or_none what (no_table e) = Base.err (what ++ (txt ": " ++ e))
row_or_none what (failed e) = Base.err (what ++ (txt ": " ++ e))

-- `or_else` of a query whose missing table is a missing row.
unfoldable pub row_if_table : {A : Type 0} → Text → Query A → Result (Option A)
row_if_table what (row a) = Base.ok (some a)
row_if_table what no_rows = Base.ok none
row_if_table what (no_table _) = Base.ok none
row_if_table what (failed e) = Base.err (what ++ (txt ": " ++ e))

module _ (d : Database) where
  open d use {
    Connection, open_writable, open_read_only, set_busy_timeout, bytes, init_schema, prepare_insert,
    insert_entry, insert_metadata, init_local, insert_local, commit, select_metadata, select_any,
    select_by_fdid, select_by_path, select_local_by_fdid, select_local_by_path,
  }

  unfoldable pub query_fdid : Connection → ℕ → Result (Option Text)
  query_fdid conn fdid =
      row_or_none (txt "query listfile_entries by fdid " ++ decimal fdid) (select_by_fdid conn fdid)

  unfoldable pub query_path : Connection → Text → Result (Option (ℕ × Text))
  query_path conn p =
      row_or_none (txt "query listfile_entries by path `" ++ (p ++ txt "`"))
        (select_by_path conn (to_ascii_lowercase p))

  -- What the file of a database holds after a statement.
  after_statement : {T : Type 0} → FilePath → Result Connection → Io T Connection
  after_statement p (Base.err e) w = (err e, w)
  after_statement p (Base.ok conn) w = (ok conn, set_fs (put w.fs p (file (bytes conn) w.now)) w)

  -- A statement, which can fail as the file system can.
  unfoldable pub statement : {T : Type 0} → FilePath → Text → Result Connection → Io T Connection
  unfolding after_statement
  statement p what r =
      map_err (λ e. what ++ (txt ": " ++ e)) (fallible (λ w. after_statement p r w))

  unfoldable pub open_node : Node → Result Connection
  open_node absent = open_writable none
  open_node dir = Base.err (txt "unable to open database file")
  open_node (file content _) = open_writable (some content)

  unfoldable pub open_writable_cache : {T : Type 0} → FilePath → Io T Connection
  unfolding open_node
  open_writable_cache cache_path = do
    node ← gets (λ w. w.fs cache_path)
    conn ← statement cache_path (txt "open " ++ display cache_path) (open_node node)
    map_err (λ e. txt "set busy timeout on " ++ (display cache_path ++ (txt ": " ++ e)))
        (lift (set_busy_timeout conn write_busy_timeout))

  unfoldable pub read_only_node : Node → Result Connection
  read_only_node (file content _) = open_read_only content
  read_only_node _ = Base.err (txt "unable to open database file")

  unfoldable pub open_local_cache : {T : Type 0} → FilePath → Io T Connection
  unfolding read_only_node
  open_local_cache cache_path = do
    node ← gets (λ w. w.fs cache_path)
    map_err (λ e. txt "open " ++ (display cache_path ++ (txt ": " ++ e)))
        (fallible (lift (read_only_node node)))

  unfoldable pub lookup_local_fdid : {T : Type 0} → FilePath → ℕ → Io T (Option Text)
  lookup_local_fdid cache_path fdid = do
    there ← exists cache_path
    if not there then pure none else do
      conn ← open_local_cache cache_path
      lift (
          row_if_table (txt "query local_listfile_entries by fdid " ++ decimal fdid)
            (select_local_by_fdid conn fdid))

  unfoldable pub lookup_local_path : {T : Type 0} → FilePath → Text → Io T (Option (ℕ × Text))
  lookup_local_path cache_path p = do
    there ← exists cache_path
    if not there then pure none else do
      conn ← open_local_cache cache_path
      lift (
          row_if_table (txt "query local_listfile_entries by path `" ++ (p ++ txt "`"))
            (select_local_by_path conn (to_ascii_lowercase p)))

  -- remember_local_cache_entry, below the parent of the cache
  remember_below : {T : Type 0} → Option FilePath → FilePath → ℕ → Text → Io T (Unit {0})
  remember_below none cache_path fdid p = throw (txt "missing parent for " ++ display cache_path)
  remember_below (some above) cache_path fdid p = do
    map_err (λ e. txt "create " ++ (display above ++ (txt ": " ++ e))) (create_dir_all above)
    conn ← open_writable_cache cache_path
    begun ← statement cache_path (txt "init local_listfile_entries cache") (init_local conn)
    full ←
        statement cache_path (txt "insert local_listfile_entries row " ++ decimal fdid)
          (insert_local begun fdid p (to_ascii_lowercase p))
    _ ← statement cache_path (txt "commit local_listfile_entries cache") (commit full)
    pure tt

  unfoldable pub remember_local_cache_entry : {T : Type 0} → FilePath → ℕ → Text → Io T (Unit {0})
  unfolding remember_below
  remember_local_cache_entry cache_path fdid p =
      remember_below (parent cache_path) cache_path fdid p
