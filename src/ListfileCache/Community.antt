-- ===== src/ListfileCache/Community.antt =====
-- src/listfile_cache.rs: the cache of a community listfile, rebuilt when its source has changed.
pub mod Foreign
pub mod Rows
pub mod RowLaws
pub mod Rebuild
pub mod Works
pub mod Fresh
pub mod Writable
pub mod Ensured
pub mod Opened
pub mod Reused
use asset_resolver.Base.{
  ℕ, Text, txt, FilePath, parent, display, decimal, Option, none, some, Bool, true, false, not,
  List, [], ◌∷◌, ◌++◌, Result, if◌then◌else◌, ◌==◌, to_ascii_lowercase, nat_eq, list_eq,
}
use asset_resolver.Base
use asset_resolver.World.Fs.{Node, absent, dir, file}
use asset_resolver.World.Io.{
  World, Io, ok, err, ◌>>=◌, ◌>>◌, pure, throw, lift, map_err, exists, create_dir_all, fallible,
}
use asset_resolver.ListfileCache.{
  source_mtime, query_fdid, query_path, statement, open_writable_cache, open_local_cache,
}
use asset_resolver.ListfileCache.Sql.{
  Database, row, no_rows, no_table, failed, Prepared, prepared, no_metadata, not_prepared,
}
use asset_resolver.ListfileCache.Lines.{lines, parse_line}

-- The verdict on what the metadata records: the time of the source is read only if its path is
-- the recorded one.
pub metadata_is_fresh : {T : Type 0} → FilePath → Prepared → Io T Bool
metadata_is_fresh source_path no_metadata = pure false
metadata_is_fresh source_path (not_prepared e) = throw (txt "prepare metadata query: " ++ e)
metadata_is_fresh source_path (prepared no_rows) = pure false
metadata_is_fresh source_path (prepared (no_table e)) = throw (txt "query metadata: " ++ e)
metadata_is_fresh source_path (prepared (failed e)) = throw (txt "query metadata: " ++ e)
metadata_is_fresh source_path (prepared (row (recorded_path, recorded_mtime))) =
    if not (recorded_path == display source_path)
    then pure false
    else do now ← source_mtime source_path; pure (recorded_mtime == now)

-- What File::open finds.
open_found : {T : Type 0} → Node → Io T Node
open_found absent = throw (txt "No such file or directory (os error 2)")
open_found node = pure node

pub open_file : {T : Type 0} → FilePath → Io T Node
unfolding open_found
open_file p = fallible (λ w. open_found (w.fs p) w)

pub create_parent : {T : Type 0} → Option FilePath → Io T (Unit {0})
create_parent none = pure tt
create_parent (some above) =
    map_err (λ e. txt "create " ++ (display above ++ (txt ": " ++ e))) (create_dir_all above)

module _ (d : Database) where
  open d use {
    Connection, init_schema, prepare_insert, insert_entry, insert_metadata, commit, select_metadata,
    select_any,
  }

  unfoldable pub cache_has_entries : Connection → Result Bool
  cache_has_entries conn = elim (select_any conn) [
    | row _ ↦ Base.ok true
    | no_rows ↦ Base.ok false
    | no_table _ ↦ Base.ok false
    | failed e ↦ Base.err (txt "query listfile_entries availability: " ++ e)
  ]

  unfoldable pub cache_is_fresh : {T : Type 0} → Connection → FilePath → Io T Bool
  unfolding metadata_is_fresh
  cache_is_fresh conn source_path = metadata_is_fresh source_path (select_metadata conn)

  -- The row of a line is written; a line without a row is skipped.
  import_line : {T : Type 0} → FilePath → Connection → Option (ℕ × Text) → Io T Connection
  import_line cache_path conn none = pure conn
  import_line cache_path conn (some (fdid, p)) =
      statement d cache_path (txt "insert listfile entry " ++ decimal fdid)
        (insert_entry conn fdid p (to_ascii_lowercase p))

  unfoldable pub import_lines :
      {T : Type 0} → FilePath → FilePath → List (Result Text) → Connection → Io T Connection
  unfolding import_line
  import_lines cache_path source_path [] conn = pure conn
  import_lines cache_path source_path (l ∷ ls) conn = do
    line ←
        map_err (λ e. txt "read " ++ (display source_path ++ (txt " row: " ++ e)))
          (fallible (lift l))
    conn' ← import_line cache_path conn (parse_line line)
    import_lines cache_path source_path ls conn'

  unfoldable pub import_rows : {T : Type 0} → FilePath → Connection → FilePath → Io T Connection
  unfolding open_file
  import_rows cache_path conn source_path = do
    node ←
        map_err (λ e. txt "open " ++ (display source_path ++ (txt ": " ++ e)))
          (open_file source_path)
    map_err (λ e. txt "prepare listfile_entries insert: " ++ e) (lift (prepare_insert conn))
    import_lines cache_path source_path (lines node) conn

  unfoldable pub record_metadata : {T : Type 0} → FilePath → Connection → FilePath → Io T Connection
  record_metadata cache_path conn source_path = do
    time ← source_mtime source_path
    statement d cache_path (txt "insert listfile metadata")
        (insert_metadata conn (display source_path) time)

  unfoldable pub init_cache_schema : {T : Type 0} → FilePath → Connection → Io T Connection
  init_cache_schema cache_path conn =
      statement d cache_path (txt "init listfile cache") (init_schema conn)

  unfoldable pub rebuild_cache : {T : Type 0} → FilePath → Connection → FilePath → Io T Connection
  rebuild_cache cache_path conn source_path = do
    begun ← init_cache_schema cache_path conn
    full ← import_rows cache_path begun source_path
    stamped ← record_metadata cache_path full source_path
    statement d cache_path (txt "commit listfile cache") (commit stamped)

  rebuild_unless : {T : Type 0} → Bool → FilePath → Connection → FilePath → Io T FilePath
  rebuild_unless true cache_path conn source_path = pure cache_path
  rebuild_unless false cache_path conn source_path = do
    _ ← rebuild_cache cache_path conn source_path
    pure cache_path

  -- ensure_cache with an open connection, by whether the source is there
  ensure_open : {T : Type 0} → Bool → FilePath → Connection → FilePath → Io T FilePath
  unfolding rebuild_unless
  ensure_open false cache_path conn source_path = do
    entries ← lift (cache_has_entries conn)
    if entries then pure cache_path else throw (txt "missing " ++ display source_path)
  ensure_open true cache_path conn source_path = do
    fresh ← cache_is_fresh conn source_path
    rebuild_unless fresh cache_path conn source_path

  unfoldable pub ensure_cache : {T : Type 0} → FilePath → FilePath → Io T FilePath
  unfolding create_parent ensure_open
  ensure_cache cache_path source_path = do
    create_parent (parent cache_path)
    conn ← open_writable_cache d cache_path
    there ← exists source_path
    ensure_open there cache_path conn source_path

  -- CommunityCache. Its connection shows the database as it was when it was opened.
  pub record CommunityCache : Type 0 where
    pub conn : Connection

  -- CommunityCache::open
  unfoldable pub open_community_cache : {T : Type 0} → FilePath → FilePath → Io T CommunityCache
  open_community_cache cache_path source_path = do
    ready ← ensure_cache cache_path source_path
    conn ← open_local_cache d ready
    pure (record { conn = conn })

  -- CommunityCache::lookup_fdid
  unfoldable pub cache_lookup_fdid : CommunityCache → ℕ → Result (Option Text)
  cache_lookup_fdid cache fdid = query_fdid d cache.conn fdid

  -- CommunityCache::lookup_path
  unfoldable pub cache_lookup_path : CommunityCache → Text → Result (Option (ℕ × Text))
  cache_lookup_path cache p = query_path d cache.conn p

  unfoldable pub lookup_fdid : {T : Type 0} → FilePath → FilePath → ℕ → Io T (Option Text)
  lookup_fdid cache_path source_path fdid = do
    cache ← open_community_cache cache_path source_path
    lift (cache_lookup_fdid cache fdid)

  unfoldable pub lookup_path : {T : Type 0} → FilePath → FilePath → Text → Io T (Option (ℕ × Text))
  lookup_path cache_path source_path p = do
    cache ← open_community_cache cache_path source_path
    lift (cache_lookup_path cache p)
