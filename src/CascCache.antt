-- ===== src/CascCache.antt =====
-- src/casc_cache.rs: the resolution cache of one installed build, its freshness, and its publication.
pub mod Maps
pub mod Tables
pub mod Publish
pub mod MapLaws
pub mod Fresh
pub mod PublishLaws
pub mod Reuse
pub mod Lock
pub mod Turns
pub mod Published
pub mod TableLaws
pub mod Foreign
use asset_resolver.Base.{
  ℕ, ◌+◌, Text, txt, FilePath, path, join, parent, file_name, display, Option, none, some, Bool,
  true, false, ◌&&◌, ◌||◌, not, List, [], ◌∷◌, ◌++◌, Result, if◌then◌else◌, ◌==◌, nat_eq, decimal,
  length,
}
use asset_resolver.Base
use asset_resolver.Paths.{resolution_schema_version}
use asset_resolver.World.Fs.{FileSystem, Node, absent, dir, file, node_exists, put}
use asset_resolver.World.Io.{
  World, Io, ◌>>=◌, ◌>>◌, pure, throw, lift, attempt, map_err, gets, eprintln, exists, read, mtime,
  fallible, set_fs, ok, err,
}
use asset_resolver.Casc.{Cascette}
use asset_resolver.Sqlite.{Sqlite, MetadataQuery, no_table, corrupt, no_row, stored, failed}
use Maps.{collect_fdid_to_content_keys, collect_content_to_encoding_keys, resolution_rows}

abbrev pub cache_file : FilePath → FilePath
cache_file casc_dir = join casc_dir (path (txt "resolution.sqlite"))

abbrev pub root_file : FilePath → FilePath
root_file casc_dir = join casc_dir (path (txt "root.bin"))

abbrev pub encoding_file : FilePath → FilePath
encoding_file casc_dir = join casc_dir (path (txt "encoding.bin"))

-- `with_extension` on the cache's name
abbrev pub journal_file : FilePath → FilePath
journal_file casc_dir = join casc_dir (path (txt "resolution.sqlite-journal"))

abbrev pub wal_file : FilePath → FilePath
wal_file casc_dir = join casc_dir (path (txt "resolution.sqlite-wal"))

unfoldable pub file_mtime : {T : Type 0} → FilePath → Io T ℕ
file_mtime p = map_err (λ e. txt "stat " ++ (display p ++ (txt ": " ++ e))) (mtime p)

module _ (c : Cascette) (q : Sqlite) where
  open q use {
    Connection, open_database, init_schema, insert_resolution, insert_metadata, commit, bytes,
    read_metadata, count_resolution, select_resolution,
  }

  -- The verdict on the metadata that a query gives.
  unfoldable pub metadata_is_fresh : MetadataQuery → ℕ → ℕ → Result Bool
  metadata_is_fresh no_table root_mtime enc_mtime = Base.ok false
  metadata_is_fresh corrupt root_mtime enc_mtime = Base.ok false
  metadata_is_fresh no_row root_mtime enc_mtime = Base.ok false
  metadata_is_fresh (stored root enc version) root_mtime enc_mtime =
      Base.ok (root == root_mtime && (enc == enc_mtime && version == resolution_schema_version))
  metadata_is_fresh (failed e) root_mtime enc_mtime = Base.err (txt "query metadata: " ++ e)

  unfoldable pub fresh_node : Node → ℕ → ℕ → Result Bool
  fresh_node (file content _) root_mtime enc_mtime =
      metadata_is_fresh (read_metadata content) root_mtime enc_mtime
  fresh_node _ root_mtime enc_mtime = Base.err (txt "unable to open database file")

  unfoldable pub cache_is_fresh : {T : Type 0} → FilePath → ℕ → ℕ → Io T Bool
  cache_is_fresh cache_path root_mtime enc_mtime = do
    node ← gets (λ w. w.fs cache_path)
    map_err (λ e. txt "open " ++ (display cache_path ++ (txt ": " ++ e)))
        (lift (fresh_node node root_mtime enc_mtime))

  -- Both times, if both files can be inspected.
  unfoldable pub file_mtimes : {T : Type 0} → FilePath → Io T (Result (ℕ × ℕ))
  file_mtimes casc_dir = attempt (do
    root_mtime ← file_mtime (root_file casc_dir)
    enc_mtime ← file_mtime (encoding_file casc_dir)
    pure (root_mtime, enc_mtime))

  -- Files that cannot be inspected are not fresh.
  unfoldable pub fresh_at_times : {T : Type 0} → FilePath → Result (ℕ × ℕ) → Io T Bool
  fresh_at_times casc_dir (Base.err _) = pure false
  fresh_at_times casc_dir (Base.ok (root_mtime, enc_mtime)) =
      cache_is_fresh (cache_file casc_dir) root_mtime enc_mtime

  unfoldable pub resolution_cache_is_fresh : {T : Type 0} → FilePath → Io T Bool
  resolution_cache_is_fresh casc_dir = do
    cached ← exists (cache_file casc_dir)
    journal ← exists (journal_file casc_dir)
    wal ← exists (wal_file casc_dir)
    if not cached || (journal || wal)
        then pure false
        else do times ← file_mtimes casc_dir; fresh_at_times casc_dir times

  -- CascResolutionCache::open; the open cache is the content of its file.
  unfoldable pub open_cache : {T : Type 0} → FilePath → Io T Text
  open_cache casc_dir = do
    cached ← exists (cache_file casc_dir)
    if not cached
        then throw
            (display (cache_file casc_dir) ++ txt " not found (run `casc_refresh` to build it)")
        else do
          root_mtime ← file_mtime (root_file casc_dir)
          enc_mtime ← file_mtime (encoding_file casc_dir)
          fresh ← cache_is_fresh (cache_file casc_dir) root_mtime enc_mtime
          if not fresh
              then throw (
                  display (cache_file casc_dir)
                  ++ txt " is stale (run `casc_refresh` to rebuild it)")
              else do
                content ←
                    map_err (λ e. txt "open " ++ (display (cache_file casc_dir) ++ (txt ": " ++ e)))
                      (read (cache_file casc_dir))
                n ←
                    map_err (λ e. txt "count resolution entries: " ++ e)
                      (lift (count_resolution content))
                eprintln (txt "CASC resolution cache: " ++ (decimal n ++ txt " entries"))
                pure content

  -- The conversion of a row's blobs into keys of sixteen bytes.
  keys_of_row : Option (Text × Text) → Option (Text × Text)
  keys_of_row none = none
  keys_of_row (some (ck, ek)) = if length ck == 16 && length ek == 16 then some (ck, ek) else none

  -- CascResolutionCache::resolve_fdid
  unfoldable pub resolve_fdid : Text → ℕ → Option (Text × Text)
  unfolding keys_of_row
  resolve_fdid content fdid = keys_of_row (select_resolution content fdid)
