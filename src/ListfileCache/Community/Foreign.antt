-- ===== src/ListfileCache/Community/Foreign.antt =====
-- src/listfile_cache.rs: opening a community listfile leaves the statics alone.
use asset_resolver.Base.{
  Bool, true, false, ℕ, Text, FilePath, Option, none, some, List, [], ◌∷◌, Result,
}
use asset_resolver.World.Fs.{Node, absent, dir, file}
use asset_resolver.World.Statics.{Holds, holds_rules, fallible-Holds}
use asset_resolver.ListfileCache.{source_mtime}
use asset_resolver.ListfileCache.Foreign.{
  statement-Holds, open_writable_cache-Holds, open_local_cache-Holds,
}
use asset_resolver.ListfileCache.Community.{
  ensure_cache, cache_is_fresh, metadata_is_fresh, import_lines, import_line, import_rows,
  open_file, open_found, record_metadata, init_cache_schema, rebuild_cache, open_community_cache,
  create_parent, ensure_open, rebuild_unless,
}
use asset_resolver.ListfileCache.Sql.{
  Database, row, no_rows, no_table, failed, Prepared, prepared, no_metadata, not_prepared,
}

module _ {T : Type 0} (P : T → Type 0) where
  source_mtime-Holds : (p : FilePath) → Holds P (source_mtime p)
  unfolding source_mtime
  source_mtime-Holds p = search holds_rules

  metadata_is_fresh-Holds : (p : FilePath) (m : Prepared) → Holds P (metadata_is_fresh p m)
  unfolding metadata_is_fresh
  metadata_is_fresh-Holds p no_metadata = search holds_rules
  metadata_is_fresh-Holds p (not_prepared e) = search holds_rules
  metadata_is_fresh-Holds p (prepared no_rows) = search holds_rules
  metadata_is_fresh-Holds p (prepared (no_table e)) = search holds_rules
  metadata_is_fresh-Holds p (prepared (failed e)) = search holds_rules
  metadata_is_fresh-Holds p (prepared (row r)) = search (holds_rules, source_mtime-Holds)

  open_found-Holds : (n : Node) → Holds P (open_found n)
  unfolding open_found
  open_found-Holds absent = search holds_rules
  open_found-Holds dir = search holds_rules
  open_found-Holds (file content t) = search holds_rules

  open_file-Holds : (p : FilePath) → Holds P (open_file p)
  unfolding open_file
  open_file-Holds p = fallible-Holds (record { at = λ w. (open_found-Holds (w.fs p)).at w })

  create_parent-Holds : (above : Option FilePath) → Holds P (create_parent above)
  unfolding create_parent
  create_parent-Holds none = search holds_rules
  create_parent-Holds (some above) = search holds_rules

module _ (d : Database) {T : Type 0} (P : T → Type 0) where
  import_line-Holds :
      (p : FilePath) (conn : Database.Connection d) (r : Option (ℕ × Text))
      → Holds P (import_line d p conn r)
  unfolding import_line
  import_line-Holds p conn none = search holds_rules
  import_line-Holds p conn (some r) = search (statement-Holds)

  import_lines-Holds :
      (p q : FilePath) (ls : List (Result Text)) (conn : Database.Connection d)
      → Holds P (import_lines d p q ls conn)
  unfolding import_lines
  import_lines-Holds p q [] conn = search holds_rules
  import_lines-Holds p q (l ∷ ls) conn =
      search (holds_rules, import_line-Holds, import_lines-Holds p q ls)

  import_rows-Holds :
      (p : FilePath) (conn : Database.Connection d) (q : FilePath)
      → Holds P (import_rows d p conn q)
  unfolding import_rows
  import_rows-Holds p conn q = search (holds_rules, open_file-Holds, import_lines-Holds) depth 12

  rebuild_cache-Holds :
      (p : FilePath) (conn : Database.Connection d) (q : FilePath)
      → Holds P (rebuild_cache d p conn q)
  unfolding rebuild_cache init_cache_schema record_metadata
  rebuild_cache-Holds p conn q =
      search (holds_rules, statement-Holds, import_rows-Holds, source_mtime-Holds) depth 12

  rebuild_unless-Holds :
      (fresh : Bool) (p : FilePath) (conn : Database.Connection d) (q : FilePath)
      → Holds P (rebuild_unless d fresh p conn q)
  unfolding rebuild_unless
  rebuild_unless-Holds true p conn q = search holds_rules
  rebuild_unless-Holds false p conn q = search (holds_rules, rebuild_cache-Holds)

  ensure_open-Holds :
      (there : Bool) (p : FilePath) (conn : Database.Connection d) (q : FilePath)
      → Holds P (ensure_open d there p conn q)
  unfolding ensure_open cache_is_fresh
  ensure_open-Holds true p conn q =
      search (holds_rules, metadata_is_fresh-Holds, rebuild_unless-Holds)
  ensure_open-Holds false p conn q = search holds_rules

  ensure_cache-Holds : (p q : FilePath) → Holds P (ensure_cache d p q)
  unfolding ensure_cache
  ensure_cache-Holds p q =
      search (holds_rules, create_parent-Holds, open_writable_cache-Holds, ensure_open-Holds) depth
        8

  pub open_community_cache-Holds : (p q : FilePath) → Holds P (open_community_cache d p q)
  unfolding open_community_cache
  open_community_cache-Holds p q =
      search (holds_rules, ensure_cache-Holds, open_local_cache-Holds) depth 12
