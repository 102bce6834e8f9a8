-- ===== src/ListfileCache/Foreign.antt =====
-- src/listfile_cache.rs: none of the operations on the caches looks at the statics or changes them.
use asset_resolver.Base.{
  ◌≡◌, refl, ℕ, Text, FilePath, parent, Option, none, some, Bool, true, false, List, [], ◌∷◌,
  Result,
}
use asset_resolver.Base
use asset_resolver.World.Io.{set_fs}
use asset_resolver.World.Statics.{Holds, holds_rules, fallible-Holds, map_err-Holds}
use asset_resolver.ListfileCache.{
  statement, after_statement, open_writable_cache, open_local_cache, lookup_local_fdid,
  lookup_local_path, remember_below, remember_local_cache_entry,
}
use asset_resolver.ListfileCache.Sql.{Database}

module _ (d : Database) {T : Type 0} (P : T → Type 0) where
  after_statement-Holds :
      (p : FilePath) (r : Result (Database.Connection d)) → Holds P (after_statement d p r)
  unfolding after_statement set_fs
  after_statement-Holds p (Base.err e) = record { at = λ w h. h }
  after_statement-Holds p (Base.ok conn) = record { at = λ w h. h }

  pub statement-Holds :
      (p : FilePath) (what : Text) (r : Result (Database.Connection d))
      → Holds P (statement d p what r)
  unfolding statement
  statement-Holds p what r = map_err-Holds _ (fallible-Holds (after_statement-Holds p r))

  pub open_writable_cache-Holds : (p : FilePath) → Holds P (open_writable_cache d p)
  unfolding open_writable_cache
  open_writable_cache-Holds p = search (holds_rules, statement-Holds)

  pub open_local_cache-Holds : (p : FilePath) → Holds P (open_local_cache d p)
  unfolding open_local_cache
  open_local_cache-Holds p = search holds_rules

  pub lookup_local_fdid-Holds : (p : FilePath) (fdid : ℕ) → Holds P (lookup_local_fdid d p fdid)
  unfolding lookup_local_fdid
  lookup_local_fdid-Holds p fdid = search (holds_rules, open_local_cache-Holds)

  pub lookup_local_path-Holds : (p : FilePath) (t : Text) → Holds P (lookup_local_path d p t)
  unfolding lookup_local_path
  lookup_local_path-Holds p t = search (holds_rules, open_local_cache-Holds)

  remember_below-Holds :
      (above : Option FilePath) (p : FilePath) (fdid : ℕ) (t : Text)
      → Holds P (remember_below d above p fdid t)
  unfolding remember_below
  remember_below-Holds none p fdid t = search holds_rules
  remember_below-Holds (some above) p fdid t =
      search (holds_rules, statement-Holds, open_writable_cache-Holds) depth 12

  pub remember_local_cache_entry-Holds :
      (p : FilePath) (fdid : ℕ) (t : Text) → Holds P (remember_local_cache_entry d p fdid t)
  unfolding remember_local_cache_entry
  remember_local_cache_entry-Holds p fdid t = remember_below-Holds (parent p) p fdid t
