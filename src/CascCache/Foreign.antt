-- ===== src/CascCache/Foreign.antt =====
-- src/casc_cache.rs: none of the operations on a resolution cache looks at the statics or changes them.
use asset_resolver.Base.{ℕ, ◌≡◌, refl, Text, FilePath, Bool, Result, List, [], ◌∷◌}
use asset_resolver.Base
use asset_resolver.World.Fs.{Node, absent, dir, file, put}
use asset_resolver.World.Io.{World, Io, Answer, ok, set_fs, pure, throw}
use asset_resolver.World.Statics.{
  Holds, holds_rules, fallible-Holds, map_err-Holds, reader-Holds, bind-Holds, pure-Holds,
}
use asset_resolver.Casc.{Cascette}
use asset_resolver.Sqlite.{Sqlite}
use asset_resolver.CascCache.{file_mtime, open_cache, resolution_cache_is_fresh, cache_is_fresh}
use asset_resolver.CascCache.Fresh.{resolution_cache_is_fresh-IsReader}
use asset_resolver.CascCache.TableLaws.{build_resolution_maps-IsReader}
use asset_resolver.CascCache.Tables.{
  after_statement, statement, open_resolution_cache, init_resolution_schema, insert_rows,
  insert_resolution_rows, insert_resolution_metadata, commit_resolution_cache,
  log_resolution_cache_build, build_resolution_cache, build_resolution_maps,
}
use asset_resolver.CascCache.Publish.{
  parent_of, name_of, open_lock, acquire_namespace_lock, create_namespace_staging,
  publish_complete_namespace, clean_staging, publish_resolution_namespace,
}

module _ (c : Cascette) (q : Sqlite) {T : Type 0} (P : T → Type 0) where
  open q use {Connection}

  after_statement-Holds : (p : FilePath) (r : Result Connection) → Holds P (after_statement c q p r)
  unfolding after_statement set_fs
  after_statement-Holds p (Base.err e) = record { at = λ w h. h }
  after_statement-Holds p (Base.ok conn) = record { at = λ w h. h }

  statement-Holds :
      (p : FilePath) (what : Text) (r : Result Connection) → Holds P (statement c q p what r)
  unfolding statement after_statement
  statement-Holds p what r = map_err-Holds _ (fallible-Holds (after_statement-Holds p r))

  insert_rows-Holds :
      (p : FilePath) (conn : Connection) (rows : List (ℕ × Text × Text))
      → Holds P (insert_rows c q p conn rows)
  unfolding insert_rows statement after_statement
  insert_rows-Holds p conn [] = pure-Holds conn
  insert_rows-Holds p conn ((fdid, ck, ek) ∷ rows) =
      bind-Holds (statement-Holds p _ _) (λ conn'. insert_rows-Holds p conn' rows)

  maps-Holds : (root enc : FilePath) → Holds P (build_resolution_maps c q root enc)
  maps-Holds root enc = reader-Holds (build_resolution_maps-IsReader c q root enc)

  pub build_resolution_cache-Holds : (p : FilePath) → Holds P (build_resolution_cache c q p)
  unfolding build_resolution_cache open_resolution_cache init_resolution_schema
      insert_resolution_rows insert_resolution_metadata commit_resolution_cache
      log_resolution_cache_build file_mtime
  build_resolution_cache-Holds p =
      search (holds_rules, statement-Holds, insert_rows-Holds, maps-Holds) depth 20

  locked-Holds :
      (n : Node) (p : FilePath) (w : World T)
      → P w.statics
      → P
          (let step : Answer (Unit {0}) × World T = elim n [
            | file _ _ ↦ pure tt w
            | dir ↦ throw (Base.txt "Is a directory (os error 21)") w
            | absent ↦ (ok tt, set_fs (put w.fs p (file [] w.now)) w)
          ] in
            step.1).statics
  unfolding pure throw set_fs
  locked-Holds absent p w h = h
  locked-Holds dir p w h = h
  locked-Holds (file _ _) p w h = h

  open_lock-Holds : (p : FilePath) → Holds P (open_lock p)
  unfolding open_lock
  open_lock-Holds p = fallible-Holds (record { at = λ w. locked-Holds (w.fs p) p w })

  acquire_namespace_lock-Holds : (p : FilePath) → Holds P (acquire_namespace_lock p)
  unfolding acquire_namespace_lock parent_of name_of open_lock
  acquire_namespace_lock-Holds p = search (holds_rules, open_lock-Holds) depth 14

  create_namespace_staging-Holds : (p : FilePath) → Holds P (create_namespace_staging p)
  unfolding create_namespace_staging parent_of name_of
  create_namespace_staging-Holds p = search holds_rules depth 14

  fresh-Holds : (p : FilePath) → Holds P (resolution_cache_is_fresh c q p)
  fresh-Holds p = reader-Holds (resolution_cache_is_fresh-IsReader c q p)

  publish_complete_namespace-Holds :
      (staging p : FilePath) → Holds P (publish_complete_namespace c q staging p)
  unfolding publish_complete_namespace
  publish_complete_namespace-Holds staging p = search (holds_rules, fresh-Holds) depth 14

  clean_staging-Holds :
      (p : FilePath) (result : Result (Unit {0})) → Holds P (clean_staging c q p result)
  unfolding clean_staging
  clean_staging-Holds p result = search holds_rules depth 14

  -- A publication leaves the statics as its builder does.
  pub publish_resolution_namespace-Holds :
      (p : FilePath) (write_cache : FilePath → Io T (Unit {0}))
      → ((staging : FilePath) → Holds P (write_cache staging))
      → Holds P (publish_resolution_namespace c q p write_cache)
  unfolding publish_resolution_namespace
  publish_resolution_namespace-Holds p write_cache builds =
      search
        (
          holds_rules, acquire_namespace_lock-Holds, create_namespace_staging-Holds, fresh-Holds,
          publish_complete_namespace-Holds, clean_staging-Holds, builds,
        )
        depth 14

  pub open_cache-Holds : (p : FilePath) → Holds P (open_cache c q p)
  unfolding open_cache file_mtime cache_is_fresh
  open_cache-Holds p = search holds_rules depth 24
