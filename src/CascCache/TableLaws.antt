-- ===== src/CascCache/TableLaws.antt =====
-- src/casc_cache.rs: the building of the tables writes the database of its directory alone.
use asset_resolver.Base.{
  ◌≡◌, ◌≢◌, refl, ap, ◌∙◌, ℕ, Text, txt, FilePath, Result, List, [], ◌∷◌, ◌++◌, decimal,
}
use asset_resolver.Base
use asset_resolver.World.Fs.{Node}
use asset_resolver.World.Io.{set_fs}
use asset_resolver.World.Laws.{IsReader, reader_rules, eprintln-IsReader}
use asset_resolver.World.Effects.{put-other}
use asset_resolver.World.Files.{
  Leaves, reader-Leaves, fallible-Leaves, map_err-Preserves, bind-Preserves, then-Preserves,
  gets-Preserves, pure-Preserves, lift-Preserves,
}
use asset_resolver.Casc.{Cascette}
use asset_resolver.Sqlite.{Sqlite}
use asset_resolver.CascCache.{cache_file, file_mtime}
use asset_resolver.CascCache.Tables.{
  read_cache_file, build_resolution_maps, after_statement, statement, open_node,
  open_resolution_cache, init_resolution_schema, insert_rows, insert_resolution_rows,
  insert_resolution_metadata, commit_resolution_cache, log_resolution_cache_build,
  build_resolution_cache,
}

module _ (c : Cascette) (q : Sqlite) {T : Type 0} (at : FilePath) (n : Node) (p : FilePath)
    (other : at ≢ p) where
  open q use {Connection}

  after_statement-Leaves :
      (r : Result Connection) → Leaves {T = T} (λ fs. fs at ≡ n) (after_statement c q p r)
  unfolding after_statement set_fs
  after_statement-Leaves (Base.err e) = record { at = λ w h. h }
  after_statement-Leaves (Base.ok conn) = record { at = λ w h. put-other w.fs p at _ other ∙ h }

  statement-Leaves :
      (what : Text) (r : Result Connection)
      → Leaves {T = T} (λ fs. fs at ≡ n) (statement c q p what r)
  unfolding statement after_statement
  statement-Leaves what r =
      map_err-Preserves _ (fallible-Leaves (λ fs. fs at ≡ n) (after_statement-Leaves r))

  insert_rows-Leaves :
      (conn : Connection) (rows : List (ℕ × Text × Text))
      → Leaves {T = T} (λ fs. fs at ≡ n) (insert_rows c q p conn rows)
  unfolding insert_rows statement after_statement
  insert_rows-Leaves conn [] = pure-Preserves conn
  insert_rows-Leaves conn ((fdid, ck, ek) ∷ rows) =
      bind-Preserves (statement-Leaves _ _) (λ conn'. insert_rows-Leaves conn' rows)

module _ (c : Cascette) (q : Sqlite) {T : Type 0} where
  pub build_resolution_maps-IsReader :
      (root enc : FilePath) → IsReader {T = T} (build_resolution_maps c q root enc)
  unfolding build_resolution_maps read_cache_file
  build_resolution_maps-IsReader root enc = search reader_rules depth 14

module _ (c : Cascette) (q : Sqlite) {T : Type 0} (at : FilePath) (n : Node) (casc_dir : FilePath)
    (other : at ≢ cache_file casc_dir) where
  file_mtime-IsReader : (p : FilePath) → IsReader {T = T} (file_mtime p)
  unfolding file_mtime
  file_mtime-IsReader p = search reader_rules

  -- The building of the tables changes no file but the database.
  pub build_resolution_cache-Leaves :
      Leaves {T = T} (λ fs. fs at ≡ n) (build_resolution_cache c q casc_dir)
  unfolding build_resolution_cache open_resolution_cache init_resolution_schema
      insert_resolution_rows insert_resolution_metadata commit_resolution_cache
      log_resolution_cache_build statement after_statement open_node insert_rows
  build_resolution_cache-Leaves =
      let p = cache_file casc_dir in
      let here = λ (fs : FilePath → Node). fs at ≡ n in
      let writes = statement-Leaves c q at n p other in
      bind-Preserves (reader-Leaves here (build_resolution_maps-IsReader c q _ _)) (λ maps.
        bind-Preserves (bind-Preserves (gets-Preserves _) (λ node. writes _ _)) (λ conn.
          bind-Preserves (writes _ _) (λ begun.
            bind-Preserves
              (then-Preserves (map_err-Preserves _ (lift-Preserves _))
                (insert_rows-Leaves c q at n p other begun _))
              (λ full. bind-Preserves (reader-Leaves here (file_mtime-IsReader _)) (λ root.
                bind-Preserves (reader-Leaves here (file_mtime-IsReader _)) (λ enc.
                  bind-Preserves (writes _ _) (λ stamped.
                    bind-Preserves (writes _ _)
                      (λ done. reader-Leaves here (eprintln-IsReader _)))))))))
