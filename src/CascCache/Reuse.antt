-- ===== src/CascCache/Reuse.antt =====
-- src/casc_cache.rs: a complete namespace is used as it is.
use asset_resolver.Base.{
  ℕ, ◌≡◌, refl, sym, ap, ◌∙◌, Text, txt, FilePath, display, Option, some, Bool, true, false, not,
  ◌&&◌, ◌||◌, List, [], ◌∷◌, ◌++◌, ◌==◌, eq_refl, nat_eq, if◌then◌else◌,
}
use asset_resolver.Base
use asset_resolver.Paths.{resolution_schema_version}
use asset_resolver.World.Fs.{Node, file, node_exists}
use asset_resolver.World.Io.{World, Io, ok, lift, pure}
use asset_resolver.World.Chains.{
  >>=-ok, pure_step, exists_step, gets_step, attempt-ok, map_err-ok, lift_ok_step,
}
use asset_resolver.World.Inversion.{node_mtime}
use asset_resolver.World.Quiet.{mtime-quiet}
use asset_resolver.Casc.{Cascette}
use asset_resolver.Sqlite.{Sqlite, stored}
use asset_resolver.CascCache.{
  cache_file, root_file, encoding_file, journal_file, wal_file, file_mtime, file_mtimes,
  fresh_at_times, fresh_node, metadata_is_fresh, cache_is_fresh, resolution_cache_is_fresh,
}
use asset_resolver.CascCache.Fresh.{IsFresh}

module _ {T : Type 0} where
  file_mtime-quiet :
      (p : FilePath) (t : ℕ) (w : World T)
      → w.faults ≡ []
      → node_mtime (w.fs p) ≡ some t
      → file_mtime p w ≡ (ok t, w)
  unfolding file_mtime
  file_mtime-quiet p t w h timed = map_err-ok _ (_) (mtime-quiet p t w h timed)

  open_gate :
      (cached journal wal : Bool) (k : Io T Bool) (w : World T)
      → cached ≡ true
      → journal ≡ false
      → wal ≡ false
      → (if not cached || (journal || wal) then pure false else k) w ≡ k w
  open_gate cached journal wal k w c j l = rw (c, j, l) refl

module _ (c : Cascette) (q : Sqlite) where
  fresh_node-stored :
      (n : Node) (content : Text) (t root enc : ℕ)
      → n ≡ file content t
      → Sqlite.read_metadata q content ≡ stored root enc resolution_schema_version
      → fresh_node c q n root enc ≡ Base.ok true
  unfolding fresh_node metadata_is_fresh
  fresh_node-stored n content t root enc there says =
      rw (there, says, eq_refl root, eq_refl enc) refl

module _ (c : Cascette) (q : Sqlite) {T : Type 0} where
  file_mtimes-quiet :
      (casc_dir : FilePath) (root enc : ℕ) (w : World T)
      → w.faults ≡ []
      → node_mtime (w.fs (root_file casc_dir)) ≡ some root
      → node_mtime (w.fs (encoding_file casc_dir)) ≡ some enc
      → file_mtimes c q casc_dir w ≡ (ok (Base.ok (root, enc)), w)
  unfolding file_mtimes
  file_mtimes-quiet casc_dir root enc w h first second = attempt-ok _ (
      >>=-ok _ _ (file_mtime-quiet (root_file casc_dir) root w h first)
      ∙ >>=-ok _ _ (file_mtime-quiet (encoding_file casc_dir) enc w h second)
      ∙ pure_step (root, enc) w)

  cache_is_fresh-quiet :
      (p : FilePath) (content : Text) (t root enc : ℕ) (w : World T)
      → w.fs p ≡ file content t
      → Sqlite.read_metadata q content ≡ stored root enc resolution_schema_version
      → cache_is_fresh c q p root enc w ≡ (ok true, w)
  unfolding cache_is_fresh
  cache_is_fresh-quiet p content t root enc w there says =
      >>=-ok _ _ (gets_step (λ w. w.fs p) w)
      ∙ map_err-ok _ _ (
          ap (λ r. lift r w) (fresh_node-stored c q (w.fs p) content t root enc there says)
          ∙ lift_ok_step true w)

  -- Where nothing is refused, a complete namespace is taken for fresh, and looking changes nothing.
  pub resolution_cache_is_fresh-quiet :
      (casc_dir : FilePath) (w : World T)
      → w.faults ≡ []
      → IsFresh c q w.fs casc_dir
      → resolution_cache_is_fresh c q casc_dir w ≡ (ok true, w)
  unfolding resolution_cache_is_fresh fresh_at_times
  resolution_cache_is_fresh-quiet casc_dir w h f =
      >>=-ok _ _ (exists_step (cache_file casc_dir) w)
      ∙ >>=-ok _ _ (exists_step (journal_file casc_dir) w)
      ∙ >>=-ok _ _ (exists_step (wal_file casc_dir) w)
      ∙ open_gate _ _ _ _ w (ap node_exists f.is_cached) f.no_journal f.no_wal
      ∙ >>=-ok _ _ (file_mtimes-quiet casc_dir f.root_mtime f.enc_mtime w h f.root_time f.enc_time)
      ∙ cache_is_fresh-quiet (cache_file casc_dir) f.content f.changed f.root_mtime f.enc_mtime w
          f.is_cached f.metadata
