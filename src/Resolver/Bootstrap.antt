-- ===== src/Resolver/Bootstrap.antt =====
-- src/casc_resolver.rs: the bootstrap of a resolution cache leaves a complete namespace.
use asset_resolver.Base.{
  ◌<◌, ◌≡◌, ◌≢◌, refl, sym, ap, ◌∙◌, arith, Text, txt, FilePath, normal, path, join, join-IsPlain,
  path-IsName, IsSlashFree, IsPlain, length, length-append, Option, none, some, Result, Bool, true,
  false, [], ◌∷◌, ◌++◌,
}
use asset_resolver.Base
use asset_resolver.Paths.{ResolverPaths}
use asset_resolver.RuntimeMode.{process_runtime_mode, guard_casc_access}
use asset_resolver.World.Fs.{FileSystem, dir}
use asset_resolver.World.Io.{World, Io, Answer, ok, err, panicked, pure, lift, with_statics}
use asset_resolver.World.Laws.{answer-IsReader, lift-IsReader}
use asset_resolver.World.Directories.{map_err-world}
use asset_resolver.World.Files.{
  Leaves, reader-Leaves, run-Leaves, write-Leaves, create_dir_all-Leaves, bind-Preserves,
  then-Preserves, map_err-Preserves, gets-Preserves, pure-Preserves, lift-Preserves,
}
use asset_resolver.Install.{wow_install_path, init_install_path}
use asset_resolver.Casc.{Cascette, BuildConfig}
use asset_resolver.Sqlite.{Sqlite}
use asset_resolver.Build.{ActiveBuild}
use asset_resolver.Build.Laws.{load_tact_keys-IsReader}
use asset_resolver.CascState.Laws.{open_local_access-IsReader, read_local_blte-IsReader}
use asset_resolver.CascCache.Fresh.{IsFresh}
use asset_resolver.CascCache.Lock.{child}
use asset_resolver.CascCache.Published.{publish_resolution_namespace-IsFresh}
use asset_resolver.CascCache.TableLaws.{build_resolution_cache-Leaves}
use asset_resolver.CascCache.Publish.{publish_resolution_namespace}
use asset_resolver.Resolver.Refresh.{
  initialize_shared, write_metadata, bootstrap, unshare, ensure_resolution_cache,
  rebuild_resolution_cache, read_refresh_file_by_local_archive, read_refresh_file_by_encoding_key,
  content_or_local, parse_key,
}
use asset_resolver.Build.Hex.{parse_hex_16}

-- A named file of a directory is not the directory.
inside_other : (d p : FilePath) → IsPlain p → 0 < length p → d ≢ join d p
inside_other d p plain some_name same =
    omega (arith, some_name, ap length (same ∙ join-IsPlain d p plain), length-append d p)

module _ {T : Type 0} (Q : FileSystem → Type 0) where
  found_path-Leaves :
      (known : Option (Option FilePath)) (w : World T)
      → Q w.fs
      → Q (init_install_path (record w { install_path = known })).1.fs
  unfolding init_install_path pure
  found_path-Leaves none w h = h
  found_path-Leaves (some found) w h = h

  allowed-Leaves :
      (allowed : Result (Unit {0}))
      → Leaves Q (
          let step : Io T (Option FilePath) = elim allowed [
            | Base.err _ ↦ pure none
            | Base.ok _ ↦ init_install_path
          ] in
          step)
  allowed-Leaves (Base.err e) = pure-Preserves none
  allowed-Leaves (Base.ok _) = record { at = λ w. found_path-Leaves w.install_path w }

  wow_install_path-Leaves : Leaves {T = T} Q wow_install_path
  unfolding wow_install_path init_install_path
  wow_install_path-Leaves = bind-Preserves (run-Leaves Q process_runtime_mode) (λ mode.
      bind-Preserves (run-Leaves Q (guard_casc_access mode (txt "WoW install discovery")))
        allowed-Leaves)

module _ (c : Cascette) (q : Sqlite) {T : Type 0} where
  open c use {Installation, Keys}

  module _ (Q : FileSystem → Type 0) where
    by_local_archive-Leaves :
        (keys : Keys) (key : Text)
        → Leaves {T = T} Q (read_refresh_file_by_local_archive c q keys key)
    unfolding read_refresh_file_by_local_archive
    by_local_archive-Leaves keys key = bind-Preserves (wow_install_path-Leaves Q) (λ found.
        bind-Preserves (lift-Preserves _) (λ root.
          bind-Preserves (reader-Leaves Q (open_local_access-IsReader c _)) (λ access.
            bind-Preserves (reader-Leaves Q (read_local_blte-IsReader c access key))
              (λ blte. map_err-Preserves _ (lift-Preserves _)))))

    content_or_local-Leaves :
        (keys : Keys) (key : Text) (read : Result Text)
        → Leaves {T = T} Q (content_or_local c q keys key read)
    unfolding content_or_local
    content_or_local-Leaves keys key (Base.ok content) = pure-Preserves content
    content_or_local-Leaves keys key (Base.err e) =
        map_err-Preserves _ (by_local_archive-Leaves keys key)

    by_encoding_key-Leaves :
        (keys : Keys) (install : Installation) (key : Text)
        → Leaves {T = T} Q (read_refresh_file_by_encoding_key c q keys install key)
    unfolding read_refresh_file_by_encoding_key
    by_encoding_key-Leaves keys install key =
        bind-Preserves (gets-Preserves _) (λ fs. content_or_local-Leaves keys key _)

-- The directory is there.
abbrev Stays : FilePath → FileSystem → Type 0
Stays d fs = fs d ≡ dir

module _ (c : Cascette) (q : Sqlite) {T : Type 0} (d : FilePath) where
  write_metadata-Leaves :
      (p : FilePath) (content : Text)
      → d ≢ p
      → Leaves {T = T} (Stays d) (write_metadata c q p content)
  unfolding write_metadata
  write_metadata-Leaves p content other = map_err-Preserves _ (write-Leaves d dir p content other)

  parse_key-Leaves : (value : Text) → Leaves {T = T} (Stays d) (parse_key value)
  parse_key-Leaves value = reader-Leaves (Stays d) (answer-IsReader (parse_hex_16 value))

  rebuild_resolution_cache-Leaves :
      (keys : Cascette.Keys c) (install : Cascette.Installation c) (config : BuildConfig)
      → Leaves {T = T} (Stays d) (rebuild_resolution_cache c q keys install d config)
  unfolding rebuild_resolution_cache write_metadata path txt
  rebuild_resolution_cache-Leaves keys install config =
      let reads = by_encoding_key-Leaves c q (Stays d) keys install in
      then-Preserves (map_err-Preserves _ (create_dir_all-Leaves d dir d refl)) (
        bind-Preserves (lift-Preserves _) (λ info.
          bind-Preserves (lift-Preserves _) (λ encoding_text.
            bind-Preserves (parse_key-Leaves encoding_text) (λ encoding_key.
              bind-Preserves (map_err-Preserves _ (reads encoding_key)) (λ encoding_data.
                bind-Preserves (parse_key-Leaves _) (λ content_key.
                  then-Preserves (lift-Preserves _) (
                    then-Preserves
                      (write_metadata-Leaves _ _ (inside_other d _ (refl, tt) (omega arith)))
                      (bind-Preserves (lift-Preserves _) (λ root_text.
                        bind-Preserves (parse_key-Leaves root_text) (λ root_content_key.
                          bind-Preserves (lift-Preserves _) (λ root_key.
                            bind-Preserves (map_err-Preserves _ (reads root_key)) (λ root_data.
                              then-Preserves (lift-Preserves _) (
                                then-Preserves
                                  (write_metadata-Leaves _ _
                                    (inside_other d _ (refl, tt) (omega arith)))
                                  (build_resolution_cache-Leaves c q d dir d
                                    (inside_other d _ (refl, tt) (omega arith))))))))))))))))

-- The bootstrap leaves the directory that it fills.
bootstrap-Leaves :
    (c : Cascette) (q : Sqlite) {T : Type 0} (paths : ResolverPaths) (root : FilePath)
    (active : ActiveBuild) (d : FilePath)
    → Leaves {T = Cascette.Installation c × T} (Stays d) (bootstrap c q paths root active d)
unfolding bootstrap initialize_shared
bootstrap-Leaves c q paths root active d =
    then-Preserves
      (record {
        at = λ w h.
            let (result, ready) = Cascette.initialize c w.fs w.statics.0 in
            ap (λ u. u.fs d)
              (map_err-world (λ e. txt "CASC init for cache bootstrap: " ++ e) (lift result)
                (record w { statics = (ready, w.statics.1) }))
            ∙ ap (λ fs. fs d) ((lift-IsReader result).at _).fs
            ∙ h;
      })
      (bind-Preserves (gets-Preserves _) (λ ready.
        bind-Preserves (reader-Leaves (Stays d) (load_tact_keys-IsReader c paths root active))
          (λ keys. rebuild_resolution_cache-Leaves c q d keys ready (ActiveBuild.config active))))

module _ (c : Cascette) (q : Sqlite) {T : Type 0} where
  unshared :
      (r : Answer (Unit {0}) × World (Cascette.Installation c × T))
      (ready : Cascette.Installation c)
      → (unshare c q r).0 ≡ ok ready
      → (r.0 ≡ ok tt) × ((unshare c q r).1.fs ≡ r.1.fs)
  unfolding unshare
  unshared (ok _, w) ready h = (refl, refl)
  unshared (err e, w) ready h = absurd (cc h)
  unshared (panicked, w) ready h = absurd (cc h)

  -- Whatever the installation, the archives and the system do: if the bootstrap of a resolution cache
  -- succeeds, the directory of the cache is a complete namespace afterwards. The name of the directory is
  -- one component.
  pub ensure_resolution_cache-IsFresh :
      (paths : ResolverPaths) (root : FilePath) (install ready : Cascette.Installation c)
      (d : FilePath) (name : Text) (active : ActiveBuild) (w : World T)
      → IsSlashFree name
      → (ensure_resolution_cache c q paths root install (child d name) active w).0 ≡ ok ready
      → IsFresh c q
          (ensure_resolution_cache c q paths root install (child d name) active w).1.fs
          (child d name)
  unfolding ensure_resolution_cache unshare bootstrap initialize_shared
  ensure_resolution_cache-IsFresh paths root install ready d name active w slash h =
      let v : World (Cascette.Installation c × T) = with_statics w (install, w.statics) in
      let (good, files) =
        unshared
          (publish_resolution_namespace c q (child d name) (bootstrap c q paths root active) v)
          ready h in
      rw files (
        publish_resolution_namespace-IsFresh c q d name slash (bootstrap c q paths root active)
          (bootstrap-Leaves c q paths root active) v good)
