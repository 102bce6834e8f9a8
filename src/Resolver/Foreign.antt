-- ===== src/Resolver/Foreign.antt =====
-- src/casc_resolver.rs: the opening of a state looks at no other state and changes none.
use asset_resolver.Base.{
  ◌≡◌, refl, ap, ◌∙◌, Text, txt, FilePath, Option, none, some, Bool, true, false, Result, [], ◌∷◌,
  ◌++◌,
}
use asset_resolver.Base
use asset_resolver.Paths.{ResolverPaths}
use asset_resolver.World.Io.{World, Answer, ok, err, panicked, with_statics}
use asset_resolver.World.Statics.{
  Holds, holds_rules, reader-Holds, bind-Holds, then-Holds, map_err-Holds, pure-Holds, lift-Holds,
  gets-Holds,
}
use asset_resolver.Install.{wow_install_path}
use asset_resolver.Casc.{Cascette, BuildConfig}
use asset_resolver.Sqlite.{Sqlite}
use asset_resolver.Build.{ActiveBuild, read_requested_build, load_tact_keys}
use asset_resolver.Build.Laws.{read_requested_build-IsReader, load_tact_keys-IsReader}
use asset_resolver.CascState.{LocalArchiveAccess, open_local_access, read_local_blte}
use asset_resolver.CascCache.Tables.{build_resolution_cache}
use asset_resolver.CascCache.{open_cache}
use asset_resolver.CascCache.Foreign.{
  build_resolution_cache-Holds, publish_resolution_namespace-Holds, open_cache-Holds,
}
use asset_resolver.CascState.Laws.{open_local_access-IsReader, read_local_blte-IsReader}
use asset_resolver.Install.Foreign.{wow_install_path-Holds}
use asset_resolver.Resolver.Extract.{write_to_path, rename_over, after_rename, next_serial}
use asset_resolver.World.Statics.{attempt-Holds, remove_file-Holds, throw-Holds}
use asset_resolver.Resolver.Refresh.{
  initialize_shared, write_metadata, bootstrap, unshare, ensure_resolution_cache,
  rebuild_resolution_cache, read_refresh_file_by_local_archive, read_refresh_file_by_encoding_key,
  content_or_local,
}
use asset_resolver.Resolver.States.{init_casc, init_state}

module _ (c : Cascette) (q : Sqlite) {T : Type 0} (P : T → Type 0) where
  open c use {Installation, Keys}

  access-Holds : (data_dir : FilePath) → Holds P (open_local_access c data_dir)
  access-Holds data_dir = reader-Holds (open_local_access-IsReader c data_dir)

  blte-Holds : (access : LocalArchiveAccess c) (key : Text) → Holds P (read_local_blte c access key)
  blte-Holds access key = reader-Holds (read_local_blte-IsReader c access key)

  install_path-Holds : Holds P wow_install_path
  install_path-Holds = wow_install_path-Holds P

  by_local_archive-Holds :
      (keys : Keys) (key : Text) → Holds P (read_refresh_file_by_local_archive c q keys key)
  unfolding read_refresh_file_by_local_archive
  by_local_archive-Holds keys key =
      search (holds_rules, install_path-Holds, access-Holds, blte-Holds) depth 12

  content_or_local-Holds :
      (keys : Keys) (key : Text) (read : Result Text) → Holds P (content_or_local c q keys key read)
  unfolding content_or_local
  content_or_local-Holds keys key (Base.ok content) = pure-Holds content
  content_or_local-Holds keys key (Base.err e) = map_err-Holds _ (by_local_archive-Holds keys key)

  by_encoding_key-Holds :
      (keys : Keys) (install : Installation) (key : Text)
      → Holds P (read_refresh_file_by_encoding_key c q keys install key)
  unfolding read_refresh_file_by_encoding_key
  by_encoding_key-Holds keys install key =
      bind-Holds (gets-Holds _) (λ fs. content_or_local-Holds keys key _)

  tables-Holds : (p : FilePath) → Holds P (build_resolution_cache c q p)
  tables-Holds p = build_resolution_cache-Holds c q P p

  rebuild_resolution_cache-Holds :
      (keys : Keys) (install : Installation) (p : FilePath) (config : BuildConfig)
      → Holds P (rebuild_resolution_cache c q keys install p config)
  unfolding rebuild_resolution_cache write_metadata
  rebuild_resolution_cache-Holds keys install p config =
      search (holds_rules, by_encoding_key-Holds, tables-Holds) depth 40

-- A property of the statics behind the shared installation
abbrev Behind : (c : Cascette) {T : Type 0} → (T → Type 0) → Cascette.Installation c × T → Type 0
Behind c P statics = P statics.1

module _ (c : Cascette) (q : Sqlite) {T : Type 0} (P : T → Type 0) where
  initialize_shared-Holds : Holds (Behind c P) (initialize_shared c q)
  unfolding initialize_shared
  initialize_shared-Holds = record {
    at = λ w h.
        (map_err-Holds {P = Behind c P} (λ e. txt "CASC init for cache bootstrap: " ++ e)
            (lift-Holds (Cascette.initialize c w.fs w.statics.0).0)).at
          (record w { statics = ((Cascette.initialize c w.fs w.statics.0).1, w.statics.1) }) h;
  }

  rebuilt-Holds :
      (keys : Cascette.Keys c) (install : Cascette.Installation c) (p : FilePath)
      (config : BuildConfig)
      → Holds (Behind c P) (rebuild_resolution_cache c q keys install p config)
  rebuilt-Holds = rebuild_resolution_cache-Holds c q (Behind c P)

  bootstrap-Holds :
      (paths : ResolverPaths) (root : FilePath) (active : ActiveBuild) (staging : FilePath)
      → Holds (Behind c P) (bootstrap c q paths root active staging)
  unfolding bootstrap initialize_shared
  bootstrap-Holds paths root active staging = then-Holds initialize_shared-Holds (
      bind-Holds (gets-Holds _) (λ ready.
        bind-Holds (reader-Holds (load_tact_keys-IsReader c paths root active))
          (λ keys. rebuilt-Holds keys ready staging (ActiveBuild.config active))))

  unshare-Holds :
      (r : Answer (Unit {0}) × World (Cascette.Installation c × T))
      → Behind c P r.1.statics
      → P (unshare c q r).1.statics
  unfolding unshare
  unshare-Holds (ok _, w) h = h
  unshare-Holds (err e, w) h = h
  unshare-Holds (panicked, w) h = h

  ensure_resolution_cache-Holds :
      (paths : ResolverPaths) (root : FilePath) (install : Cascette.Installation c) (p : FilePath)
      (active : ActiveBuild)
      → Holds P (ensure_resolution_cache c q paths root install p active)
  unfolding ensure_resolution_cache unshare bootstrap initialize_shared
  ensure_resolution_cache-Holds paths root install p active = record {
    at = λ w h. unshare-Holds _ (
        (publish_resolution_namespace-Holds c q (Behind c P) p (bootstrap c q paths root active)
            (bootstrap-Holds paths root active)).at
          (with_statics w (install, w.statics)) h);
  }

  pub build-Holds :
      (paths : ResolverPaths) (root : FilePath) → Holds P (read_requested_build c paths root)
  build-Holds paths root = reader-Holds (read_requested_build-IsReader c paths root)

  keys-Holds :
      (paths : ResolverPaths) (root : FilePath) (active : ActiveBuild)
      → Holds P (load_tact_keys c paths root active)
  keys-Holds paths root active = reader-Holds (load_tact_keys-IsReader c paths root active)

  cache-Holds : (p : FilePath) → Holds P (open_cache c q p)
  cache-Holds p = open_cache-Holds c q P p

  root-Holds : Holds P wow_install_path
  root-Holds = wow_install_path-Holds P

  -- The opening of a state leaves the statics as they are.
  pub init_casc-Holds : (paths : ResolverPaths) → Holds P (init_casc c q paths)
  unfolding init_casc init_state
  init_casc-Holds paths =
      search
        (
          holds_rules, root-Holds, build-Holds, keys-Holds, ensure_resolution_cache-Holds,
          cache-Holds,
        )
        depth 30

-- Writing a file looks at no state.
module _ {T : Type 0} (P : T → Type 0) where
  after_rename-Holds :
      (temporary out_path : FilePath) (renamed : Result (Unit {0}))
      → Holds P (after_rename temporary out_path renamed)
  unfolding after_rename
  after_rename-Holds temporary out_path (Base.ok _) = pure-Holds tt
  after_rename-Holds temporary out_path (Base.err e) =
      bind-Holds (attempt-Holds (remove_file-Holds temporary)) (λ _. throw-Holds _)

  next_serial-Holds : Holds P next_serial
  unfolding next_serial
  next_serial-Holds = record { at = λ w h. h }

  pub write_to_path-Holds :
      (out_path : FilePath) (content : Text) → Holds P (write_to_path out_path content)
  unfolding write_to_path rename_over
  write_to_path-Holds out_path content =
      search (holds_rules, next_serial-Holds, after_rename-Holds) depth 14
