-- ===== src/Resolver/Installs.antt =====
-- src/casc_resolver.rs: the entry points for a given installation, and those on the default paths. Each
-- asks the policy of the process before it looks at the installation.
use asset_resolver.Base.{ℕ, Text, txt, FilePath, path, join, Option, none, ◌++◌, Result}
use asset_resolver.Base
use asset_resolver.RuntimeMode.{process_runtime_mode, guard_casc_access}
use asset_resolver.Paths.{ResolverPaths, casc_cache_path}
use asset_resolver.World.Io.{Io, ◌>>=◌, ◌>>◌, pure, lift, attempt, map_err, gets, run}
use asset_resolver.Casc.{Cascette}
use asset_resolver.Sqlite.{Sqlite}
use asset_resolver.Build.{ActiveBuild, read_active_build}
use asset_resolver.CascCache.{open_cache}
use asset_resolver.Resolver.Extract.{ExtractedFile}
use asset_resolver.Resolver.Refresh.{ensure_resolution_cache}
use asset_resolver.Resolver.States.{
  Statics, extract_fdid_to_path_with_paths, resolve_bytes_with_paths,
}
use asset_resolver.Resolver.Api.{ensure_cached}

-- `guard_casc_access(process_runtime_mode(), operation)?`
unfoldable pub guard_process : {T : Type 0} → Text → Io T (Unit {0})
guard_process operation = do
  mode ← run process_runtime_mode
  allowed ← run (guard_casc_access mode operation)
  lift allowed

-- `paths` are `default_paths()`.
module _ (c : Cascette) (q : Sqlite) (paths : ResolverPaths) where
  unfoldable pub casc_cache_dir_for_install : {T : Type 0} → FilePath → Io T FilePath
  casc_cache_dir_for_install install_root = do
    guard_process (txt "read install build for cache path")
    active_build ← read_active_build c install_root
    pure (
        casc_cache_path paths (ActiveBuild.product active_build)
          (ActiveBuild.build_key active_build))

  -- The resolution cache of the active build, built where it is not fresh; its directory.
  refreshed_namespace : {T : Type 0} → FilePath → Io T FilePath
  refreshed_namespace install_root = do
    fs ← gets (λ w. w.fs)
    install ←
        map_err (λ e. txt "CASC open: " ++ e)
          (lift (Cascette.open_installation c fs (join install_root (path (txt "Data")))))
    active_build ← read_active_build c install_root
    let casc_dir =
        casc_cache_path paths (ActiveBuild.product active_build)
          (ActiveBuild.build_key active_build)
    _ ← ensure_resolution_cache c q paths install_root install casc_dir active_build
    pure casc_dir

  unfoldable pub open_resolution_cache_for_install : {T : Type 0} → FilePath → Io T Text
  unfolding refreshed_namespace
  open_resolution_cache_for_install install_root = do
    guard_process (txt "open install resolution cache")
    casc_dir ← refreshed_namespace install_root
    open_cache c q casc_dir

  unfoldable pub refresh_resolution_cache_for_install : {T : Type 0} → FilePath → Io T FilePath
  unfolding refreshed_namespace
  refresh_resolution_cache_for_install install_root = do
    guard_process (txt "refresh install resolution cache")
    refreshed_namespace install_root

  -- `listfile` is the default listfile's `lookup_fdid`.
  module _ (listfile : ℕ → Option Text) where
    unfoldable pub extract_fdid_to_path : ℕ → FilePath → Io (Statics c q) ExtractedFile
    extract_fdid_to_path fdid out_path = do
      guard_process (txt "direct CASC extraction")
      extract_fdid_to_path_with_paths c q listfile paths fdid out_path

    -- resolve_bytes, behind the guard's answer
    resolve_if_allowed : Result (Unit {0}) → ℕ → Io (Statics c q) (Option Text)
    resolve_if_allowed (Base.err _) fdid = pure none
    resolve_if_allowed (Base.ok _) fdid = resolve_bytes_with_paths c q listfile paths fdid

    unfoldable pub resolve_bytes : ℕ → Io (Statics c q) (Option Text)
    unfolding resolve_if_allowed
    resolve_bytes fdid = do
      allowed ← attempt (guard_process (txt "raw CASC byte resolution"))
      resolve_if_allowed allowed fdid

    unfoldable pub ensure_file_cached_at_path : ℕ → FilePath → Io (Statics c q) (Option FilePath)
    ensure_file_cached_at_path fdid out_path = ensure_cached c q listfile paths fdid out_path
