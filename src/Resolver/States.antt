-- ===== src/Resolver/States.antt =====
-- src/casc_resolver.rs: the states of the installed builds, kept by cache root and build, and
-- extraction from them.
use asset_resolver.Base.{
  ℕ, ◌≡◌, ◌↔◌, arith, Text, txt, FilePath, path, join, strip_prefix, display, decimal, Option, none,
  some, Bool, true, false, ◌&&◌, not, List, [], ◌∷◌, ◌++◌, Result, ok_or, if◌then◌else◌, Eq, ◌==◌,
  list_eq, nat_eq, component_eq, same_list_iff, component_eqb_iff,
}
use asset_resolver.Base
use asset_resolver.Base.Assoc.{Assoc, lookup, insert}
use asset_resolver.Identity.{
  AssetIdentity, new, identity_eq, identity_eqb_iff, asset_root, asset_path,
}
use asset_resolver.RuntimeMode.{extracted_only, effective_runtime_mode, guard_casc_access, mode_eq}
use asset_resolver.Paths.{
  ResolverPaths, casc_cache_path, scoped_cache_path, missing_extracted_asset,
}
use asset_resolver.World.Io.{
  World, Io, ◌>>=◌, ◌>>◌, pure, throw, lift, attempt, map_err, gets, run, eprintln, exists, is_file,
  with_statics, Answer, ok, err, panicked,
}
use asset_resolver.Install.{wow_install_path}
use asset_resolver.Casc.{Cascette, MissingKeyChunk}
use asset_resolver.Sqlite.{Sqlite}
use asset_resolver.Build.{ActiveBuild, read_requested_build, load_tact_keys}
use asset_resolver.CascState.{
  CascState, Method, InitState, LocalAccessState, FileContent, ensure_initialized,
  ensure_local_access,
}
use asset_resolver.CascCache.{open_cache}
use asset_resolver.Resolver.Extract.{
  ExtractedFile, write_to_path, read_fdid_bytes, describe_missing_keys,
}
use asset_resolver.Resolver.Refresh.{ensure_resolution_cache}

-- CascNamespace
abbrev pub CascNamespace : Type 0
CascNamespace = FilePath × AssetIdentity

abbrev pub namespace_eqb : CascNamespace → CascNamespace → Bool
namespace_eqb (p, i) (q, j) = p == q && i == j

pub namespace_eqb_iff : (a b : CascNamespace) → (namespace_eqb a b ≡ true) ↔ (a ≡ b)
namespace_eqb_iff (p, i) (q, j) = ground (arith, same_list_iff p q, identity_eqb_iff i j)

instance abbrev pub namespace_eq : Eq CascNamespace
namespace_eq = record { equals = namespace_eqb; equals_iff = namespace_eqb_iff }

module _ (c : Cascette) (q : Sqlite) where
  -- The static CASC: a cell holds the outcome of its one initialization.
  abbrev pub Statics : Type 0
  Statics = Assoc CascNamespace (Result (CascState c))

  unfoldable pub init_state :
      AssetIdentity → Cascette.Installation c → Cascette.Keys c → Text → CascState c
  init_state identity install keys cache = record {
    identity = some identity;
    install = install;
    keys = keys;
    cache = cache;
    init = InitState.uninitialized;
    local_access = LocalAccessState.uninitialized;
  }

  unfoldable pub init_casc : {T : Type 0} → ResolverPaths → Io T (CascState c)
  unfolding init_state
  init_casc paths = do
    found ← wow_install_path
    install_root ← lift (
        ok_or
          (txt
            "WoW install not found (set WOW_INSTALL_PATH or WOW_DATA_PATH, or place install at one of the default locations)")
          found)
    let data_root = join install_root (path (txt "Data"))
    there ← exists data_root
    if not there then throw (txt "WoW data not found at " ++ display data_root) else do
      fs ← gets (λ w. w.fs)
      install ←
          map_err (λ e. txt "CASC open: " ++ e) (lift (Cascette.open_installation c fs data_root))
      active_build ← read_requested_build c paths install_root
      keys ← load_tact_keys c paths install_root active_build
      let casc_dir =
          casc_cache_path paths (ActiveBuild.product active_build)
            (ActiveBuild.build_key active_build)
      ready ← ensure_resolution_cache c q paths install_root install casc_dir active_build
      cache ← open_cache c q casc_dir
      eprintln (
          txt "CASC resolver initialized from "
          ++ (display data_root
              ++ (txt " using "
                  ++ (ActiveBuild.product active_build ++ (txt " cache " ++ display casc_dir)))))
      identity ← lift (new (ActiveBuild.product active_build) (ActiveBuild.build_key active_build))
      pure (init_state identity ready keys cache)

  unfoldable pub remember_state : CascNamespace → Result (CascState c) → Io Statics (Unit {0})
  remember_state ns result w = (ok tt, record w { statics = insert ns result w.statics })

  -- `cell.get_or_init(..).clone()`, where the cell is known by its namespace
  unfoldable pub get_cell :
      ResolverPaths → CascNamespace → Option (Result (CascState c)) → Io Statics CascNamespace
  get_cell paths ns (some (Base.ok _)) = pure ns
  get_cell paths ns (some (Base.err e)) = throw e
  get_cell paths ns none = do
    result ← attempt (init_casc paths)
    remember_state ns result
    elim result [ Base.ok _ ↦ pure ns | Base.err e ↦ throw e ]

  unfoldable pub get_casc : ResolverPaths → Io Statics CascNamespace
  unfolding get_cell remember_state
  get_casc paths = do
    mode ← run (effective_runtime_mode paths.runtime_mode)
    allowed ← run (guard_casc_access mode (txt "open CASC state"))
    lift allowed
    found ← wow_install_path
    install_root ← lift (ok_or (txt "WoW install not found") found)
    active ← read_requested_build c paths install_root
    identity ← lift (new (ActiveBuild.product active) (ActiveBuild.build_key active))
    let ns : CascNamespace = (paths.cache_root, identity)
    states ← gets (λ w. w.statics)
    get_cell paths ns (lookup ns states)

  -- The world and the states behind a method's run.
  unfoldable pub back :
      {A : Type 0}
      → CascNamespace
      → Answer A × World (CascState c × Statics)
      → Answer A × World Statics
  back ns (a, w) = (a, with_statics w (insert ns (Base.ok w.statics.0) w.statics.1))

  unfoldable pub run_method :
      {A : Type 0}
      → CascNamespace
      → Option (Result (CascState c))
      → Method c Statics A
      → Io Statics A
  run_method ns (some (Base.ok s)) m w = back ns (m (with_statics w (s, w.statics)))
  run_method ns (some (Base.err e)) m w = (err e, w)
  run_method ns none m w = (panicked, w)

  -- A method on the state that a namespace has; `get_casc` has made sure that there is one.
  unfoldable pub on_casc : {A : Type 0} → CascNamespace → Method c Statics A → Io Statics A
  unfolding run_method back
  on_casc ns m w = run_method ns (lookup ns w.statics) m w

  -- initialize_with_paths
  unfoldable pub warm_local_access : CascNamespace → Io Statics (Unit {0})
  warm_local_access ns = do
    warmed ← attempt (on_casc ns (ensure_local_access c))
    elim warmed [
      | Base.ok _ ↦ pure tt
      | Base.err e ↦ eprintln (txt "CASC key-aware archive access unavailable: " ++ e)
    ]

  unfoldable pub initialize_with_paths : ResolverPaths → Io Statics (Unit {0})
  unfolding warm_local_access
  initialize_with_paths paths = do
    mode ← run (effective_runtime_mode paths.runtime_mode)
    if mode == extracted_only
        then pure tt
        else do ns ← get_casc paths; on_casc ns (ensure_initialized c); warm_local_access ns

  module _ (listfile : ℕ → Option Text) where
    unfoldable pub refuse_partial :
        {T : Type 0} → ResolverPaths → ℕ → List MissingKeyChunk → Io T (Unit {0})
    refuse_partial paths fdid [] = pure tt
    refuse_partial paths fdid (k ∷ ks) = elim paths.identity [
      | none ↦ pure tt
      | some _ ↦ throw (
          txt "FDID "
          ++ (decimal fdid
              ++ (txt " has undecodable encrypted chunks: " ++ describe_missing_keys (k ∷ ks))))
    ]

    unfoldable pub extract_fdid_to_path_with_paths :
        ResolverPaths → ℕ → FilePath → Io Statics ExtractedFile
    extract_fdid_to_path_with_paths paths fdid out_path = do
      ns ← get_casc paths
      on_casc ns (ensure_initialized c)
      found ← on_casc ns (read_fdid_bytes c listfile q fdid)
      refuse_partial paths fdid (FileContent.missing_keys found)
      write_to_path out_path (FileContent.content found)
      eprintln (txt "CASC: extracted FDID " ++ (decimal fdid ++ (txt " -> " ++ display out_path)))
      pure (record { path = out_path; missing_keys = FileContent.missing_keys found })

    unfoldable pub no_bytes : {T : Type 0} → ℕ → Text → Io T (Option Text)
    no_bytes fdid e = do
      eprintln (txt "asset-cache byte resolve failed: fdid " ++ (decimal fdid ++ (txt ": " ++ e)))
      pure none

    unfoldable pub resolve_bytes_with_paths : ResolverPaths → ℕ → Io Statics (Option Text)
    unfolding no_bytes
    resolve_bytes_with_paths paths fdid = do
      bytes ← attempt (do
        ns ← get_casc paths
        on_casc ns (ensure_initialized c)
        on_casc ns (read_fdid_bytes c listfile q fdid))
      elim bytes [
        | Base.ok found ↦ pure (some (FileContent.content found))
        | Base.err e ↦ no_bytes fdid e
      ]

    unfoldable pub published_relative :
        {T : Type 0} → ResolverPaths → AssetIdentity → FilePath → Io T FilePath
    published_relative paths published published_path = lift (
        ok_or (txt "published asset path " ++ (display published_path ++ txt ": prefix not found"))
          (strip_prefix published_path (asset_root published paths.shared_data_root)))

    unfoldable pub read_current_asset_path : ResolverPaths → FilePath → Io Statics FilePath
    unfolding published_relative
    read_current_asset_path paths published_path = elim paths.identity [
      | none ↦ pure published_path
      | some published ↦ do
        found ← wow_install_path
        install_root ← lift (ok_or (txt "WoW install not found") found)
        active ← read_requested_build c paths install_root
        current ← lift (new (ActiveBuild.product active) (ActiveBuild.build_key active))
        relative ← published_relative paths published published_path
        pure (asset_path current paths.shared_data_root relative)
    ]

    -- The part behind the early answers of `ensure_file_cached_checked_with_paths`.
    unfoldable pub extract_current : ResolverPaths → ℕ → FilePath → Io Statics FilePath
    extract_current paths fdid shared_path = do
      eprintln (
          txt "asset-cache miss: fdid "
          ++ (decimal fdid
              ++ (txt " not cached at "
                  ++ (display shared_path ++ txt ", extracting from local CASC"))))
      extracted ←
          map_err
            (λ e.
              txt "FDID "
              ++ (decimal fdid ++ (txt " at " ++ (display shared_path ++ (txt ": " ++ e)))))
            (extract_fdid_to_path_with_paths paths fdid shared_path)
      pure (ExtractedFile.path extracted)

    unfoldable pub ensure_file_cached_checked_with_paths :
        ResolverPaths → ℕ → FilePath → Io Statics FilePath
    unfolding extract_current
    ensure_file_cached_checked_with_paths paths fdid out_path = do
      shared_path ← lift (scoped_cache_path paths out_path)
      cached ← is_file shared_path
      if cached then pure shared_path else do
        mode ← run (effective_runtime_mode paths.runtime_mode)
        if mode == extracted_only
            then throw (missing_extracted_asset paths fdid shared_path)
            else do
              current_path ← read_current_asset_path paths shared_path
              current_cached ← is_file current_path
              if current_cached then pure current_path else extract_current paths fdid current_path
