-- ===== src/Resolver/Api.antt =====
-- src/lib.rs: `CascListfileResolver`, built with the `casc` feature.
use asset_resolver.Base.{
  ℕ, Text, txt, FilePath, decimal, Option, none, some, Bool, true, false, List, [], ◌∷◌, ◌++◌,
  Result, if◌then◌else◌, ◌==◌,
}
use asset_resolver.Base
use asset_resolver.RuntimeMode.{extracted_only, effective_runtime_mode, guard_casc_access, mode_eq}
use asset_resolver.Paths.{ResolverPaths, scoped_cache_path, missing_extracted_asset}
use asset_resolver.World.Io.{
  Io, ◌>>=◌, ◌>>◌, pure, throw, lift, attempt, run, eprintln, is_file, panicked,
}
use asset_resolver.Casc.{Cascette}
use asset_resolver.Sqlite.{Sqlite}
use asset_resolver.Resolver.States.{
  Statics, initialize_with_paths, resolve_bytes_with_paths, ensure_file_cached_checked_with_paths,
}

-- CascListfileResolver::cache_path
unfoldable pub cache_path : ResolverPaths → FilePath → Result FilePath
cache_path paths destination = scoped_cache_path paths destination

module _ (c : Cascette) (q : Sqlite) where
  -- CascListfileResolver::initialize
  unfoldable pub initialize : ResolverPaths → Io (Statics c q) (Unit {0})
  initialize paths = do
    mode ← run (effective_runtime_mode paths.runtime_mode)
    if mode == extracted_only then pure tt else initialize_with_paths c q paths

  module _ (listfile : ℕ → Option Text) where
    -- `expect` on the guard's answer
    unfoldable pub expect_allowed : {T : Type 0} → Result (Unit {0}) → Io T (Unit {0})
    expect_allowed (Base.ok _) = pure tt
    expect_allowed (Base.err _) = λ w. (panicked, w)

    -- CascListfileResolver::resolve_bytes
    unfoldable pub resolve_bytes : ResolverPaths → ℕ → Io (Statics c q) (Option Text)
    unfolding expect_allowed
    resolve_bytes paths fdid = do
      mode ← run (effective_runtime_mode paths.runtime_mode)
      if mode == extracted_only
          then (do
            allowed ← run (guard_casc_access mode (txt "resolve_bytes FDID " ++ decimal fdid))
            expect_allowed allowed
            resolve_bytes_with_paths c q listfile paths fdid)
          else resolve_bytes_with_paths c q listfile paths fdid

    -- CascListfileResolver::ensure_cached_checked
    unfoldable pub ensure_cached_checked : ResolverPaths → ℕ → FilePath → Io (Statics c q) FilePath
    ensure_cached_checked paths fdid out_path = do
      expected ← lift (cache_path paths out_path)
      cached ← is_file expected
      if cached then pure expected else do
        mode ← run (effective_runtime_mode paths.runtime_mode)
        if mode == extracted_only
            then throw (missing_extracted_asset paths fdid expected)
            else ensure_file_cached_checked_with_paths c q listfile paths fdid out_path

    unfoldable pub legacy_error : ResolverPaths → Text → Io (Statics c q) (Option FilePath)
    legacy_error paths e = do
      mode ← run (effective_runtime_mode paths.runtime_mode)
      if mode == extracted_only
          then throw e
          else do eprintln (txt "asset-cache extraction failed: " ++ e); pure none

    -- CascListfileResolver::ensure_cached
    unfoldable pub ensure_cached : ResolverPaths → ℕ → FilePath → Io (Statics c q) (Option FilePath)
    unfolding legacy_error
    ensure_cached paths fdid out_path = do
      answer ← attempt (ensure_cached_checked paths fdid out_path)
      elim answer [ Base.ok found ↦ pure (some found) | Base.err e ↦ legacy_error paths e ]
