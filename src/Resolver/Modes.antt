-- ===== src/Resolver/Modes.antt =====
-- The operations of src/lib.rs and src/casc_resolver.rs in extracted-only mode.
use asset_resolver.Base.{
  ℕ, ◌+◌, ◌%◌, ◌≡◌, refl, ap, ◌∙◌, ◌⊎◌, inl, inr, arith, Text, txt, FilePath, decimal, Option, none,
  some, Bool, true, false, List, [], ◌∷◌, ◌++◌, Result, Result-cases, ◌==◌, if◌then◌else◌,
}
use asset_resolver.Base
use asset_resolver.RuntimeMode.{
  AssetRuntimeMode, local_casc, extracted_only, mode_eq, Process, effective_runtime_mode,
  process_runtime_mode,
}
use asset_resolver.Paths.{ResolverPaths, scoped_cache_path, missing_extracted_asset}
use asset_resolver.World.Fs.{node_is_file}
use asset_resolver.World.Io.{World, Io, Answer, ok, err, panicked, ◌>>=◌, pure, throw, lift, run}
use asset_resolver.World.Chains.{
  attempt-ok, attempt-err, attempt-panicked, >>=-ok, >>=-panicked, >>=-err, run-some, pure_step,
  throw_step, lift_ok_step, lift_err_step, is_file_step,
}
use asset_resolver.Casc.{Cascette}
use asset_resolver.Sqlite.{Sqlite}
use asset_resolver.Resolver.States.{Statics}
use asset_resolver.Resolver.Api.{cache_path, initialize, ensure_cached_checked, ensure_cached}

-- The resolver is configured as extracted-only, or the process has chosen that mode.
abbrev pub IsExtractedOnly : ResolverPaths → Process → Type 0
IsExtractedOnly paths p =
    (paths.runtime_mode ≡ extracted_only) ⊎ (p.process_mode ≡ some extracted_only)

effective-extracted_only :
    (mode : AssetRuntimeMode) (p : Process)
    → (mode ≡ extracted_only) ⊎ (p.process_mode ≡ some extracted_only)
    → effective_runtime_mode mode p ≡ (some extracted_only, p)
unfolding effective_runtime_mode process_runtime_mode
effective-extracted_only local_casc p h = ground arith
effective-extracted_only extracted_only p h = refl

-- What a cached file or its absence answers, with no other step.
abbrev pub answer_cached :
    {T : Type 0} → ResolverPaths → ℕ → World T → Result FilePath → Answer FilePath
answer_cached paths fdid w (Base.err e) = err e
answer_cached paths fdid w (Base.ok expected) =
    if node_is_file (w.fs expected)
    then ok expected
    else err (missing_extracted_asset paths fdid expected)

abbrev pub as_found : Answer FilePath → Answer (Option FilePath)
as_found (ok p) = ok (some p)
as_found (err e) = err e
as_found panicked = panicked

module _ (c : Cascette) (q : Sqlite) where
  -- In extracted-only mode the initialization succeeds and changes nothing.
  initialize-extracted_only :
      (paths : ResolverPaths) (w : World (Statics c q))
      → IsExtractedOnly paths w.process
      → initialize c q paths w ≡ (ok tt, w)
  unfolding initialize
  initialize-extracted_only paths w h =
      >>=-ok _ _ (run-some _ w (effective-extracted_only paths.runtime_mode w.process h))
      ∙ pure_step tt w

  module _ (listfile : ℕ → Option Text) where
    found_or_missing :
        (paths : ResolverPaths) (fdid : ℕ) (expected : FilePath) (w : World (Statics c q))
        (there : Bool) (m : Io (Statics c q) FilePath)
        → IsExtractedOnly paths w.process
        → (if there then pure expected else do
          mode ← run (effective_runtime_mode paths.runtime_mode)
          if mode == extracted_only then throw (missing_extracted_asset paths fdid expected) else m)
            w
          ≡ (if there then ok expected else err (missing_extracted_asset paths fdid expected), w)
    found_or_missing paths fdid expected w true m h = pure_step expected w
    found_or_missing paths fdid expected w false m h =
        >>=-ok _ _ (run-some _ w (effective-extracted_only paths.runtime_mode w.process h))
        ∙ throw_step _ w

    ensure_at-extracted_only :
        (paths : ResolverPaths) (fdid : ℕ) (out : FilePath) (w : World (Statics c q))
        (r : Result FilePath)
        → IsExtractedOnly paths w.process
        → cache_path paths out ≡ r
        → ensure_cached_checked c q listfile paths fdid out w ≡ (answer_cached paths fdid w r, w)
    unfolding ensure_cached_checked
    ensure_at-extracted_only paths fdid out w (Base.err e) h at =
        >>=-err _ _ (ap (λ r. lift r w) at ∙ lift_err_step e w)
    ensure_at-extracted_only paths fdid out w (Base.ok expected) h at =
        >>=-ok _ _ (ap (λ r. lift r w) at ∙ lift_ok_step expected w)
        ∙ >>=-ok _ _ (is_file_step expected w)
        ∙ found_or_missing paths fdid expected w (node_is_file (w.fs expected)) _ h

    -- In extracted-only mode the checked lookup answers with the cached path if a file is there, with
    -- the error that names the missing asset if there is none, and with the error of the path if the
    -- destination is refused; it changes nothing of the world and counts no access.
    pub ensure_cached_checked-extracted_only :
        (paths : ResolverPaths) (fdid : ℕ) (out : FilePath) (w : World (Statics c q))
        → IsExtractedOnly paths w.process
        → ensure_cached_checked c q listfile paths fdid out w
          ≡ (answer_cached paths fdid w (scoped_cache_path paths out), w)
    unfolding cache_path
    ensure_cached_checked-extracted_only paths fdid out w h =
        ensure_at-extracted_only paths fdid out w _ h refl

    legacy_of :
        (paths : ResolverPaths) (fdid : ℕ) (out : FilePath) (w : World (Statics c q))
        (a : Answer FilePath)
        → IsExtractedOnly paths w.process
        → ensure_cached_checked c q listfile paths fdid out w ≡ (a, w)
        → ensure_cached c q listfile paths fdid out w ≡ (as_found a, w)
    unfolding ensure_cached
    legacy_of paths fdid out w (ok found) h checked =
        >>=-ok _ _ (attempt-ok _ checked) ∙ pure_step (some found) w
    legacy_of paths fdid out w (err e) h checked =
        >>=-ok _ _ (attempt-err _ checked)
        ∙ >>=-ok _ _ (run-some _ w (effective-extracted_only paths.runtime_mode w.process h))
        ∙ throw_step e w
    legacy_of paths fdid out w panicked h checked = >>=-panicked _ _ (attempt-panicked _ checked)

    -- In extracted-only mode the legacy lookup answers as the checked one does, and keeps its errors:
    -- a missing file is never reported as an asset that does not exist.
    ensure_cached-extracted_only :
        (paths : ResolverPaths) (fdid : ℕ) (out : FilePath) (w : World (Statics c q))
        → IsExtractedOnly paths w.process
        → ensure_cached c q listfile paths fdid out w
          ≡ (as_found (answer_cached paths fdid w (scoped_cache_path paths out)), w)
    ensure_cached-extracted_only paths fdid out w h =
        legacy_of paths fdid out w _ h (ensure_cached_checked-extracted_only paths fdid out w h)

    -- In any mode a file that is cached at the path of a destination is found with no look at the mode,
    -- and nothing is changed.
    pub ensure_cached_checked-cached :
        (paths : ResolverPaths) (fdid : ℕ) (out expected : FilePath) (w : World (Statics c q))
        → scoped_cache_path paths out ≡ Base.ok expected
        → node_is_file (w.fs expected) ≡ true
        → ensure_cached_checked c q listfile paths fdid out w ≡ (ok expected, w)
    unfolding ensure_cached_checked cache_path
    ensure_cached_checked-cached paths fdid out expected w at there =
        >>=-ok _ _ (ap (λ r. lift r w) at ∙ lift_ok_step expected w)
        ∙ >>=-ok _ _ (is_file_step expected w)
        ∙ rw there (pure_step expected w)
