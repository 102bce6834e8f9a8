-- ===== src/Resolver/Shared.antt =====
-- src/lib.rs, src/casc_resolver.rs: what one lookup has found or made, every later one finds.
use asset_resolver.Base.{
  ℕ, ◌≡◌, refl, sym, ap, ◌∙◌, Text, FilePath, normal, IsSlashFree, Option, none, some, Result, Bool,
  true, false, List, [], ◌∷◌, ◌++◌, if◌then◌else◌, ◌==◌,
}
use asset_resolver.Base
use asset_resolver.RuntimeMode.{extracted_only, mode_eq}
use asset_resolver.Paths.{ResolverPaths, scoped_cache_path}
use asset_resolver.World.Fs.{node_is_file}
use asset_resolver.World.Io.{World, ok}
use asset_resolver.World.Chains.{pure_step}
use asset_resolver.World.Ensures.{
  Ensures, next-Ensures, later-Ensures, bind-Ensures, map_err-Ensures, if-Ensures, throw-Ensures,
  is_file-Ensures,
}
use asset_resolver.World.Inversion.{>>=-next, >>-next, pure-eq-ok}
use asset_resolver.Casc.{Cascette}
use asset_resolver.Sqlite.{Sqlite}
use asset_resolver.CascCache.Lock.{child}
use asset_resolver.Resolver.Extract.{ExtractedFile}
use asset_resolver.Resolver.ReadLaws.{written}
use asset_resolver.Resolver.States.{
  Statics, extract_fdid_to_path_with_paths, extract_current, ensure_file_cached_checked_with_paths,
}
use asset_resolver.Resolver.Api.{ensure_cached_checked}
use asset_resolver.Resolver.Modes.{ensure_cached_checked-cached}

-- A file is there.
abbrev Found : {T : Type 0} → FilePath → World T → Type 0
Found p w = node_is_file (w.fs p) ≡ true

module _ (c : Cascette) (q : Sqlite) (listfile : ℕ → Option Text) (dir : FilePath) (name : Text)
    (slash : IsSlashFree name) where
  abbrev out : FilePath
  out = child dir name

  extract-Found :
      (paths : ResolverPaths) (fdid : ℕ) (w : World (Statics c q)) (r : ExtractedFile)
      → (extract_fdid_to_path_with_paths c q listfile paths fdid out w).0 ≡ ok r
      → (ExtractedFile.path r ≡ out)
        × Found out (extract_fdid_to_path_with_paths c q listfile paths fdid out w).1
  unfolding extract_fdid_to_path_with_paths
  extract-Found paths fdid w r good =
      let (ns, _, good1, same1) = >>=-next _ _ w r good in
      let (_, good2, same2) = >>-next _ _ _ r good1 in
      let (found, _, good3, same3) = >>=-next _ _ _ r good2 in
      let (_, good4, same4) = >>-next _ _ _ r good3 in
      let (equal, there) = written c q listfile dir name _ _ _ r _ slash good4 in
      (
        ap ExtractedFile.path (sym equal),
        ap node_is_file (ap (λ a. a.1.fs out) (same1 ∙ same2 ∙ same3 ∙ same4) ∙ there),
      )

  extract-path :
      (paths : ResolverPaths) (fdid : ℕ) (at : FilePath) (w : World (Statics c q))
      (r : ExtractedFile)
      → (extract_fdid_to_path_with_paths c q listfile paths fdid at w).0 ≡ ok r
      → ExtractedFile.path r ≡ at
  unfolding extract_fdid_to_path_with_paths
  extract-path paths fdid at w r good =
      let (ns, _, good1, _) = >>=-next _ _ w r good in
      let (_, good2, _) = >>-next _ _ _ r good1 in
      let (found, _, good3, _) = >>=-next _ _ _ r good2 in
      let (_, good4, _) = >>-next _ _ _ r good3 in
      let (_, good5, _) = >>-next _ _ _ r good4 in
      let (_, good6, _) = >>-next _ _ _ r good5 in
      ap ExtractedFile.path (sym (pure-eq-ok _ r _ good6))

  -- If the answer is the expected path, a file is there.
  abbrev Expected : FilePath → World (Statics c q) → Type 0
  Expected p w = p ≡ out → Found p w

  extract-Ensures :
      (paths : ResolverPaths) (fdid : ℕ) (at : FilePath)
      → Ensures
          (extract_fdid_to_path_with_paths c q listfile paths fdid at)
          (λ r w. Expected (ExtractedFile.path r) w)
  extract-Ensures paths fdid at = record {
    at = λ w r good is.
        let here : at ≡ out = sym (extract-path paths fdid at w r good) ∙ is in
        let same : extract_fdid_to_path_with_paths c q listfile paths fdid at w
            ≡ extract_fdid_to_path_with_paths c q listfile paths fdid out w =
          ap (λ p. extract_fdid_to_path_with_paths c q listfile paths fdid p w) here in
        let (_, there) = extract-Found paths fdid w r (ap (λ a. a.0) (sym same) ∙ good) in
        rw (same, is) there;
  }

  extract_current-Ensures :
      (paths : ResolverPaths) (fdid : ℕ) (at : FilePath)
      → Ensures (extract_current c q listfile paths fdid at) Expected
  unfolding extract_current
  extract_current-Ensures paths fdid at = next-Ensures _ (
      bind-Ensures _ (map_err-Ensures _ (extract-Ensures paths fdid at)) (λ r w p there good.
        rw (pure_step (ExtractedFile.path r) w) (rw (← pure-eq-ok _ p w good) there)))

  current-Ensures :
      (paths : ResolverPaths) (fdid : ℕ) (at : FilePath)
      → Ensures (ensure_file_cached_checked_with_paths c q listfile paths fdid at) Expected
  unfolding ensure_file_cached_checked_with_paths extract_current
  current-Ensures paths fdid at = later-Ensures _ (λ shared.
      is_file-Ensures shared shared (λ w there _. there)
        (later-Ensures _ (λ mode. if-Ensures (mode == extracted_only) (throw-Ensures _) (
          later-Ensures _ (λ current.
            is_file-Ensures current current (λ w there _. there)
              (extract_current-Ensures paths fdid current))))))

  ensure_cached_checked-Ensures :
      (paths : ResolverPaths) (fdid : ℕ) (destination : FilePath)
      → Ensures (ensure_cached_checked c q listfile paths fdid destination) Expected
  unfolding ensure_cached_checked
  ensure_cached_checked-Ensures paths fdid destination = later-Ensures _ (λ expected.
      is_file-Ensures expected expected (λ w there _. there)
        (later-Ensures _ (λ mode.
          if-Ensures (mode == extracted_only) (throw-Ensures _)
            (current-Ensures paths fdid destination))))

  -- What a checked lookup has answered, every later one finds: a lookup for any FDID, by any process and
  -- in any mode, extracted-only included, whose destination is cached at that path answers with it and
  -- changes nothing, as long as the files are those that the first one left. The last component of the path
  -- is a plain name.
  pub ensure_cached_checked-shared :
      (paths later : ResolverPaths) (fdid fdid' : ℕ) (destination destination' : FilePath)
      (w w' : World (Statics c q))
      → (ensure_cached_checked c q listfile paths fdid destination w).0 ≡ ok out
      → w'.fs ≡ (ensure_cached_checked c q listfile paths fdid destination w).1.fs
      → scoped_cache_path later destination' ≡ Base.ok out
      → ensure_cached_checked c q listfile later fdid' destination' w' ≡ (ok out, w')
  ensure_cached_checked-shared paths later fdid fdid' destination destination' w w' found files at =
      ensure_cached_checked-cached c q listfile later fdid' destination' out w' at (
        ap (λ fs. node_is_file (fs out)) files
        ∙ (ensure_cached_checked-Ensures paths fdid destination).at w out found refl)
