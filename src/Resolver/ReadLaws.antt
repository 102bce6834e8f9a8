-- ===== src/Resolver/ReadLaws.antt =====
-- src/casc_resolver.rs: what the bytes of an asset are read from, and what an extraction that
-- succeeded has done.
use asset_resolver.Base.{
  ℕ, ◌≡◌, refl, sym, ap, ◌∙◌, inl, inr, Text, FilePath, normal, IsSlashFree, Option, none, some,
  List, [], ◌∷◌, ◌++◌,
}
use asset_resolver.Identity.{AssetIdentity}
use asset_resolver.Paths.{ResolverPaths}
use asset_resolver.World.Fs.{FileSystem, file}
use asset_resolver.World.Io.{World, Io, ok, ◌>>=◌, ◌>>◌, pure, throw, eprintln, io_steps}
use asset_resolver.World.Chains.{>>=-ok}
use asset_resolver.World.Inversion.{>>=-next, >>-next}
use asset_resolver.Casc.{Cascette, MissingKeyChunk}
use asset_resolver.Sqlite.{Sqlite}
use asset_resolver.CascState.{CascState, get_state, ensure_initialized, FileContent}
use asset_resolver.Resolver.Extract.{
  ExtractedFile, read_fdid_bytes, resolved_content, write_to_path,
}
use asset_resolver.Resolver.WriteLaws.{write_to_path-Replaces}
use asset_resolver.Resolver.Requests.{IsRequested, get_casc-IsRequested}
use asset_resolver.Resolver.States.{
  Statics, CascNamespace, get_casc, on_casc, refuse_partial, extract_fdid_to_path_with_paths,
}

module _ (c : Cascette) (q : Sqlite) where
  get_state_step : {T : Type 0} (w : World (CascState c × T)) → get_state c w ≡ (ok w.statics.0, w)
  unfolding get_state
  get_state_step w = refl

  resolved_content-listfile :
      {T : Type 0} (before after : ℕ → Option Text) (fdid : ℕ) (i : AssetIdentity)
      (identity : Option AssetIdentity) (found : Option (Text × Text)) (w : World (CascState c × T))
      → identity ≡ some i
      → resolved_content c before fdid identity found w
        ≡ resolved_content c after fdid identity found w
  unfolding resolved_content
  resolved_content-listfile before after fdid i identity (some (_, key)) w h = refl
  resolved_content-listfile before after fdid i none none w h = absurd (cc h)
  resolved_content-listfile before after fdid i (some j) none w h = refl

  same_start :
      {T A B : Type 0} (m n : Io T A) (f : A → Io T B) (w : World T)
      → m w ≡ n w
      → (m >>= f) w ≡ (n >>= f) w
  unfolding io_steps
  same_start m n f w h = ap (λ r. ◌>>=◌ (λ _. r) f w) h

  -- For a state that knows its build the bytes, the errors and the effects are the same whatever the
  -- listfile says.
  pub read_fdid_bytes-listfile :
      {T : Type 0} (before after : ℕ → Option Text) (fdid : ℕ) (i : AssetIdentity)
      (w : World (CascState c × T))
      → CascState.identity w.statics.0 ≡ some i
      → read_fdid_bytes c before q fdid w ≡ read_fdid_bytes c after q fdid w
  unfolding read_fdid_bytes
  read_fdid_bytes-listfile before after fdid i w h =
      >>=-ok _ _ (get_state_step w)
      ∙ same_start _ _ _ w (resolved_content-listfile before after fdid i _ _ w h)
      ∙ sym (>>=-ok _ _ (get_state_step w))

  module _ (listfile : ℕ → Option Text) where
    refuse_partial-eq-ok :
        {T : Type 0} (paths : ResolverPaths) (i : AssetIdentity) (fdid : ℕ)
        (keys : List MissingKeyChunk) (w : World T)
        → paths.identity ≡ some i
        → (refuse_partial c q listfile paths fdid keys w).0 ≡ ok tt
        → (keys ≡ []) × ((refuse_partial c q listfile paths fdid keys w).1 ≡ w)
    unfolding refuse_partial pure throw
    refuse_partial-eq-ok paths i fdid [] w h good = (refl, refl)
    refuse_partial-eq-ok paths i fdid (k ∷ ks) w h good = absurd (cc (h, good))

    logged :
        {T A : Type 0} (line : Text) (a : A) (w : World T)
        → (eprintln line >> pure a) w ≡ (ok a, record w { log = w.log ++ (line ∷ []) })
    unfolding io_steps
    logged line a w = refl

    pub written :
        {T A : Type 0} (dir : FilePath) (name content line : Text) (a b : A) (w : World T)
        → IsSlashFree name
        → let out = dir ++ (normal name ∷ []) in
          ((write_to_path out content >> (eprintln line >> pure a)) w).0 ≡ ok b
          → (a ≡ b)
            × (((write_to_path out content >> (eprintln line >> pure a)) w).1.fs out
                ≡ file content w.now)
    written dir name content line a b w slash good =
        let out = dir ++ (normal name ∷ []) in
        let (wrote, rest, same) =
          >>-next (write_to_path out content) (eprintln line >> pure a) w b good in
        let w1 = (write_to_path out content w).1 in
        let tail = same ∙ logged line a w1 in
        (
          cc tail,
          ap (λ r. r.1.fs out) tail ∙ elim (write_to_path-Replaces dir name content w slash) [
            | inl (_, there) ↦ there
            | inr (e, bad, _) ↦ absurd (cc (bad, wrote))
          ],
        )

    -- A file that has exactly the bytes that the state which a request is for answers for an FDID, once
    -- it is opened and initialized, with no chunk left empty. The state's namespace is that of the
    -- build which the request reads from the installation.
    pub record IsExtracted (paths : ResolverPaths) (fdid : ℕ) (w : World (Statics c q))
        (fs : FileSystem) (out : FilePath) : Type 0 where
      pub state : CascNamespace
      pub found : FileContent
      pub changed : ℕ
      pub is_open : (get_casc c q paths w).0 ≡ ok state
      pub is_requested : IsRequested c q paths w.fs state
      pub is_read :
          (on_casc c q state
            (read_fdid_bytes c listfile q fdid)
            (on_casc c q state (ensure_initialized c) (get_casc c q paths w).1).1).0
          ≡ ok found
      pub is_complete : FileContent.missing_keys found ≡ []
      pub is_there : fs out ≡ file (FileContent.content found) changed

    -- An extraction for a configured build that succeeds has no chunk that a missing key left empty,
    -- answers with the destination, and leaves there exactly the bytes that the state of the requested
    -- build answered for the FDID.
    pub extract_fdid_to_path_with_paths-eq-ok :
        (paths : ResolverPaths) (i : AssetIdentity) (fdid : ℕ) (dir : FilePath) (name : Text)
        (w : World (Statics c q)) (r : ExtractedFile)
        → paths.identity ≡ some i
        → IsSlashFree name
        → let out = dir ++ (normal name ∷ []) in
          let (answer, w') = extract_fdid_to_path_with_paths c q listfile paths fdid out w in
          answer ≡ ok r
          → (ExtractedFile.path r ≡ out)
            × (ExtractedFile.missing_keys r ≡ [])
            × IsExtracted paths fdid w w'.fs out
    unfolding extract_fdid_to_path_with_paths
    extract_fdid_to_path_with_paths-eq-ok paths i fdid dir name w r h slash good =
        let out = dir ++ (normal name ∷ []) in
        let (ns, opened, good1, same1) = >>=-next _ _ w r good in
        let (_, good2, same2) = >>-next _ _ _ r good1 in
        let (found, is_read, good3, same3) = >>=-next _ _ _ r good2 in
        let (passed, good4, same4) = >>-next _ _ _ r good3 in
        let (none_missing, _) = refuse_partial-eq-ok paths i fdid _ _ h passed in
        let (equal, there) = written dir name _ _ _ r _ slash good4 in
        (
          ap ExtractedFile.path (sym equal),
          ap ExtractedFile.missing_keys (sym equal) ∙ none_missing,
          record {
            state = ns;
            found = found;
            changed = _;
            is_open = opened;
            is_requested = get_casc-IsRequested c q paths w ns opened;
            is_read = is_read;
            is_complete = none_missing;
            is_there = ap (λ a. a.1.fs out) (same1 ∙ same2 ∙ same3 ∙ same4) ∙ there;
          },
        )
