-- ===== src/CascState/Keeps.antt =====
-- src/casc_resolver.rs: what the methods of an open state do to its identity.
use asset_resolver.Base.{
  ◌≡◌, refl, ap, ◌∙◌, ℕ, Text, txt, FilePath, Option, none, some, Result, List, [], ◌∷◌, ◌++◌,
}
use asset_resolver.Base
use asset_resolver.Identity.{AssetIdentity}
use asset_resolver.World.Io.{World, ok, gets, pure, throw, attempt, map_err, ◌>>=◌, ◌>>◌}
use asset_resolver.World.Laws.{IsReader}
use asset_resolver.World.Files.{
  Preserves, pure-Preserves, throw-Preserves, bind-Preserves, lift-Preserves, gets-Preserves,
  map_err-Preserves, attempt-Preserves,
}
use asset_resolver.World.Ensures.{Guards, Leads, bind-Guards, then-Guards, keep-Guards, keep-Leads}
use asset_resolver.World.Statics.{reader-Holds}
use asset_resolver.Install.{wow_install_path}
use asset_resolver.Install.Foreign.{wow_install_path-Holds}
use asset_resolver.CascState.Laws.{open_local_access-IsReader, read_local_blte-IsReader}
use asset_resolver.Casc.{Cascette}
use asset_resolver.CascState.{
  CascState, InitState, LocalAccessState, LocalArchiveAccess, Method, FileContent, get_state,
  put_state, ensure_initialized, open_local_access, archive_dir, first_local_access,
  ensure_local_access, read_file_by_encoding_key_with_keys, read_file_by_encoding_key,
  read_file_by_path,
}

-- A state of a build, and a property of the other statics
abbrev pub IsOf :
    (c : Cascette) {T : Type 0} → Option AssetIdentity → (T → Type 0) → CascState c × T → Type 0
IsOf c i Q statics = (CascState.identity statics.0 ≡ i) × Q statics.1

same : {A : Type 0} {a b : A} → ok a ≡ ok b → b ≡ a
same h = cc h

module _ (c : Cascette) {T : Type 0} (i : Option AssetIdentity) (Q : T → Type 0) where
  abbrev Kept : World (CascState c × T) → Type 0
  Kept w = IsOf c i Q w.statics

  -- The same, of a world and a state of it that is at hand
  abbrev AtHand : CascState c → World (CascState c × T) → Type 0
  AtHand s w = Kept w × (CascState.identity s ≡ i)

  pub get_state-Preserves : Preserves Kept (get_state c)
  unfolding get_state
  get_state-Preserves = record { at = λ w h. h }

  get_state-Leads : Leads Kept (get_state c) AtHand
  unfolding get_state
  get_state-Leads = record {
    at = λ w s h good. (h, ap (λ x. CascState.identity x) (same good) ∙ h.0);
  }

  put_state-Guards :
      (s s' : CascState c)
      → CascState.identity s' ≡ CascState.identity s
      → Guards (AtHand s) (put_state c s') Kept
  unfolding put_state
  put_state-Guards s s' same = record { at = λ w (h, of_build). (same ∙ of_build, h.1) }

  guarded : {A : Type 0} {m : Method c T A} → Guards Kept m Kept → Preserves Kept m
  guarded h = record { at = h.at }

  -- A method that begins with a look at the state
  starts :
      {A : Type 0} {f : CascState c → Method c T A}
      → ((s : CascState c) → Guards (AtHand s) (f s) Kept)
      → Guards Kept (get_state c >>= f) Kept
  starts h = bind-Guards _ (keep-Guards (λ w h. h) get_state-Preserves) get_state-Leads h

  known : (s : CascState c) (w : World (CascState c × T)) → AtHand s w → Kept w
  known s w h = h.0

  initialized_by :
      (s : CascState c) (result : Result (Unit {0})) (install : Cascette.Installation c)
      → Guards
          (AtHand s)
          (let step : Method c T (Unit {0}) = elim result [
            | Base.ok _ ↦ put_state c (record s { install = install; init = InitState.initialized })
            | Base.err e ↦ do
              let error = txt "CASC init: " ++ e
              put_state c (record s { install = install; init = InitState.failed error })
              throw error
          ] in
            step)
          Kept
  initialized_by s (Base.ok _) install = put_state-Guards s _ refl
  initialized_by s (Base.err e) install =
      then-Guards _ (put_state-Guards s _ refl) (keep-Guards (λ w h. h) (throw-Preserves _))

  initialized_from :
      (s : CascState c) (init : InitState)
      → Guards
          (AtHand s)
          (let step : Method c T (Unit {0}) = elim init [
            | InitState.initialized ↦ pure tt
            | InitState.failed e ↦ throw e
            | InitState.uninitialized ↦ do
              fs ← gets (λ w. w.fs)
              let (result, install) = Cascette.initialize c fs (CascState.install s)
              elim result [
                | Base.ok _ ↦
                    put_state c (record s { install = install; init = InitState.initialized })
                | Base.err e ↦ do
                  let error = txt "CASC init: " ++ e
                  put_state c (record s { install = install; init = InitState.failed error })
                  throw error
              ]
          ] in
            step)
          Kept
  initialized_from s InitState.initialized = keep-Guards (known s) (pure-Preserves tt)
  initialized_from s (InitState.failed e) = keep-Guards (known s) (throw-Preserves e)
  initialized_from s InitState.uninitialized =
      bind-Guards _ (keep-Guards (known s) (gets-Preserves _)) (keep-Leads (gets-Preserves _))
        (λ fs. initialized_by s _ _)

  pub ensure_initialized-Kept : Preserves Kept (ensure_initialized c)
  unfolding ensure_initialized
  ensure_initialized-Kept = guarded (starts (λ s. initialized_from s (CascState.init s)))

  root-Kept : Preserves {T = CascState c × T} Kept wow_install_path
  root-Kept = record { at = (wow_install_path-Holds (IsOf c i Q)).at }

  pub reader-Kept : {A : Type 0} {m : Method c T A} → IsReader m → Preserves Kept m
  reader-Kept h = record { at = (reader-Holds {P = IsOf c i Q} h).at }

  -- A step that leaves the state, behind which the state is still at hand
  aside :
      {A B : Type 0} (s : CascState c) {m : Method c T A} {f : A → Method c T B}
      → Preserves Kept m
      → ((a : A) → Guards (AtHand s) (f a) Kept)
      → Guards (AtHand s) (m >>= f) Kept
  aside s h k =
      bind-Guards _ (keep-Guards (known s) h)
        (record { at = λ w a (kept, of_build) good. (h.at w kept, of_build) }) k

  accessed_by :
      (s : CascState c) (result : Result (LocalArchiveAccess c))
      → Guards
          (AtHand s)
          (let step : Method c T (LocalArchiveAccess c) = elim result [
            | Base.ok access ↦ do
              put_state c (record s { local_access = LocalAccessState.initialized access })
              pure access
            | Base.err e ↦ do
              put_state c (record s { local_access = LocalAccessState.failed e })
              throw e
          ] in
            step)
          Kept
  accessed_by s (Base.ok access) =
      then-Guards _ (put_state-Guards s _ refl) (keep-Guards (λ w h. h) (pure-Preserves access))
  accessed_by s (Base.err e) =
      then-Guards _ (put_state-Guards s _ refl) (keep-Guards (λ w h. h) (throw-Preserves e))

  first_at :
      (s : CascState c) (root : Option FilePath)
      → Guards
          (AtHand s)
          (let step : Method c T (LocalArchiveAccess c) = elim root [
            | none ↦ throw (txt "WoW install not found for local archive access")
            | some r ↦ do
              init_result ← attempt (open_local_access c (archive_dir c r))
              elim init_result [
                | Base.ok access ↦ do
                  put_state c (record s { local_access = LocalAccessState.initialized access })
                  pure access
                | Base.err e ↦ do
                  put_state c (record s { local_access = LocalAccessState.failed e })
                  throw e
              ]
          ] in
            step)
          Kept
  first_at s none = keep-Guards (known s) (throw-Preserves _)
  first_at s (some r) =
      aside s (attempt-Preserves (reader-Kept (open_local_access-IsReader c _))) (accessed_by s)

  accessed_from :
      (s : CascState c) (access : LocalAccessState c)
      → Guards
          (AtHand s)
          (let step : Method c T (LocalArchiveAccess c) = elim access [
            | LocalAccessState.initialized access ↦ pure access
            | LocalAccessState.failed e ↦ throw e
            | LocalAccessState.uninitialized ↦ first_local_access c s
          ] in
            step)
          Kept
  unfolding first_local_access
  accessed_from s (LocalAccessState.initialized access) =
      keep-Guards (known s) (pure-Preserves access)
  accessed_from s (LocalAccessState.failed e) = keep-Guards (known s) (throw-Preserves e)
  accessed_from s LocalAccessState.uninitialized = aside s root-Kept (first_at s)

  pub ensure_local_access-Kept : Preserves Kept (ensure_local_access c)
  unfolding ensure_local_access first_local_access
  ensure_local_access-Kept = guarded (starts (λ s. accessed_from s (CascState.local_access s)))

  with_keys-Kept : (key : Text) → Preserves Kept (read_file_by_encoding_key_with_keys c key)
  unfolding read_file_by_encoding_key_with_keys
  with_keys-Kept key = bind-Preserves ensure_local_access-Kept (λ access.
      bind-Preserves (reader-Kept (read_local_blte-IsReader c access key)) (λ blte.
        bind-Preserves get_state-Preserves (λ s.
          bind-Preserves (map_err-Preserves _ (lift-Preserves _)) (λ decoded. pure-Preserves _))))

  read_or_fall_back :
      (key : Text) (read : Result Text)
      → Preserves Kept (
          let step : Method c T FileContent = elim read [
            | Base.ok content ↦ pure (record { content = content; missing_keys = [] })
            | Base.err primary_err ↦
                map_err
                  (λ e.
                    primary_err ++ (txt "; key-aware local archive fallback also failed: " ++ e))
                  (read_file_by_encoding_key_with_keys c key)
          ] in
          step)
  read_or_fall_back key (Base.ok content) = pure-Preserves _
  read_or_fall_back key (Base.err e) = map_err-Preserves _ (with_keys-Kept key)

  pub read_file_by_encoding_key-Kept :
      (key : Text) → Preserves Kept (read_file_by_encoding_key c key)
  unfolding read_file_by_encoding_key
  read_file_by_encoding_key-Kept key =
      bind-Preserves get_state-Preserves
        (λ s. bind-Preserves (gets-Preserves _) (λ fs. read_or_fall_back key _))

  pub read_file_by_path-Kept : (p : Text) → Preserves Kept (read_file_by_path c p)
  unfolding read_file_by_path
  read_file_by_path-Kept p = bind-Preserves get_state-Preserves (λ s.
      bind-Preserves (gets-Preserves _) (λ fs.
        bind-Preserves (map_err-Preserves _ (lift-Preserves _)) (λ content. pure-Preserves _)))
