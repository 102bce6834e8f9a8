-- ===== src/CascState/Laws.antt =====
-- The lazy initializations are made once, and their outcome is remembered.
use asset_resolver.Base.{
  ◌≡◌, refl, ◌⊎◌, inl, inr, ap, ◌∙◌, sym, arith, Text, txt, FilePath, Option, none, some, Result,
  Result-cases, List, [], ◌∷◌, ◌++◌,
}
use asset_resolver.Base
use asset_resolver.World.Io.{World, ok, err, io_steps}
use asset_resolver.World.Laws.{IsReader, reader_rules}
use asset_resolver.Casc.{Cascette}
use asset_resolver.CascState.{
  CascState, InitState, get_state, put_state, ensure_initialized, LocalArchiveAccess,
  open_local_access, read_local_blte,
}

InitState-cases :
    (s : InitState)
    → ((s ≡ InitState.initialized) ⊎ ((e : Text) × (s ≡ InitState.failed e)))
      ⊎ (s ≡ InitState.uninitialized)
InitState-cases InitState.initialized = inl (inl refl)
InitState-cases (InitState.failed e) = inl (inr (e, refl))
InitState-cases InitState.uninitialized = inr refl

module _ (c : Cascette) {T : Type 0} where
  ensure_initialized_done :
      (w : World (CascState c × T))
      → CascState.init w.statics.0 ≡ InitState.initialized
      → ensure_initialized c w ≡ (ok tt, w)
  unfolding ensure_initialized get_state put_state io_steps
  ensure_initialized_done w h = rw h

  ensure_initialized_failed :
      (w : World (CascState c × T)) (e : Text)
      → CascState.init w.statics.0 ≡ InitState.failed e
      → ensure_initialized c w ≡ (err e, w)
  unfolding ensure_initialized get_state put_state io_steps
  ensure_initialized_failed w e h = rw h

  -- The state behind the first initialization, by what the installation answered.
  abbrev set_init :
      World (CascState c × T) → Cascette.Installation c → InitState → World (CascState c × T)
  set_init w install init = record w {
    statics = (record (w.statics.0) { install = install; init = init }, w.statics.1);
  }

  ensure_initialized_first :
      (w : World (CascState c × T))
      → CascState.init w.statics.0 ≡ InitState.uninitialized
      → let (result, install) = Cascette.initialize c w.fs (CascState.install w.statics.0) in
        ((result ≡ Base.ok tt)
          × (ensure_initialized c w ≡ (ok tt, set_init w install InitState.initialized)))
        ⊎ ((e : Text) × (result ≡ Base.err e)
            × (ensure_initialized c w ≡ (
              err (txt "CASC init: " ++ e),
              set_init w install (InitState.failed (txt "CASC init: " ++ e)),
            )))
  unfolding ensure_initialized get_state put_state io_steps
  ensure_initialized_first w h =
      elim (Result-cases (Cascette.initialize c w.fs (CascState.install w.statics.0)).0) [
        | inl (u, good) ↦ inl (good, ground arith)
        | inr (e, bad) ↦ inr (e, bad, ground arith)
      ]

  -- A second call gives the answer of the first, success or failure, and changes nothing.
  pub ensure_initialized_again :
      (w : World (CascState c × T))
      → let (answer, w') = ensure_initialized c w in ensure_initialized c w' ≡ (answer, w')
  ensure_initialized_again w = elim (InitState-cases (CascState.init w.statics.0)) [
    | inl (inl done) ↦ rw (ensure_initialized_done w done) (ensure_initialized_done w done)
    | inl (inr (e, failed)) ↦
        rw (ensure_initialized_failed w e failed) (ensure_initialized_failed w e failed)
    | inr fresh ↦ elim (ensure_initialized_first w fresh) [
      | inl (_, now) ↦ rw now (ensure_initialized_done (set_init w _ InitState.initialized) refl)
      | inr (e, _, now) ↦
          rw now (ensure_initialized_failed (set_init w _ (InitState.failed _)) _ refl)
    ]
  ]

  pub open_local_access-IsReader :
      (data_dir : FilePath) → IsReader {T = T} (open_local_access c data_dir)
  unfolding open_local_access
  open_local_access-IsReader data_dir = search reader_rules depth 14

  pub read_local_blte-IsReader :
      (access : LocalArchiveAccess c) (key : Text) → IsReader {T = T} (read_local_blte c access key)
  unfolding read_local_blte
  read_local_blte-IsReader access key = search reader_rules depth 14
