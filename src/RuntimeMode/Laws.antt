-- ===== src/RuntimeMode/Laws.antt =====
-- The mode is chosen once, and the guard lets nothing pass in extracted-only mode.
use asset_resolver.Base.{
  ◌+◌, ◌%◌, ◌≡◌, refl, inl, inr, Bool-cases, Option, Result, true, ◌⊎◌, ◌<◌, arith, Text, txt, none,
  some, List, [], ◌∷◌, ◌++◌, err,
}
use asset_resolver.RuntimeMode.{
  AssetRuntimeMode, local_casc, extracted_only, Process, Hook, tell, deny,
  configure_runtime_mode_from_env, process_runtime_mode, effective_runtime_mode, guard_casc_access,
  set_casc_access_hook, usize_mod,
}
use asset_resolver.RuntimeMode.Calls.{
  Call, configure, effective, guard, after, after_all, denial, denials,
}

-- The hook is there and panics at the error.
abbrev pub Panics : Option Hook → Text → Type 0
Panics hook error = (h : Hook) × (hook ≡ some h) × (h.panics error ≡ true)

-- What a refused access answers: the error, or the panic of the hook
abbrev pub Refuses : Process → Text → Option (Result (Unit {0})) → Type 0
Refuses p operation answer =
    let error = txt "extracted-only forbids CASC access: " ++ operation in
    (answer ≡ some (err error)) ⊎ ((answer ≡ none) × Panics p.hook error)

tell-Refuses :
    (error : Text) (hook : Option Hook) (p : Process)
    → ((tell error hook p).0 ≡ some (err error))
      ⊎ (((tell error hook p).0 ≡ none) × Panics hook error)
unfolding tell
tell-Refuses error none p = inl refl
tell-Refuses error (some h) p = elim (Bool-cases (h.panics error)) [
  | inl panics ↦ inr (rw panics refl, (h, refl, panics))
  | inr returns ↦ inl (rw returns refl)
]

refused_mode :
    (mode : AssetRuntimeMode) (operation : Text) (p : Process)
    → p.process_mode ≡ some extracted_only
    → (guard_casc_access mode operation p).0 ≡ (deny operation p).0
unfolding guard_casc_access effective_runtime_mode process_runtime_mode deny
refused_mode local_casc operation p h = rw h refl
refused_mode extracted_only operation p h = refl

after-process_mode :
    (c : Call) (p : Process) (m : AssetRuntimeMode)
    → p.process_mode ≡ some m
    → (after c p).process_mode ≡ some m
unfolding after configure_runtime_mode_from_env guard_casc_access effective_runtime_mode
    process_runtime_mode set_casc_access_hook
after-process_mode configure p m h = ground arith
after-process_mode (effective local_casc) p m h = ground arith
after-process_mode (guard local_casc op) p m h = ground arith
after-process_mode _ p m h = ground arith

-- Once the process mode is chosen, no sequence of calls changes it.
after_all-process_mode :
    (cs : List Call) (p : Process) (m : AssetRuntimeMode)
    → p.process_mode ≡ some m
    → (after_all cs p).process_mode ≡ some m
unfolding after_all
after_all-process_mode [] p m h = h
after_all-process_mode (c ∷ cs) p m h =
    after_all-process_mode cs (after c p) m (after-process_mode c p m h)

after-forbidden :
    (c : Call) (p : Process)
    → p.forbidden < usize_mod
    → ((after c p).forbidden ≡ (p.forbidden + denial c p) % usize_mod)
      × ((after c p).forbidden < usize_mod)
unfolding after denial configure_runtime_mode_from_env guard_casc_access effective_runtime_mode
    process_runtime_mode set_casc_access_hook
after-forbidden configure p h = ground arith
after-forbidden (effective local_casc) p h = ground arith
after-forbidden (guard local_casc op) p h = ground arith
after-forbidden _ p h = ground arith

-- The counter counts the refused guards of every sequence of calls, modulo the range of a usize.
pub after_all-forbidden :
    (cs : List Call) (p : Process)
    → p.forbidden < usize_mod
    → (after_all cs p).forbidden ≡ (p.forbidden + denials cs p) % usize_mod
unfolding after_all denials
after_all-forbidden [] p h = omega arith
after_all-forbidden (c ∷ cs) p h =
    let (one, fits) = after-forbidden c p h in
    omega (arith, one, fits, after_all-forbidden cs (after c p) fits)

-- Once the process mode is extracted-only, no guard that any later sequence of calls reaches lets an
-- access pass, whatever mode its resolver was configured with: it answers with an error, or it panics
-- as its hook does.
pub guard-after_all :
    (cs : List Call) (mode : AssetRuntimeMode) (operation : Text) (p : Process)
    → p.process_mode ≡ some extracted_only
    → Refuses (after_all cs p) operation (guard_casc_access mode operation (after_all cs p)).0
unfolding deny
guard-after_all cs mode operation p h =
    let kept = after_all-process_mode cs p extracted_only h in
    let last = after_all cs p in
    let error = txt "extracted-only forbids CASC access: " ++ operation in
    rw (refused_mode mode operation last kept)
      (tell-Refuses error last.hook (record last { forbidden = (last.forbidden + 1) % usize_mod }))

-- A configuration that fails changes nothing.
configure-eq-err :
    (p : Process) (e : Text)
    → (configure_runtime_mode_from_env p).0 ≡ err e
    → (configure_runtime_mode_from_env p).1 ≡ p
unfolding configure_runtime_mode_from_env
configure-eq-err p e h = ground arith
