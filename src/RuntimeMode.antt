-- ===== src/RuntimeMode.antt =====
-- src/runtime_mode.rs: the process-wide policy, and the guard in front of install and CASC access.
pub mod Calls
pub mod Laws
use asset_resolver.Base.{
  ℕ, ◌+◌, ◌%◌, ◌^◌, ◌≡◌, ◌↔◌, arith, Text, txt, Option, none, some, Bool, true, false, ◌&&◌, ◌||◌,
  List, [], ◌∷◌, ◌++◌, Result, ok, err, Eq, ◌==◌, list_eq, nat_eq, if◌then◌else◌,
}

pub data AssetRuntimeMode : Type 0 where
  local_casc extracted_only : AssetRuntimeMode

abbrev pub mode_eqb : AssetRuntimeMode → AssetRuntimeMode → Bool
mode_eqb local_casc local_casc = true
mode_eqb extracted_only extracted_only = true
mode_eqb _ _ = false

pub mode_eqb_iff : (a b : AssetRuntimeMode) → (mode_eqb a b ≡ true) ↔ (a ≡ b)
mode_eqb_iff a b = ground arith

instance abbrev pub mode_eq : Eq AssetRuntimeMode
mode_eq = record { equals = mode_eqb; equals_iff = mode_eqb_iff }

-- FromStr for AssetRuntimeMode
unfoldable pub from_str : Text → Result AssetRuntimeMode
from_str value =
    if value == txt "local-casc"
    then ok local_casc
    else if value == txt "extracted-only"
    then ok extracted_only
    else err (txt "unknown asset runtime mode: " ++ value)

-- What `std::env::var` returns.
pub data EnvVar : Type 0 where
  value not_unicode : Text → EnvVar
  not_present : EnvVar

-- `std::env::var_os`
abbrev pub var_os : EnvVar → Option Text
var_os (value text) = some text
var_os (not_unicode raw) = some raw
var_os not_present = none

-- A `fn(&str)`: it is known by a number, and for each error it returns or panics.
pub record Hook : Type 0 where
  pub id : ℕ
  pub panics : Text → Bool

-- The statics PROCESS_MODE, FORBIDDEN_ACCESSES and ACCESS_HOOK, the value of GAME_ENGINE_ASSET_MODE,
-- and the calls of the hook, newest last.
pub record Process : Type 0 where
  pub env_mode : EnvVar
  pub process_mode : Option AssetRuntimeMode
  pub forbidden : ℕ
  pub hook : Option Hook
  pub hook_calls : List (ℕ × Text)

-- A computation on the statics; `none` is a panic.
abbrev pub Run {ℓ} : Type ℓ → Type ℓ
Run A = Process → Option A × Process

infixl 5 ◌>>=◌
abbrev pub ◌>>=◌ {ℓ κ} : {A : Type ℓ} {B : Type κ} → Run A → (A → Run B) → Run B
◌>>=◌ m f p = let (a, p') = m p in elim a [ none ↦ (none, p') | some a ↦ f a p' ]

abbrev pub pure {ℓ} : {A : Type ℓ} → A → Run A
pure a p = (some a, p)

-- `PROCESS_MODE.get_or_init(|| mode)`
abbrev pub get_or_init : AssetRuntimeMode → Process → AssetRuntimeMode × Process
get_or_init mode p = elim p.process_mode [
  | none ↦ (mode, record p { process_mode = some mode })
  | some chosen ↦ (chosen, p)
]

-- The mode that the environment asks for.
unfoldable pub env_choice : EnvVar → Result AssetRuntimeMode
env_choice (value text) = from_str text
env_choice not_present = ok local_casc
env_choice (not_unicode raw) =
    err (txt "GAME_ENGINE_ASSET_MODE: environment variable was not valid unicode: " ++ raw)

select : AssetRuntimeMode → Process → Result AssetRuntimeMode × Process
select mode p =
    let (selected, p') = get_or_init mode p in
    if selected == mode
    then (ok selected, p')
    else (err (txt "asset runtime mode cannot change after initialization"), p')

-- configure_runtime_mode_from_env
unfoldable pub configure_runtime_mode_from_env : Process → Result AssetRuntimeMode × Process
unfolding select
configure_runtime_mode_from_env p = elim (env_choice p.env_mode) [
  | err e ↦ (err e, p)
  | ok mode ↦ select mode p
]

-- process_runtime_mode: an invalid environment panics, and leaves the static unset.
unfoldable pub process_runtime_mode : Run AssetRuntimeMode
process_runtime_mode p = elim p.process_mode [
  | some chosen ↦ (some chosen, p)
  | none ↦ elim (env_choice p.env_mode) [
    | err e ↦ (none, p)
    | ok mode ↦ (some mode, record p { process_mode = some mode })
  ]
]

-- effective_runtime_mode
unfoldable pub effective_runtime_mode : AssetRuntimeMode → Run AssetRuntimeMode
effective_runtime_mode extracted_only = pure extracted_only
effective_runtime_mode local_casc = do
  mode ← process_runtime_mode
  pure (if mode == extracted_only then extracted_only else local_casc)

abbrev pub usize_mod : ℕ
usize_mod = 18446744073709551616

-- The hook's call: it is told, and returns or panics.
tell : Text → Option Hook → Run (Result (Unit {0}))
tell error none p = (some (err error), p)
tell error (some h) p = (
  if h.panics error then none else some (err error),
  record p { hook_calls = p.hook_calls ++ ((h.id, error) ∷ []) },
)

-- The denied branch: count first, then tell the hook.
deny : Text → Run (Result (Unit {0}))
unfolding tell
deny operation p =
    let error = txt "extracted-only forbids CASC access: " ++ operation in
    tell error p.hook (record p { forbidden = (p.forbidden + 1) % usize_mod })

-- guard_casc_access
unfoldable pub guard_casc_access : AssetRuntimeMode → Text → Run (Result (Unit {0}))
unfolding deny tell
guard_casc_access mode operation = do
  effective ← effective_runtime_mode mode
  if effective == local_casc then pure (ok tt) else deny operation

-- forbidden_casc_access_count
unfoldable pub forbidden_casc_access_count : Process → ℕ
forbidden_casc_access_count p = p.forbidden

-- set_casc_access_hook
unfoldable pub set_casc_access_hook : Hook → Process → Result (Unit {0}) × Process
set_casc_access_hook h p = elim p.hook [
  | some _ ↦ (err (txt "CASC access hook already installed"), p)
  | none ↦ (ok tt, record p { hook = some h })
]
