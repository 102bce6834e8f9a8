-- ===== src/RuntimeMode/Calls.antt =====
-- Any sequence of calls of the policy, from any threads: each call is atomic on the statics.
use asset_resolver.Base.{ℕ, ◌+◌, Text, Option, some, List, [], ◌∷◌}
use asset_resolver.RuntimeMode.{
  AssetRuntimeMode, extracted_only, Hook, Process, configure_runtime_mode_from_env,
  process_runtime_mode, effective_runtime_mode, guard_casc_access, set_casc_access_hook,
}

pub data Call : Type 0 where
  configure query : Call
  effective : AssetRuntimeMode → Call
  guard : AssetRuntimeMode → Text → Call
  set_hook : Hook → Call

unfoldable pub after : Call → Process → Process
after configure p = (configure_runtime_mode_from_env p).1
after query p = (process_runtime_mode p).1
after (effective mode) p = (effective_runtime_mode mode p).1
after (guard mode operation) p = (guard_casc_access mode operation p).1
after (set_hook h) p = (set_casc_access_hook h p).1

-- One for a guard whose effective mode is extracted-only, whether its hook returns or panics.
abbrev denied : Option AssetRuntimeMode → ℕ
denied (some extracted_only) = 1
denied _ = 0

unfoldable pub denial : Call → Process → ℕ
denial (guard mode operation) p = denied (effective_runtime_mode mode p).0
denial configure p = 0
denial _ p = 0

unfoldable pub after_all : List Call → Process → Process
after_all [] p = p
after_all (c ∷ cs) p = after_all cs (after c p)

-- The guards of the sequence that were refused.
unfoldable pub denials : List Call → Process → ℕ
denials [] p = 0
denials (c ∷ cs) p = denial c p + denials cs (after c p)
