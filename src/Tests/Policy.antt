-- ===== src/Tests/Policy.antt =====
-- The theorems on the policy, applied.
use asset_resolver.Base.{◌+◌, ◌%◌, ◌≡◌, refl, txt, some, List, [], ◌∷◌, arith}
use asset_resolver.RuntimeMode.{local_casc, extracted_only, Process, guard_casc_access, usize_mod}
use asset_resolver.RuntimeMode.Calls.{Call, configure, query, guard, after_all, denials}
use asset_resolver.RuntimeMode.Laws.{Refuses, after_all-forbidden, guard-after_all}
use asset_resolver.Tests.{process_of}

abbrev calls : List Call
calls = configure ∷ guard local_casc (txt "read") ∷ query ∷ guard extracted_only (txt "list") ∷ []

abbrev locked : Process
locked = process_of (some extracted_only)

after_all-forbidden_example :
    (after_all calls locked).forbidden ≡ (3 + denials calls locked) % usize_mod
after_all-forbidden_example = after_all-forbidden calls locked (omega arith)

guard-after_all_example :
    Refuses
      (after_all calls locked)
      (txt "open")
      (guard_casc_access local_casc (txt "open") (after_all calls locked)).0
guard-after_all_example = guard-after_all calls local_casc (txt "open") locked refl
