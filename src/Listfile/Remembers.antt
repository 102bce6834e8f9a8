-- ===== src/Listfile/Remembers.antt =====
-- src/listfile.rs: what a lookup has answered is what the maps in memory say from then on.
use asset_resolver.Base.{
  ℕ, ◌≡◌, refl, ◌∙◌, ap, Text, FilePath, Option, none, some, Bool, true, false, Result, List,
  nat_eq,
}
use asset_resolver.Base
use asset_resolver.Base.Assoc.{lookup, or_insert-value, or_insert-stable, or_insert-fresh}
use asset_resolver.World.Io.{World, io_steps, ok}
use asset_resolver.World.Chains.{>>=-ok, pure_step}
use asset_resolver.World.Gives.{Gives, bind-Gives, keep-Gives, pure-Gives, then-Gives}
use asset_resolver.World.Statics.{holds_rules, attempt-Holds}
use asset_resolver.ListfileCache.Sql.{Database}
use asset_resolver.ListfileCache.Foreign.{lookup_local_fdid-Holds, remember_local_cache_entry-Holds}
use asset_resolver.Listfile.Memory.{CachedListfile, insert_both, cached_path_of}
use asset_resolver.Listfile.Calls.{Call, after_calls, after_calls-keeps}
use asset_resolver.Listfile.Keeps.{
  log_local_error_once-Holds, log_community_error_once-Holds, report_unwritten-Holds,
  with_community_cache-Holds,
}
use asset_resolver.Listfile.{
  Listfile, update, cache_in_memory, cache_local_path, remember, cache_path_for_fdid,
  local_path_found, local_path_unless, lookup_local_fdid, community_path_found,
  lookup_community_fdid, or_else, lookup_fdid,
}

module _ (d : Database) (fdid : ℕ) where
  -- The maps say this of the FDID.
  abbrev Says : Option Text → Listfile d → Type 0
  Says o s = lookup fdid s.memory.by_fdid ≡ o

  -- The maps, as above
  abbrev SaysOf : Option Text → CachedListfile → Type 0
  SaysOf o m = lookup fdid m.by_fdid ≡ o

  cache_local_path-Gives :
      {P : Listfile d → Type 0} (p : Text)
      → Gives P (cache_local_path d fdid p) (λ q. Says (some q))
  unfolding cache_local_path cache_in_memory update io_steps cached_path_of insert_both
  cache_local_path-Gives p = record {
    at = λ w q h good. or_insert-value fdid p w.statics.memory.by_fdid ∙ cc good;
  }

  local_path_found-Gives :
      (r : Result (Option Text)) → Gives (Says none) (local_path_found d fdid r) Says
  unfolding local_path_found
  local_path_found-Gives (Base.ok none) = pure-Gives none (λ s h. h)
  local_path_found-Gives (Base.ok (some p)) =
      bind-Gives (cache_local_path-Gives p) (λ q. pure-Gives (some q) (λ s h. h))
  local_path_found-Gives (Base.err e) =
      then-Gives (keep-Gives (log_local_error_once-Holds d (SaysOf none) e))
        (pure-Gives none (λ s h. h))

  local_path_unless-Gives :
      (p : FilePath) (known : Option Text)
      → Gives (Says known) (local_path_unless d fdid p known) Says
  unfolding local_path_unless
  local_path_unless-Gives p (some q) = pure-Gives (some q) (λ s h. h)
  local_path_unless-Gives p none =
      bind-Gives (keep-Gives (attempt-Holds (lookup_local_fdid-Holds d (Says none) p fdid)))
        local_path_found-Gives

  lookup_local_fdid-Gives : Gives (λ _. Unit) (lookup_local_fdid d fdid) Says
  unfolding lookup_local_fdid io_steps
  lookup_local_fdid-Gives = record {
    at = λ w o _ good. (local_path_unless-Gives w.statics.local_cache_path _).at w o refl good;
  }

  cache_in_memory-Gives :
      (p : Text) → Gives (Says none) (cache_in_memory d fdid p) (λ _. Says (some p))
  unfolding cache_in_memory update io_steps insert_both
  cache_in_memory-Gives p = record {
    at = λ w _ fresh _.
        or_insert-value fdid p w.statics.memory.by_fdid
        ∙ ap some (or_insert-fresh fdid p w.statics.memory.by_fdid fresh);
  }

  remember-Gives : (p : Text) → Gives (Says none) (remember d fdid p) (λ _. Says (some p))
  unfolding remember
  remember-Gives p = bind-Gives (cache_in_memory-Gives p) (λ cached. keep-Gives (
      search
        (
          holds_rules,
          remember_local_cache_entry-Holds d (Says (some p)),
          report_unwritten-Holds d (SaysOf (some p)),
        )
        depth 12))

  cache_path_for_fdid-Gives :
      (p : Text) → Gives (Says none) (cache_path_for_fdid d fdid p) (λ q. Says (some q))
  unfolding cache_path_for_fdid
  cache_path_for_fdid-Gives p = then-Gives (remember-Gives p) (pure-Gives p (λ s h. h))

  community_path_found-Gives :
      (r : Result (Option Text)) → Gives (Says none) (community_path_found d fdid r) Says
  unfolding community_path_found
  community_path_found-Gives (Base.ok none) = pure-Gives none (λ s h. h)
  community_path_found-Gives (Base.ok (some p)) =
      bind-Gives (cache_path_for_fdid-Gives p) (λ q. pure-Gives (some q) (λ s h. h))
  community_path_found-Gives (Base.err e) =
      then-Gives (keep-Gives (log_community_error_once-Holds d (SaysOf none) e))
        (pure-Gives none (λ s h. h))

  lookup_community_fdid-Gives : Gives (Says none) (lookup_community_fdid d fdid) Says
  unfolding lookup_community_fdid
  lookup_community_fdid-Gives =
      bind-Gives (keep-Gives (attempt-Holds (with_community_cache-Holds d (SaysOf none) _)))
        community_path_found-Gives

  or_else-Gives :
      (found : Option Text)
      → Gives (Says found) (or_else d found (lookup_community_fdid d fdid)) Says
  unfolding or_else
  or_else-Gives none = lookup_community_fdid-Gives
  or_else-Gives (some p) = pure-Gives (some p) (λ s h. h)

  -- A lookup that answers has told the maps its answer.
  lookup_fdid-Gives : Gives (λ _. Unit) (lookup_fdid d fdid) Says
  unfolding lookup_fdid
  lookup_fdid-Gives = bind-Gives lookup_local_fdid-Gives or_else-Gives

  lookup_local_fdid-known :
      (w : World (Listfile d)) (p : Text)
      → Says (some p) w.statics
      → lookup_local_fdid d fdid w ≡ (ok (some p), w)
  unfolding lookup_local_fdid local_path_unless io_steps
  lookup_local_fdid-known w p h =
      ap (λ o. local_path_unless d fdid w.statics.local_cache_path o w) h

  -- What the maps know is answered from them.
  lookup_fdid-known :
      (w : World (Listfile d)) (p : Text)
      → Says (some p) w.statics
      → lookup_fdid d fdid w ≡ (ok (some p), w)
  unfolding lookup_fdid or_else
  lookup_fdid-known w p h =
      >>=-ok (lookup_local_fdid d fdid) (λ found. or_else d found (lookup_community_fdid d fdid))
        (lookup_local_fdid-known w p h)
      ∙ pure_step (some p) w

  -- Once an FDID has been found to have a path it keeps this path: a lookup behind any lookups of any
  -- FDIDs and paths, whatever becomes of the files in between, answers with the same path and changes
  -- nothing.
  pub lookup_fdid-after_calls :
      (calls : List Call) (w : World (Listfile d)) (p : Text)
      → (lookup_fdid d fdid w).0 ≡ ok (some p)
      → lookup_fdid d fdid (after_calls d calls (lookup_fdid d fdid w).1)
        ≡ (ok (some p), after_calls d calls (lookup_fdid d fdid w).1)
  unfolding insert_both
  lookup_fdid-after_calls calls w p h = lookup_fdid-known _ p (
      after_calls-keeps d (SaysOf (some p))
        (λ g q m known. or_insert-stable fdid g q p m.by_fdid known) calls _
        (lookup_fdid-Gives.at w (some p) tt h))
