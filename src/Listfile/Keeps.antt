-- ===== src/Listfile/Keeps.antt =====
-- src/listfile.rs: what the lookups keep of the maps in memory.
use asset_resolver.Base.{
  ℕ, ◌≡◌, refl, Text, FilePath, Option, none, some, Bool, true, false, Result, starts_with, txt,
  if◌then◌else◌,
}
use asset_resolver.Base
use asset_resolver.World.Io.{io_steps}
use asset_resolver.World.Statics.{Holds, holds_rules}
use asset_resolver.ListfileCache.Sql.{Database}
use asset_resolver.ListfileCache.Community.{CommunityCache}
use asset_resolver.ListfileCache.Foreign.{
  lookup_local_fdid-Holds, lookup_local_path-Holds, remember_local_cache_entry-Holds,
}
use asset_resolver.ListfileCache.Community.Foreign.{open_community_cache-Holds}
use asset_resolver.Listfile.Memory.{CachedListfile, insert_both}
use asset_resolver.Listfile.{
  Listfile, Lookup, update, cache_in_memory, cache_local_path, log_local_error_once,
  log_community_error_once, report_unwritten, remember, cache_path_for_fdid, local_path_found,
  local_path_unless, lookup_local_fdid, local_fdid_found, local_fdid_unless, lookup_local_path,
  opened, with_community_cache, community_path_found, lookup_community_fdid, community_row_found,
  resolve_community_path, cache_row, lookup_community_path, or_else, lookup_fdid, lookup_path,
}

module _ (d : Database) (Q : CachedListfile → Type 0) where
  -- The property, of a listfile's maps
  abbrev pub OfMemory : Listfile d → Type 0
  OfMemory s = Q s.memory

  update-Holds :
      (f : Listfile d → Listfile d)
      → ((s : Listfile d) → OfMemory s → OfMemory (f s))
      → Holds OfMemory (update d f)
  unfolding update io_steps
  update-Holds f h = record { at = λ w k. h w.statics k }

  pub log_local_error_once-Holds : (e : Text) → Holds OfMemory (log_local_error_once d e)
  unfolding log_local_error_once
  log_local_error_once-Holds e = search (holds_rules, update-Holds) depth 12

  pub log_community_error_once-Holds : (e : Text) → Holds OfMemory (log_community_error_once d e)
  unfolding log_community_error_once
  log_community_error_once-Holds e = search (holds_rules, update-Holds) depth 12

  pub report_unwritten-Holds :
      (fdid : ℕ) (r : Result (Unit {0})) → Holds OfMemory (report_unwritten d fdid r)
  unfolding report_unwritten
  report_unwritten-Holds fdid (Base.ok _) = search holds_rules
  report_unwritten-Holds fdid (Base.err e) = search holds_rules

  opened-Holds : (held : Option (CommunityCache d)) → Holds OfMemory (opened d held)
  unfolding opened
  opened-Holds (some cache) = search holds_rules
  opened-Holds none =
      search (holds_rules, open_community_cache-Holds d OfMemory, update-Holds) depth 12

  pub with_community_cache-Holds :
      {A : Type 0} (query : CommunityCache d → Result A)
      → Holds OfMemory (with_community_cache d query)
  unfolding with_community_cache
  with_community_cache-Holds query = search (holds_rules, opened-Holds)

module _ (d : Database) (Q : CachedListfile → Type 0)
    (insert_both-keeps : (fdid : ℕ) (p : Text) (m : CachedListfile)
      → Q m
      → Q (insert_both fdid p m)) where
  cache_in_memory-Holds : (fdid : ℕ) (p : Text) → Holds (OfMemory d Q) (cache_in_memory d fdid p)
  unfolding cache_in_memory update io_steps
  cache_in_memory-Holds fdid p = record { at = λ w h. insert_both-keeps fdid p w.statics.memory h }

  cache_local_path-Holds : (fdid : ℕ) (p : Text) → Holds (OfMemory d Q) (cache_local_path d fdid p)
  unfolding cache_local_path
  cache_local_path-Holds fdid p = search (holds_rules, cache_in_memory-Holds)

  remember-Holds : (fdid : ℕ) (p : Text) → Holds (OfMemory d Q) (remember d fdid p)
  unfolding remember
  remember-Holds fdid p =
      search
        (
          holds_rules,
          cache_in_memory-Holds,
          remember_local_cache_entry-Holds d (OfMemory d Q),
          report_unwritten-Holds d Q,
        )
        depth 12

  cache_path_for_fdid-Holds :
      (fdid : ℕ) (p : Text) → Holds (OfMemory d Q) (cache_path_for_fdid d fdid p)
  unfolding cache_path_for_fdid
  cache_path_for_fdid-Holds fdid p = search (holds_rules, remember-Holds)

  local_path_found-Holds :
      (fdid : ℕ) (r : Result (Option Text)) → Holds (OfMemory d Q) (local_path_found d fdid r)
  unfolding local_path_found
  local_path_found-Holds fdid (Base.ok none) = search holds_rules
  local_path_found-Holds fdid (Base.ok (some p)) = search (holds_rules, cache_local_path-Holds)
  local_path_found-Holds fdid (Base.err e) = search (holds_rules, log_local_error_once-Holds d Q)

  local_path_unless-Holds :
      (fdid : ℕ) (p : FilePath) (known : Option Text)
      → Holds (OfMemory d Q) (local_path_unless d fdid p known)
  unfolding local_path_unless
  local_path_unless-Holds fdid p (some q) = search holds_rules
  local_path_unless-Holds fdid p none =
      search (holds_rules, lookup_local_fdid-Holds d (OfMemory d Q), local_path_found-Holds)

  local_fdid_found-Holds :
      (r : Result (Option (ℕ × Text))) → Holds (OfMemory d Q) (local_fdid_found d r)
  unfolding local_fdid_found
  local_fdid_found-Holds (Base.ok none) = search holds_rules
  local_fdid_found-Holds (Base.ok (some row)) = search (holds_rules, cache_local_path-Holds)
  local_fdid_found-Holds (Base.err e) = search (holds_rules, log_local_error_once-Holds d Q)

  local_fdid_unless-Holds :
      (t : Text) (p : FilePath) (known : Option ℕ)
      → Holds (OfMemory d Q) (local_fdid_unless d t p known)
  unfolding local_fdid_unless
  local_fdid_unless-Holds t p (some fdid) = search holds_rules
  local_fdid_unless-Holds t p none =
      search (holds_rules, lookup_local_path-Holds d (OfMemory d Q), local_fdid_found-Holds)

  community_path_found-Holds :
      (fdid : ℕ) (r : Result (Option Text)) → Holds (OfMemory d Q) (community_path_found d fdid r)
  unfolding community_path_found
  community_path_found-Holds fdid (Base.ok none) = search holds_rules
  community_path_found-Holds fdid (Base.ok (some p)) =
      search (holds_rules, cache_path_for_fdid-Holds)
  community_path_found-Holds fdid (Base.err e) =
      search (holds_rules, log_community_error_once-Holds d Q)

  lookup_community_fdid-Holds : (fdid : ℕ) → Holds (OfMemory d Q) (lookup_community_fdid d fdid)
  unfolding lookup_community_fdid
  lookup_community_fdid-Holds fdid =
      search (holds_rules, with_community_cache-Holds d Q, community_path_found-Holds)

  community_row_found-Holds :
      (r : Result (Option (ℕ × Text))) → Holds (OfMemory d Q) (community_row_found d r)
  unfolding community_row_found
  community_row_found-Holds (Base.ok row) = search holds_rules
  community_row_found-Holds (Base.err e) = search (holds_rules, log_community_error_once-Holds d Q)

  cache_row-Holds : (r : Option (ℕ × Text)) → Holds (OfMemory d Q) (cache_row d r)
  unfolding cache_row
  cache_row-Holds none = search holds_rules
  cache_row-Holds (some row) = search (holds_rules, cache_path_for_fdid-Holds)

  lookup_community_path-Holds : (t : Text) → Holds (OfMemory d Q) (lookup_community_path d t)
  unfolding lookup_community_path resolve_community_path
  lookup_community_path-Holds t =
      search
        (holds_rules, with_community_cache-Holds d Q, community_row_found-Holds, cache_row-Holds)

  or_else-Holds :
      {A : Type 0} (found : Option A) (other : Lookup d (Option A))
      → Holds (OfMemory d Q) other
      → Holds (OfMemory d Q) (or_else d found other)
  unfolding or_else
  or_else-Holds none other h = h
  or_else-Holds (some a) other h = search holds_rules

  pub lookup_fdid-Holds : (fdid : ℕ) → Holds (OfMemory d Q) (lookup_fdid d fdid)
  unfolding lookup_fdid lookup_local_fdid
  lookup_fdid-Holds fdid =
      search (holds_rules, local_path_unless-Holds, or_else-Holds, lookup_community_fdid-Holds)
        depth 8

  pub lookup_path-Holds : (t : Text) → Holds (OfMemory d Q) (lookup_path d t)
  unfolding lookup_path lookup_local_path
  lookup_path-Holds t =
      search (holds_rules, local_fdid_unless-Holds, or_else-Holds, lookup_community_path-Holds)
        depth 8
