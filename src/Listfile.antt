-- ===== src/Listfile.antt =====
-- src/listfile.rs: the lookups between FDIDs and paths, in memory, in the local cache, and in the
-- community listfile.
pub mod Memory
pub mod Cell
pub mod MemoryLaws
pub mod Keeps
pub mod Calls
pub mod Remembers
pub mod Logs
use asset_resolver.Base.{
  ℕ, Text, txt, FilePath, path, display, decimal, starts_with, Option, none, some, Bool, true,
  false, List, [], ◌∷◌, ◌++◌, Result, if◌then◌else◌, to_ascii_lowercase, nat_eq, list_eq,
}
use asset_resolver.Base
use asset_resolver.Base.Assoc.{lookup}
use asset_resolver.Paths.{ResolverPaths, resolve_data_path, shared_data_path}
use asset_resolver.World.Fs.{FileSystem, node_exists}
use asset_resolver.World.Io.{World, Io, ◌>>=◌, ◌>>◌, pure, lift, attempt, gets, modify, eprintln}
use asset_resolver.ListfileCache.{cache_path, remember_local_cache_entry}
use asset_resolver.ListfileCache
use asset_resolver.ListfileCache.Community.{
  CommunityCache, open_community_cache, cache_lookup_fdid, cache_lookup_path,
}
use asset_resolver.ListfileCache.Sql.{Database}
use Memory.{CachedListfile, empty, cached_path_of, insert_both, has_both}

-- The listfile in a data root, the limited one where only that is there.
unfoldable pub community_listfile_path : FileSystem → ResolverPaths → FilePath
community_listfile_path fs paths =
    let there : FilePath → Bool = λ p. node_exists (fs p) in
    let community_path = resolve_data_path there paths (path (txt "community-listfile.csv")) in
    let limited_path = resolve_data_path there paths (path (txt "wow-ui-sim-listfile.csv")) in
    if there community_path
    then community_path
    else if there limited_path
    then limited_path
    else community_path

-- `canonicalize` is the system's: the model has no links that it could follow.
unfoldable pub canonical_source_path :
    (FileSystem → FilePath → Option FilePath) → FileSystem → FilePath → FilePath
canonical_source_path canonicalize fs p = elim (canonicalize fs p) [ none ↦ p | some q ↦ q ]

module _ (d : Database) where
  -- The open cache, the flags and the maps are each behind a mutex.
  pub record Listfile : Type 0 where
    pub community_path : FilePath
    pub community_cache_path : FilePath
    pub local_cache_path : FilePath
    pub community_cache : Option (CommunityCache d)
    pub community_error_logged : Bool
    pub local_error_logged : Bool
    pub memory : CachedListfile

  unfoldable pub new_listfile : FilePath → FilePath → FilePath → Listfile
  new_listfile community_path community_cache_path local_cache_path = record {
    community_path = community_path;
    community_cache_path = community_cache_path;
    local_cache_path = local_cache_path;
    community_cache = none;
    community_error_logged = false;
    local_error_logged = false;
    memory = empty;
  }

  unfoldable pub from_paths :
      (FileSystem → FilePath → Option FilePath) → FileSystem → ResolverPaths → Listfile
  from_paths canonicalize fs paths =
      let community_path =
        canonical_source_path canonicalize fs (community_listfile_path fs paths) in
      new_listfile community_path (cache_path paths community_path)
        (shared_data_path paths (path (txt "local-listfile-cache.sqlite")))

  -- A method on a listfile, which is the statics.
  abbrev pub Lookup : Type 0 → Type 0
  Lookup A = Io Listfile A

  update : (Listfile → Listfile) → Lookup (Unit {0})
  update f = modify (λ w. record w { statics = f w.statics })

  unfoldable pub cache_in_memory : ℕ → Text → Lookup (Text × Bool)
  unfolding update
  cache_in_memory fdid p = do
    memory ← gets (λ w. w.statics.memory)
    update (λ s. record s { memory = insert_both fdid p memory })
    pure (cached_path_of fdid p memory, has_both fdid p memory)

  unfoldable pub cache_local_path : ℕ → Text → Lookup Text
  cache_local_path fdid p = do cached ← cache_in_memory fdid p; pure cached.0

  unfoldable pub log_local_error_once : Text → Lookup (Unit {0})
  unfolding update
  log_local_error_once e = do
    listfile ← gets (λ w. w.statics)
    if listfile.local_error_logged then pure tt else do
      update (λ s. record s { local_error_logged = true })
      eprintln (
          txt "Local listfile cache unavailable "
          ++ (display listfile.local_cache_path ++ (txt ": " ++ e)))

  unfoldable pub log_community_error_once : Text → Lookup (Unit {0})
  unfolding update
  log_community_error_once e = if starts_with e (txt "missing ") then pure tt else do
    logged ← gets (λ w. w.statics.community_error_logged)
    if logged then pure tt else do
      update (λ s. record s { community_error_logged = true })
      eprintln (txt "Community listfile unavailable; using local listfile cache only: " ++ e)

  pub report_unwritten : ℕ → Result (Unit {0}) → Lookup (Unit {0})
  report_unwritten fdid (Base.ok _) = pure tt
  report_unwritten fdid (Base.err e) =
      eprintln (txt "Failed to persist listfile cache entry " ++ (decimal fdid ++ (txt ": " ++ e)))

  unfoldable pub remember : ℕ → Text → Lookup (Unit {0})
  unfolding report_unwritten
  remember fdid p = do
    cached ← cache_in_memory fdid p
    if cached.1 then pure tt else do
      local_cache_path ← gets (λ w. w.statics.local_cache_path)
      written ← attempt (remember_local_cache_entry d local_cache_path fdid p)
      report_unwritten fdid written

  unfoldable pub cache_path_for_fdid : ℕ → Text → Lookup Text
  cache_path_for_fdid fdid p = do remember fdid p; pure p

  -- What the local cache says of an FDID.
  local_path_found : ℕ → Result (Option Text) → Lookup (Option Text)
  local_path_found fdid (Base.ok none) = pure none
  local_path_found fdid (Base.ok (some p)) = do cached ← cache_local_path fdid p; pure (some cached)
  local_path_found fdid (Base.err e) = do log_local_error_once e; pure none

  -- The local cache is asked unless the path is known.
  local_path_unless : ℕ → FilePath → Option Text → Lookup (Option Text)
  unfolding local_path_found
  local_path_unless fdid local_cache_path (some p) = pure (some p)
  local_path_unless fdid local_cache_path none = do
    found ← attempt (ListfileCache.lookup_local_fdid d local_cache_path fdid)
    local_path_found fdid found

  unfoldable pub lookup_local_fdid : ℕ → Lookup (Option Text)
  unfolding local_path_unless
  lookup_local_fdid fdid = do
    listfile ← gets (λ w. w.statics)
    local_path_unless fdid listfile.local_cache_path (lookup fdid listfile.memory.by_fdid)

  -- What the local cache says of a path.
  local_fdid_found : Result (Option (ℕ × Text)) → Lookup (Option ℕ)
  local_fdid_found (Base.ok none) = pure none
  local_fdid_found (Base.ok (some (fdid, resolved_path))) = do
    _ ← cache_local_path fdid resolved_path
    pure (some fdid)
  local_fdid_found (Base.err e) = do log_local_error_once e; pure none

  -- The local cache is asked unless the FDID is known.
  local_fdid_unless : Text → FilePath → Option ℕ → Lookup (Option ℕ)
  unfolding local_fdid_found
  local_fdid_unless p local_cache_path (some fdid) = pure (some fdid)
  local_fdid_unless p local_cache_path none = do
    found ← attempt (ListfileCache.lookup_local_path d local_cache_path p)
    local_fdid_found found

  unfoldable pub lookup_local_path : Text → Lookup (Option ℕ)
  unfolding local_fdid_unless
  lookup_local_path p = do
    listfile ← gets (λ w. w.statics)
    local_fdid_unless p listfile.local_cache_path
        (lookup (to_ascii_lowercase p) listfile.memory.by_path)

  opened : Option (CommunityCache d) → Lookup (CommunityCache d)
  opened (some cache) = pure cache
  opened none = do
    listfile ← gets (λ w. w.statics)
    cache ← open_community_cache d listfile.community_cache_path listfile.community_path
    update (λ s. record s { community_cache = some cache })
    pure cache

  -- The cache is opened by the first query, and again after a failure.
  unfoldable pub with_community_cache : {A : Type 0} → (CommunityCache d → Result A) → Lookup A
  unfolding opened update
  with_community_cache query = do
    held ← gets (λ w. w.statics.community_cache)
    cache ← opened held
    lift (query cache)

  -- What the community listfile says of an FDID.
  community_path_found : ℕ → Result (Option Text) → Lookup (Option Text)
  community_path_found fdid (Base.ok none) = pure none
  community_path_found fdid (Base.ok (some p)) = do
    leaked ← cache_path_for_fdid fdid p
    pure (some leaked)
  community_path_found fdid (Base.err e) = do log_community_error_once e; pure none

  unfoldable pub lookup_community_fdid : ℕ → Lookup (Option Text)
  unfolding community_path_found
  lookup_community_fdid fdid = do
    found ← attempt (with_community_cache (λ cache. cache_lookup_fdid d cache fdid))
    community_path_found fdid found

  community_row_found : Result (Option (ℕ × Text)) → Lookup (Option (ℕ × Text))
  community_row_found (Base.ok row) = pure row
  community_row_found (Base.err e) = do log_community_error_once e; pure none

  unfoldable pub resolve_community_path : Text → Lookup (Option (ℕ × Text))
  unfolding community_row_found
  resolve_community_path p = do
    found ← attempt (with_community_cache (λ cache. cache_lookup_path d cache p))
    community_row_found found

  cache_row : Option (ℕ × Text) → Lookup (Option ℕ)
  cache_row none = pure none
  cache_row (some (fdid, resolved_path)) = do
    _ ← cache_path_for_fdid fdid resolved_path
    pure (some fdid)

  unfoldable pub lookup_community_path : Text → Lookup (Option ℕ)
  unfolding cache_row
  lookup_community_path p = do found ← resolve_community_path p; cache_row found

  -- Option::or_else
  or_else : {A : Type 0} → Option A → Lookup (Option A) → Lookup (Option A)
  or_else none other = other
  or_else (some a) other = pure (some a)

  -- Listfile::lookup_fdid
  unfoldable pub lookup_fdid : ℕ → Lookup (Option Text)
  unfolding or_else
  lookup_fdid fdid = do found ← lookup_local_fdid fdid; or_else found (lookup_community_fdid fdid)

  -- Listfile::lookup_path
  unfoldable pub lookup_path : Text → Lookup (Option ℕ)
  unfolding or_else
  lookup_path p = do found ← lookup_local_path p; or_else found (lookup_community_path p)
