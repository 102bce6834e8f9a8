-- ===== src/CascCache/Publish.antt =====
-- src/casc_cache.rs: the publication of a complete resolution namespace from a private sibling.
use asset_resolver.Base.{
  ◌+◌, ◌*◌, Text, txt, FilePath, path, join, parent, file_name, display, not, [], ◌++◌, ok_or,
  if◌then◌else◌, decimal, debug, Result,
}
use asset_resolver.Base
use asset_resolver.World.Fs.{absent, dir, file, put}
use asset_resolver.World.Io.{
  Io, ◌>>=◌, ◌>>◌, pure, throw, lift, attempt, map_err, gets, exists, create_dir_all, create_dir,
  remove_dir_all, rename, fallible, set_fs, ok,
}
use asset_resolver.Casc.{Cascette}
use asset_resolver.Sqlite.{Sqlite}
use asset_resolver.CascCache.{resolution_cache_is_fresh}

-- The parent and the name of the namespace; a path without them is an error.
unfoldable pub parent_of : {T : Type 0} → FilePath → Io T FilePath
parent_of casc_dir = lift (ok_or (txt "CASC namespace has no parent") (parent casc_dir))

unfoldable pub name_of : {T : Type 0} → FilePath → Io T Text
name_of casc_dir = lift (ok_or (txt "CASC namespace has no name") (file_name casc_dir))

-- Opening the lock file creates it, and keeps its content.
unfoldable pub open_lock : {T : Type 0} → FilePath → Io T (Unit {0})
open_lock lock_path = fallible λ w. elim (w.fs lock_path) [
  | file _ _ ↦ pure tt w
  | dir ↦ throw (txt "Is a directory (os error 21)") w
  | absent ↦ (ok tt, set_fs (put w.fs lock_path (file [] w.now)) w)
]

-- The lock is held until the caller returns. Waiting for it is not modelled.
unfoldable pub acquire_namespace_lock : {T : Type 0} → FilePath → Io T (Unit {0})
unfolding parent_of name_of open_lock
acquire_namespace_lock casc_dir = do
  parent_dir ← parent_of casc_dir
  map_err (λ e. txt "create " ++ (display parent_dir ++ (txt ": " ++ e)))
      (create_dir_all parent_dir)
  name ← name_of casc_dir
  let lock_path = join parent_dir (path (txt "." ++ (name ++ txt ".lock")))
  map_err (λ e. txt "open namespace lock " ++ (display lock_path ++ (txt ": " ++ e)))
      (open_lock lock_path)
  map_err (λ e. txt "flock " ++ (display lock_path ++ (txt ": " ++ e))) (fallible (pure tt))

-- The time in nanoseconds makes the name unique.
unfoldable pub create_namespace_staging : {T : Type 0} → FilePath → Io T FilePath
unfolding parent_of name_of
create_namespace_staging casc_dir = do
  parent_dir ← parent_of casc_dir
  name ← name_of casc_dir
  clock ← gets (λ w. w.now * 1000000000 + w.subsec_nanos)
  pid ← gets (λ w. w.process_id)
  let staging = join parent_dir (
      path (
        txt "."
        ++ (name ++ (txt "." ++ (decimal pid ++ (txt "." ++ (decimal clock ++ txt ".partial")))))))
  map_err (λ e. txt "create " ++ (display staging ++ (txt ": " ++ e))) (create_dir staging)
  pure staging

module _ (c : Cascette) (q : Sqlite) where
  unfoldable pub publish_complete_namespace : {T : Type 0} → FilePath → FilePath → Io T (Unit {0})
  publish_complete_namespace staging casc_dir = do
    fresh ← resolution_cache_is_fresh c q staging
    if not fresh then throw (txt "incomplete CASC namespace " ++ display staging) else do
      old ← exists casc_dir
      if old
          then map_err (λ e. txt "remove incomplete " ++ (display casc_dir ++ (txt ": " ++ e)))
              (remove_dir_all casc_dir)
          else pure tt
      map_err (λ e. txt "publish " ++ (display casc_dir ++ (txt ": " ++ e)))
          (rename staging casc_dir)

  -- `{:?}` of the outcome
  unfoldable pub debug_result : Result (Unit {0}) → Text
  debug_result (Base.ok _) = txt "Ok(())"
  debug_result (Base.err e) = txt "Err(" ++ (debug e ++ txt ")")

  -- The removal of a staging directory that is still there.
  unfoldable pub clean_staging : {T : Type 0} → FilePath → Result (Unit {0}) → Io T (Unit {0})
  unfolding debug_result
  clean_staging staging result = do
    left ← exists staging
    if left
        then map_err
            (λ e.
              txt "cleanup "
              ++ (display staging ++ (txt " after " ++ (debug_result result ++ (txt ": " ++ e)))))
            (remove_dir_all staging)
        else pure tt

  unfoldable pub publish_resolution_namespace :
      {T : Type 0} → FilePath → (FilePath → Io T (Unit {0})) → Io T (Unit {0})
  publish_resolution_namespace casc_dir write_cache = do
    acquire_namespace_lock casc_dir
    fresh ← resolution_cache_is_fresh c q casc_dir
    if fresh then pure tt else do
      staging ← create_namespace_staging casc_dir
      result ← attempt (do write_cache staging; publish_complete_namespace staging casc_dir)
      clean_staging staging result
      lift result
