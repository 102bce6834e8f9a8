-- ===== src/CascCache/Published.antt =====
-- src/casc_cache.rs: what a publication that succeeds leaves.
use asset_resolver.Base.{
  ◌+◌, ◌*◌, ◌≡◌, ◌≢◌, refl, sym, ap, ◌∙◌, ◌⊎◌, inl, inr, arith, Text, txt, FilePath, normal, path,
  join, parent, file_name, display, IsSlashFree, length, Option, none, some, Bool, true, false, not,
  [], ◌∷◌, ◌++◌, if◌then◌else◌, ok_or, Result, decimal, strip_prefix,
}
use asset_resolver.Base
use asset_resolver.World.Fs.{FileSystem, dir}
use asset_resolver.World.Io.{
  World, Io, ok, ◌>>=◌, ◌>>◌, pure, lift, map_err, attempt, create_dir, remove_dir_all, io_steps,
}
use asset_resolver.World.Chains.{pure_step}
use asset_resolver.World.Laws.{lift-IsReader}
use asset_resolver.World.Inversion.{
  >>=-next, >>-next, map_err-eq-ok, lift-eq-ok, attempt-eq-ok, pure-eq-ok,
}
use asset_resolver.World.Directories.{map_err-world, attempt-world}
use asset_resolver.World.Effects.{create_dir-Does, remove_dir_all-Does, put-same}
use asset_resolver.World.Files.{
  Leaves, bind-Preserves, exists-Preserves, if-Preserves, map_err-Preserves, pure-Preserves,
}
use asset_resolver.Casc.{Cascette}
use asset_resolver.Sqlite.{Sqlite}
use asset_resolver.Resolver.Extract.{temporary_path}
use asset_resolver.Resolver.TemporaryPath.{
  parent_lem, file_name_lem, temporary_name, length-temporary_name, temporary_path_lem,
}
use asset_resolver.CascCache.{resolution_cache_is_fresh}
use asset_resolver.CascCache.Fresh.{
  IsFresh, resolution_cache_is_fresh-eq-true, resolution_cache_is_fresh-IsReader,
}
use asset_resolver.CascCache.Publish.{
  parent_of, name_of, acquire_namespace_lock, create_namespace_staging, publish_complete_namespace,
  clean_staging, publish_resolution_namespace,
}
use asset_resolver.CascCache.PublishLaws.{
  removed_beside, moved-IsFresh, publish_complete_namespace-IsFresh,
}
use asset_resolver.CascCache.Lock.{child, Unchanged}

module _ {T : Type 0} (d : FilePath) (name : Text) (slash : IsSlashFree name) where
  -- The steps of create_namespace_staging
  staging_steps :
      (w : World T)
      → let staging = temporary_path d name w.process_id (w.now * 1000000000 + w.subsec_nanos) in
        create_namespace_staging (child d name) w
        ≡ (map_err (λ e. txt "create " ++ (display staging ++ (txt ": " ++ e))) (create_dir staging)
              >> pure staging)
            w
  unfolding create_namespace_staging parent_of name_of io_steps temporary_path
  staging_steps w = rw (parent_lem d name, file_name_lem d name) refl

  -- A staging directory is a sibling of the namespace.
  create_namespace_staging-eq-ok :
      (staging : FilePath) (w : World T)
      → (create_namespace_staging (child d name) w).0 ≡ ok staging
      → (other : Text) × (name ≢ other)
        × (staging ≡ child d other)
        × ((create_namespace_staging (child d name) w).1.fs staging ≡ dir)
  create_namespace_staging-eq-ok staging w h =
      let pid = w.process_id in
      let clock = w.now * 1000000000 + w.subsec_nanos in
      let made = temporary_path d name pid clock in
      let (good, last, same) =
        >>-next _ (pure made) w staging (ap (λ r. r.0) (sym (staging_steps w)) ∙ h) in
      let is : made ≡ staging = pure-eq-ok made staging _ last in
      let v : World T = (create_dir made w).1 in
      let there : v.fs made ≡ dir = elim (create_dir-Does made w) [
        | inl (_, now) ↦ ap (λ fs. fs made) now ∙ put-same w.fs made dir
        | inr (e, bad, _) ↦ absurd (cc (bad, map_err-eq-ok _ _ w tt good))
      ] in
      (
        temporary_name name pid clock,
        λ equal. omega (arith, length-temporary_name name pid clock, ap length equal),
        sym is ∙ temporary_path_lem d name pid clock slash,
        ap (λ r. r.1.fs staging) (staging_steps w ∙ same ∙ pure_step made _)
            ∙ ap (λ u. u.fs staging) (map_err-world _ (create_dir made) w)
            ∙ ap v.fs (sym is)
            ∙ there,
      )

module _ (c : Cascette) (q : Sqlite) {T : Type 0} (d : FilePath) (name : Text)
    (slash : IsSlashFree name) where
  -- The removal of a sibling leaves what lies below the namespace.
  removed-Unchanged :
      (before : FileSystem) (other : Text)
      → name ≢ other
      → Leaves {T = T} (Unchanged before (child d name)) (remove_dir_all (child d other))
  removed-Unchanged before other differ = record {
    at = λ w h x. elim (remove_dir_all-Does (child d other) w) [
      | inl (_, now) ↦
          ap (λ fs. fs (child d name ++ x)) now
          ∙ removed_beside w.fs d other name x (λ same. differ (sym same))
          ∙ h x
      | inr (e, _, now) ↦ ap (λ fs. fs (child d name ++ x)) now ∙ h x
    ];
  }

  clean_staging-Unchanged :
      (before : FileSystem) (other : Text) (result : Result (Unit {0}))
      → name ≢ other
      → Leaves {T = T} (Unchanged before (child d name)) (clean_staging c q (child d other) result)
  unfolding clean_staging
  clean_staging-Unchanged before other result differ =
      bind-Preserves (exists-Preserves (child d other)) (λ left.
        if-Preserves left (map_err-Preserves _ (removed-Unchanged before other differ))
          (pure-Preserves tt))

  -- The part of the publication behind the look at the namespace, and its part behind the making of the
  -- staging directory
  abbrev finish : (FilePath → Io T (Unit {0})) → FilePath → Io T (Unit {0})
  finish write_cache staging =
      attempt (write_cache staging >> publish_complete_namespace c q staging (child d name))
      >>= λ result. clean_staging c q staging result >> lift result

  abbrev rebuild : (FilePath → Io T (Unit {0})) → Io T (Unit {0})
  rebuild write_cache = create_namespace_staging (child d name) >>= finish write_cache

  module _ (write_cache : FilePath → Io T (Unit {0}))
      (keeps : (staging : FilePath) → Leaves (λ fs. fs staging ≡ dir) (write_cache staging)) where
    -- What was written is published, if both steps succeed.
    written-IsFresh :
        (other : Text) (w : World T)
        → name ≢ other
        → w.fs (child d other) ≡ dir
        → let (answer, w') =
            (write_cache (child d other)
                >> publish_complete_namespace c q (child d other) (child d name))
              w in
          answer ≡ ok tt → IsFresh c q w'.fs (child d name)
    written-IsFresh other w differ there h =
        let (_, good, same) = >>-next (write_cache (child d other)) _ w tt h in
        let v : World T = (write_cache (child d other) w).1 in
        let (_, fresh) =
          publish_complete_namespace-IsFresh c q d name other v differ
            ((keeps (child d other)).at w there) good in
        rw (ap (λ r. r.1.fs) same) fresh

    finish-IsFresh :
        (other : Text) (w : World T)
        → name ≢ other
        → w.fs (child d other) ≡ dir
        → (finish write_cache (child d other) w).0 ≡ ok tt
        → IsFresh c q (finish write_cache (child d other) w).1.fs (child d name)
    finish-IsFresh other w differ there h =
        let both =
          write_cache (child d other)
          >> publish_complete_namespace c q (child d other) (child d name) in
        let (result, answered, good, same) =
          >>=-next (attempt both)
            (λ result. clean_staging c q (child d other) result >> lift result) w tt h in
        let u : World T = (attempt both w).1 in
        let (_, last, same') =
          >>-next (clean_staging c q (child d other) result) (lift result) u tt good in
        let v : World T = (clean_staging c q (child d other) result u).1 in
        let fine : result ≡ Base.ok tt = lift-eq-ok result v tt last in
        let written : IsFresh c q (both w).1.fs (child d name) =
          written-IsFresh other w differ there (attempt-eq-ok both w tt (answered ∙ ap ok fine)) in
        let reached : u.fs ≡ (both w).1.fs = ap (λ x. x.fs) (attempt-world both w) in
        let kept = (clean_staging-Unchanged u.fs other result differ).at u (λ x. refl) in
        let ended : (finish write_cache (child d other) w).1.fs ≡ v.fs =
          ap (λ r. r.1.fs) (same ∙ same') ∙ ((lift-IsReader result).at v).fs in
        rw ended
          (moved-IsFresh c q v.fs u.fs (child d name) (child d name) kept (rw reached written))

    rebuild-IsFresh :
        (w : World T)
        → (rebuild write_cache w).0 ≡ ok tt
        → IsFresh c q (rebuild write_cache w).1.fs (child d name)
    rebuild-IsFresh w h =
        let (staging, made, good, same) =
          >>=-next (create_namespace_staging (child d name)) (finish write_cache) w tt h in
        let v : World T = (create_namespace_staging (child d name) w).1 in
        let (other, differ, is, there) =
          create_namespace_staging-eq-ok d name slash staging w made in
        let at : finish write_cache staging v ≡ finish write_cache (child d other) v =
          ap (λ s. finish write_cache s v) is in
        rw (ap (λ r. r.1.fs) (same ∙ at))
          (finish-IsFresh other v differ (ap v.fs (sym is) ∙ there) (ap (λ r. r.0) (sym at) ∙ good))

    looked-IsFresh :
        (fresh : Bool) (w : World T)
        → (fresh ≡ true → IsFresh c q w.fs (child d name))
        → ((if fresh then pure tt else rebuild write_cache) w).0 ≡ ok tt
        → IsFresh c q ((if fresh then pure tt else rebuild write_cache) w).1.fs (child d name)
    unfolding pure
    looked-IsFresh true w seen h = seen refl
    looked-IsFresh false w seen h = rebuild-IsFresh w h

    -- A publication that succeeds leaves a complete namespace, whatever the system refuses on the way:
    -- one that was there, or the one that its builder has staged. The name of the namespace is one
    -- component, and the builder keeps its directory.
    pub publish_resolution_namespace-IsFresh :
        (w : World T)
        → (publish_resolution_namespace c q (child d name) write_cache w).0 ≡ ok tt
        → IsFresh c q
            (publish_resolution_namespace c q (child d name) write_cache w).1.fs
            (child d name)
    unfolding publish_resolution_namespace
    publish_resolution_namespace-IsFresh w h =
        let (_, good, same) = >>-next (acquire_namespace_lock (child d name)) _ w tt h in
        let v : World T = (acquire_namespace_lock (child d name) w).1 in
        let (fresh, looked, good', same') =
          >>=-next (resolution_cache_is_fresh c q (child d name))
            (λ fresh. if fresh then pure tt else rebuild write_cache) v tt good in
        let u : World T = (resolution_cache_is_fresh c q (child d name) v).1 in
        let files : u.fs ≡ v.fs =
          ((resolution_cache_is_fresh-IsReader c q (child d name)).at v).fs in
        rw (ap (λ r. r.1.fs) (same ∙ same')) (
          looked-IsFresh fresh u
            (λ is.
              rw files (resolution_cache_is_fresh-eq-true c q (child d name) v (looked ∙ ap ok is)))
            good')
