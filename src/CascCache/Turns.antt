-- ===== src/CascCache/Turns.antt =====
-- src/casc_cache.rs: processes take turns at a namespace, each under its lock.
use asset_resolver.Base.{◌≡◌, refl, ap, ◌∙◌, Text, FilePath, IsSlashFree, ◌++◌}
use asset_resolver.World.Fs.{FileSystem}
use asset_resolver.World.Io.{World, Io, Answer, ok, err, panicked, ◌>>=◌, ◌>>◌, io_steps}
use asset_resolver.World.Chains.{>>=-ok, pure_step}
use asset_resolver.World.Files.{IsQuiet}
use asset_resolver.Casc.{Cascette}
use asset_resolver.Sqlite.{Sqlite}
use asset_resolver.CascCache.Fresh.{IsFresh}
use asset_resolver.CascCache.Reuse.{resolution_cache_is_fresh-quiet}
use asset_resolver.CascCache.Publish.{acquire_namespace_lock, publish_resolution_namespace}
use asset_resolver.CascCache.PublishLaws.{moved-IsFresh}
use asset_resolver.CascCache.Lock.{
  child, Unchanged, acquire_namespace_lock-Unchanged, acquire_namespace_lock-IsQuiet,
}

ends_after_answer :
    {T : Type 0} (r : Answer (Unit {0}) × World T) (k : Io T (Unit {0})) (w : World T)
    → k r.1 ≡ (ok tt, r.1)
    → ◌>>=◌ (λ _. r) (λ _. k) w ≡ r
unfolding io_steps
ends_after_answer (ok tt, w') k w h = h
ends_after_answer (err e, w') k w h = refl
ends_after_answer (panicked, w') k w h = refl

-- A chain whose second step does nothing is its first.
ends_after :
    {T : Type 0} (m k : Io T (Unit {0})) (w : World T)
    → k (m w).1 ≡ (ok tt, (m w).1)
    → (m >> k) w ≡ m w
unfolding io_steps
ends_after m k w h = ends_after_answer (m w) k w h

module _ (c : Cascette) (q : Sqlite) where
  kept-IsFresh :
      (fs before : FileSystem) (p : FilePath)
      → Unchanged before p fs
      → IsFresh c q before p
      → IsFresh c q fs p
  kept-IsFresh fs before p same h = moved-IsFresh c q fs before p p same h

  -- A process's turn at the namespace: it publishes, with any builder; or the turn passes to another
  -- process, with its own clock, environment and statics, which finds the same files.
  pub data Turn {T : Type 0} (casc_dir : FilePath) : World T → World T → Type 0 where
    publishes :
        (write_cache : FilePath → Io T (Unit {0})) (w : World T)
        → Turn casc_dir w (publish_resolution_namespace c q casc_dir write_cache w).1
    passes : {w w' : World T} → w'.fs ≡ w.fs → IsQuiet w' → Turn casc_dir w w'

  pub data Turns {T : Type 0} (casc_dir : FilePath) (w : World T) : World T → Type 0 where
    here : Turns casc_dir w w
    next : {u v : World T} → Turns casc_dir w u → Turn casc_dir u v → Turns casc_dir w v

  module _ {T : Type 0} (d : FilePath) (name : Text) (slash : IsSlashFree name) where
    -- Where nothing is refused, the publication of a namespace that is complete is no more than taking
    -- its lock, whatever its builder would do.
    publish_resolution_namespace-reuses :
        (write_cache : FilePath → Io T (Unit {0})) (w : World T)
        → IsQuiet w
        → IsFresh c q w.fs (child d name)
        → publish_resolution_namespace c q (child d name) write_cache w
          ≡ acquire_namespace_lock (child d name) w
    unfolding publish_resolution_namespace
    publish_resolution_namespace-reuses write_cache w quiet fresh =
        let v : World T = (acquire_namespace_lock (child d name) w).1 in
        let still = (acquire_namespace_lock-Unchanged w.fs d name slash).at w (λ x. refl) in
        ends_after _ _ w (
          >>=-ok _ _ (
            resolution_cache_is_fresh-quiet c q (child d name) v
              ((acquire_namespace_lock-IsQuiet w.fs d name (child d name)).at w quiet)
              (kept-IsFresh v.fs w.fs (child d name) still fresh))
          ∙ pure_step tt v)

    -- What holds between two turns at a complete namespace
    abbrev IsKept : FileSystem → World T → Type 0
    IsKept before w =
        Unchanged before (child d name) w.fs × IsQuiet w × IsFresh c q w.fs (child d name)

    Turn-IsKept :
        (before : FileSystem) {w w' : World T}
        → Turn (child d name) w w'
        → IsKept before w
        → IsKept before w'
    Turn-IsKept before (publishes write_cache w) (same, quiet, fresh) =
        let only_locks : (publish_resolution_namespace c q (child d name) write_cache w).1
            ≡ (acquire_namespace_lock (child d name) w).1 =
          ap (λ r. r.1) (publish_resolution_namespace-reuses write_cache w quiet fresh) in
        let v : World T = (acquire_namespace_lock (child d name) w).1 in
        let still = (acquire_namespace_lock-Unchanged w.fs d name slash).at w (λ x. refl) in
        rw only_locks (
          λ x. still x ∙ same x,
          (acquire_namespace_lock-IsQuiet w.fs d name (child d name)).at w quiet,
          kept-IsFresh v.fs w.fs (child d name) still fresh,
        )
    Turn-IsKept before (passes {w = w} {w' = w'} files quiet') (same, quiet, fresh) =
        (λ x. ap (λ fs. fs (child d name ++ x)) files ∙ same x, quiet', rw files fresh)

    Turns-IsKept : {w w' : World T} → Turns (child d name) w w' → IsKept w.fs w → IsKept w.fs w'
    Turns-IsKept here h = h
    Turns-IsKept {w = w} (next turns turn) h = Turn-IsKept w.fs turn (Turns-IsKept turns h)

    -- A complete namespace is immutable: however many processes publish it in turn, whatever their
    -- builders do, its files stay as they are, where the system refuses no operation and the name of the
    -- namespace is one component.
    pub Turns-Unchanged :
        (w w' : World T)
        → IsQuiet w
        → IsFresh c q w.fs (child d name)
        → Turns (child d name) w w'
        → Unchanged w.fs (child d name) w'.fs × IsFresh c q w'.fs (child d name)
    Turns-Unchanged w w' quiet fresh turns =
        let (same, _, still) = Turns-IsKept turns (λ x. refl, quiet, fresh) in (same, still)
