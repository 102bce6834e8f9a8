-- ===== src/CascCache/Lock.antt =====
-- src/casc_cache.rs: taking the lock of a namespace leaves the namespace as it is.
use asset_resolver.Base.{
  ◌≡◌, ◌≢◌, refl, ap, ◌∙◌, arith, Text, txt, FilePath, normal, path, join, IsSlashFree, All-append,
  length, length-append, path-IsName, join-IsPlain, [], ◌∷◌, ◌++◌, ok_or,
}
use asset_resolver.World.Fs.{FileSystem, Node, absent, dir, file, put}
use asset_resolver.World.Io.{World, Answer, ok, pure, set_fs, throw, io_steps, create_dir_all}
use asset_resolver.World.Effects.{put-other, create_dir_all-Keeps}
use asset_resolver.World.Files.{
  Preserves, Leaves, preserves_rules, then-Preserves, map_err-Preserves, pure-Preserves,
  value-Preserves, fallible-Leaves, fallible-IsQuiet, create_dir_all-IsQuiet, IsQuiet,
}
use asset_resolver.Resolver.TemporaryPath.{parent_lem, file_name_lem}
use asset_resolver.CascCache.Publish.{acquire_namespace_lock, parent_of, name_of, open_lock}
use asset_resolver.CascCache.PublishLaws.{SameBelow}

abbrev pub child : FilePath → Text → FilePath
child d name = d ++ (normal name ∷ [])

-- What lies below a path is not its sibling.
below_other :
    (d : FilePath) (a b : Text) (x : FilePath)
    → a ≢ b
    → ((d ++ (normal a ∷ [])) ++ x) ≢ (d ++ (normal b ∷ []))
below_other [] a b x other same = other (cc same)
below_other (c ∷ d) a b x other same = below_other d a b x other (cc same)

-- The files below a path are those of an earlier file system.
abbrev pub Unchanged : FileSystem → FilePath → FileSystem → Type 0
Unchanged before casc_dir fs = SameBelow fs casc_dir before casc_dir

-- The file whose lock a publisher holds.
abbrev lock_name : Text → Text
lock_name name = txt "." ++ (name ++ txt ".lock")

lock_path_lem :
    (d : FilePath) (name : Text)
    → IsSlashFree name
    → join d (path (lock_name name)) ≡ d ++ (normal (lock_name name) ∷ [])
unfolding txt
lock_path_lem d name h =
    rw
      (path-IsName (lock_name name) (record {
        no_slash = (refl, All-append _ name _ h (refl, (refl, (refl, (refl, (refl, tt))))));
        long = omega (arith, length-append name (txt ".lock"));
      }))
      (join-IsPlain d (normal (lock_name name) ∷ []) (refl, tt))

lock_name-other : (name : Text) → name ≢ lock_name name
unfolding txt
lock_name-other name same = omega (arith, ap length same, length-append name (txt ".lock"))

module _ {T : Type 0} (before : FileSystem) (d : FilePath) (name : Text) where
  parents-Unchanged : Leaves {T = T} (Unchanged before (child d name)) (create_dir_all d)
  parents-Unchanged = record {
    at = λ w h x.
        let (_, kept, _) =
          create_dir_all-Keeps d ((child d name) ++ x) w
            (omega (arith, length-append (child d name) x, length-append d (normal name ∷ []))) in
        kept ∙ h x;
  }

  opened-Unchanged :
      (n : Node) (lock : Text) (w : World T)
      → name ≢ lock
      → Unchanged before (child d name) w.fs
      → Unchanged before (child d name) (
          let step : Answer (Unit {0}) × World T = elim n [
            | file _ _ ↦ pure tt w
            | dir ↦ throw (txt "Is a directory (os error 21)") w
            | absent ↦ (ok tt, set_fs (put w.fs (d ++ (normal lock ∷ [])) (file [] w.now)) w)
          ] in
          step.1.fs)
  unfolding io_steps set_fs
  opened-Unchanged (file _ _) lock w other h = h
  opened-Unchanged dir lock w other h = h
  opened-Unchanged absent lock w other h =
      λ x. put-other w.fs _ ((child d name) ++ x) _ (below_other d name lock x other) ∙ h x

  at_lock :
      (lock : Text)
      → name ≢ lock
      → Leaves {T = T} (Unchanged before (child d name)) (open_lock (child d lock))
  unfolding open_lock
  at_lock lock other =
      fallible-Leaves (Unchanged before (child d name))
        (record { at = λ w. opened-Unchanged (w.fs (d ++ (normal lock ∷ []))) lock w other })

  open_lock-Unchanged :
      (lock : Text) (p : FilePath)
      → name ≢ lock
      → p ≡ child d lock
      → Leaves {T = T} (Unchanged before (child d name)) (open_lock p)
  open_lock-Unchanged lock p other same = rw same (at_lock lock other)

  pub acquire_namespace_lock-Unchanged :
      IsSlashFree name
      → Leaves {T = T} (Unchanged before (child d name)) (acquire_namespace_lock (child d name))
  unfolding acquire_namespace_lock parent_of name_of open_lock
  acquire_namespace_lock-Unchanged slash =
      value-Preserves _ d _ (ap (ok_or _) (parent_lem d name)) (
        then-Preserves (map_err-Preserves _ parents-Unchanged) (
          value-Preserves _ name _ (ap (ok_or _) (file_name_lem d name)) (
            then-Preserves
              (map_err-Preserves _ (
                open_lock-Unchanged (lock_name name) _ (lock_name-other name)
                  (lock_path_lem d name slash)))
              (map_err-Preserves _
                (fallible-Leaves (Unchanged before (child d name)) (pure-Preserves tt))))))

  locked-IsQuiet :
      (n : Node) (p : FilePath) (w : World T)
      → IsQuiet w
      → IsQuiet (
          let step : Answer (Unit {0}) × World T = elim n [
            | file _ _ ↦ pure tt w
            | dir ↦ throw (txt "Is a directory (os error 21)") w
            | absent ↦ (ok tt, set_fs (put w.fs p (file [] w.now)) w)
          ] in
          step.1)
  unfolding io_steps set_fs
  locked-IsQuiet (file _ _) p w h = h
  locked-IsQuiet dir p w h = h
  locked-IsQuiet absent p w h = h

  open_lock-IsQuiet : (p : FilePath) → Preserves {T = T} IsQuiet (open_lock p)
  unfolding open_lock
  open_lock-IsQuiet p = fallible-IsQuiet (record { at = λ w. locked-IsQuiet (w.fs p) p w })

  pub acquire_namespace_lock-IsQuiet :
      (p : FilePath) → Preserves {T = T} IsQuiet (acquire_namespace_lock p)
  unfolding acquire_namespace_lock parent_of name_of open_lock
  acquire_namespace_lock-IsQuiet p =
      search (preserves_rules, create_dir_all-IsQuiet, open_lock-IsQuiet, fallible-IsQuiet) depth 14
