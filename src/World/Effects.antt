-- ===== src/World/Effects.antt =====
-- What the operations that change the file system leave there.
use asset_resolver.Base.{
  ℕ, ◌<◌, ◌+◌, sym, ◌≢◌, List, [], ◌∷◌, ◌++◌, All, length, length-append, same_list_iff, ◌≡◌, refl,
  ap, ◌∙◌, ◌⊎◌, inl, inr, arith, Text, txt, FilePath, Option, none, some, Bool, Bool-cases, true,
  false, not, ◌==◌, eq_refl, list_eq, component_eq, if◌then◌else◌,
}
use asset_resolver.World.Fs.{
  FileSystem, Node, absent, dir, file, put, node_is_dir, node_exists, parent_is_dir, make_dirs,
  ancestors, moved, removed, node_is_file,
}
use asset_resolver.World.Io.{
  World, Io, Answer, throw, ok, err, fallible, next_fault, later_faults, set_fs, rename,
  remove_file, create_dir_all, create_dir, remove_dir_all,
}

pub put-same : (fs : FileSystem) (p : FilePath) (n : Node) → put fs p n p ≡ n
unfolding put
put-same fs p n = rw (eq_refl p) refl

pub put-other : (fs : FileSystem) (p q : FilePath) (n : Node) → q ≢ p → put fs p n q ≡ fs q
unfolding put
put-other fs p q n h = elim (Bool-cases (q == p)) [
  | inl same ↦ absurd (h ((same_list_iff q p).0 same))
  | inr other ↦ rw other refl
]

module _ {T : Type 0} where
  abbrev spend : World T → World T
  spend w = record w { faults = later_faults w.faults }

  -- A step that either succeeds and leaves `good`, or fails and leaves the file system as it was.
  abbrev pub Does : FileSystem → World T → Answer (Unit {0}) × World T → Type 0
  Does good w r = ((r.0 ≡ ok tt) × (r.1.fs ≡ good)) ⊎ ((e : Text) × (r.0 ≡ err e) × (r.1.fs ≡ w.fs))

  fault-Does :
      (good : FileSystem) (w w' : World T) (fault : Option Text) (m : Io T (Unit {0}))
      → w'.fs ≡ w.fs
      → Does good w (m w')
      → let step : Answer (Unit {0}) × World T = elim fault [
        | some e ↦ (err e, w')
        | none ↦ m w'
      ] in
        Does good w step
  fault-Does good w w' none m h k = k
  fault-Does good w w' (some e) m h k = inr (e, refl, h)

  fallible-Does :
      (good : FileSystem) (m : Io T (Unit {0})) (w : World T)
      → Does good w (m (spend w))
      → Does good w (fallible m w)
  unfolding fallible
  fallible-Does good m w h = fault-Does good w (spend w) (next_fault w.faults) m refl h

  if-Does :
      (good : FileSystem) (w : World T) (b : Bool) (x y : Answer (Unit {0}) × World T)
      → Does good w x
      → Does good w y
      → Does good w (if b then x else y)
  if-Does good w true x y h k = h
  if-Does good w false x y h k = k

  throw-Does :
      (good : FileSystem) (w w' : World T) (e : Text) → w'.fs ≡ w.fs → Does good w (throw e w')
  unfolding throw
  throw-Does good w w' e h = inr (e, refl, h)

  -- A rename of a file moves it over what is there, or fails and changes no file.
  pub rename-Does :
      (src dst : FilePath) (content : Text) (t : ℕ) (w : World T)
      → w.fs src ≡ file content t
      → Does (put (put w.fs src absent) dst (file content t)) w (rename src dst w)
  unfolding rename set_fs
  rename-Does src dst content t w h = fallible-Does _ _ w (
      rw h (
        if-Does _ w (node_is_dir (w.fs dst)) _ _ (throw-Does _ w (spend w) _ refl) (
          if-Does _ w (not (parent_is_dir w.fs dst)) _ _ (throw-Does _ w (spend w) _ refl)
            (inl (refl, refl)))))

  -- A rename of a directory moves all that lies in it, or fails and changes no file.
  pub rename-Does_dir :
      (src dst : FilePath) (w : World T)
      → w.fs src ≡ dir
      → Does (moved w.fs src dst) w (rename src dst w)
  unfolding rename set_fs
  rename-Does_dir src dst w h = fallible-Does _ _ w (
      rw h (
        if-Does _ w (node_exists (w.fs dst)) _ _ (throw-Does _ w (spend w) _ refl) (
          if-Does _ w (not (parent_is_dir w.fs dst)) _ _ (throw-Does _ w (spend w) _ refl)
            (inl (refl, refl)))))

  -- The removal of a directory leaves nothing in it, or fails and changes no file.
  pub remove_dir_all-Does :
      (p : FilePath) (w : World T) → Does (removed w.fs p) w (remove_dir_all p w)
  unfolding remove_dir_all set_fs
  remove_dir_all-Does p w =
      fallible-Does _ _ w (
        if-Does _ w (node_is_dir (w.fs p)) _ _ (inl (refl, refl)) (throw-Does _ w (spend w) _ refl))

  -- A directory is made where nothing is, or nothing changes.
  pub create_dir-Does : (p : FilePath) (w : World T) → Does (put w.fs p dir) w (create_dir p w)
  unfolding create_dir set_fs
  create_dir-Does p w = fallible-Does _ _ w (
      if-Does _ w (node_exists (w.fs p)) _ _ (throw-Does _ w (spend w) _ refl) (
        if-Does _ w (not (parent_is_dir w.fs p)) _ _ (throw-Does _ w (spend w) _ refl)
          (inl (refl, refl))))

  -- The removal of a file leaves nothing there, or fails and changes no file.
  pub remove_file-Does : (p : FilePath) (w : World T) → Does (put w.fs p absent) w (remove_file p w)
  unfolding remove_file set_fs
  remove_file-Does p w =
      fallible-Does _ _ w (
        if-Does _ w (node_is_file (w.fs p)) _ _ (inl (refl, refl))
          (throw-Does _ w (spend w) _ refl))

dirs_at_node :
    (n : Node) (now later : Option FileSystem) (fs' : FileSystem) {P : Type 0}
    → (now ≡ some fs' → P)
    → (later ≡ some fs' → P)
    → (let after : Option FileSystem = elim n [ file _ _ ↦ none | dir ↦ now | absent ↦ later ] in
        after)
      ≡ some fs'
    → P
dirs_at_node absent now later fs' h k e = k e
dirs_at_node dir now later fs' h k e = h e
dirs_at_node (file _ _) now later fs' h k e = absurd (cc e)

make_dirs_kept :
    (ps : List FilePath) (fs : FileSystem) (q : FilePath) (fs' : FileSystem)
    → All (λ p. q ≢ p) ps
    → make_dirs ps fs ≡ some fs'
    → fs' q ≡ fs q
unfolding make_dirs
make_dirs_kept [] fs q fs' h e = ap (λ f. elim f [ none ↦ absent | some g ↦ g q ]) (sym e)
make_dirs_kept (p ∷ ps) fs q fs' h e =
    dirs_at_node (fs p) (make_dirs ps fs) (make_dirs ps (put fs p dir)) fs'
      (make_dirs_kept ps fs q fs' h.1)
      (λ later. make_dirs_kept ps (put fs p dir) q fs' h.1 later ∙ put-other fs p q dir h.0) e

-- No parent of a path, and not the path itself, is a longer path.
ancestors_short :
    (behind p q : FilePath)
    → length behind + length p < length q
    → All (λ r. q ≢ r) (ancestors behind p)
unfolding ancestors
ancestors_short behind [] q h = tt
ancestors_short behind (c ∷ p) q h = (
  λ same. omega (arith, h, ap length same, length-append behind (c ∷ [])),
  ancestors_short (behind ++ (c ∷ [])) p q (omega (arith, h, length-append behind (c ∷ []))),
)

-- The step answers, and leaves a path and the clock as they were.
abbrev pub Keeps : {T : Type 0} → FilePath → World T → Answer (Unit {0}) × World T → Type 0
Keeps q w r =
    ((r.0 ≡ ok tt) ⊎ ((e : Text) × (r.0 ≡ err e))) × (r.1.fs q ≡ w.fs q) × (r.1.now ≡ w.now)

module _ {T : Type 0} where
  fault-Keeps :
      (q : FilePath) (w w' : World T) (fault : Option Text) (m : Io T (Unit {0}))
      → w'.fs ≡ w.fs
      → w'.now ≡ w.now
      → Keeps q w (m w')
      → let step : Answer (Unit {0}) × World T = elim fault [
        | some e ↦ (err e, w')
        | none ↦ m w'
      ] in
        Keeps q w step
  fault-Keeps q w w' none m h t k = k
  fault-Keeps q w w' (some e) m h t k = (inr (e, refl), ap (λ fs. fs q) h, t)

  fallible-Keeps :
      (q : FilePath) (m : Io T (Unit {0})) (w : World T)
      → Keeps q w (m (spend w))
      → Keeps q w (fallible m w)
  unfolding fallible
  fallible-Keeps q m w h = fault-Keeps q w (spend w) (next_fault w.faults) m refl refl h

  made-Keeps :
      (q : FilePath) (w w' : World T) (made : Option FileSystem)
      → w'.fs ≡ w.fs
      → w'.now ≡ w.now
      → ((fs : FileSystem) → made ≡ some fs → fs q ≡ w.fs q)
      → Keeps q w (
          let step : Answer (Unit {0}) × World T = elim made [
            | none ↦ throw (txt "File exists (os error 17)") w'
            | some fs ↦ (ok tt, set_fs fs w')
          ] in
          step)
  unfolding throw set_fs
  made-Keeps q w w' none h t k = (inr (_, refl), ap (λ fs. fs q) h, t)
  made-Keeps q w w' (some fs) h t k = (inl refl, k fs refl, t)

  -- The making of a directory and its parents changes nothing at a longer path.
  pub create_dir_all-Keeps :
      (p q : FilePath) (w : World T) → length p < length q → Keeps q w (create_dir_all p w)
  unfolding create_dir_all
  create_dir_all-Keeps p q w h = fallible-Keeps q _ w (
      made-Keeps q w (spend w) (make_dirs (ancestors [] p) w.fs) refl refl (λ fs made.
        make_dirs_kept (ancestors [] p) w.fs q fs (ancestors_short [] p q (omega (arith, h))) made))
