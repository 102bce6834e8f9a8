-- ===== src/World/Directories.antt =====
-- The making of a directory leaves files, and all that does not lie above it, as they are.
use asset_resolver.Base.{
  ℕ, suc, ◌<◌, ◌≡◌, refl, sym, Component, cur_dir, parent_dir, normal, txt, ◌∙◌, ap, arith, Text,
  FilePath, parent, root_dir, Option, none, some, List, [], ◌∷◌, length, Bool-cases, true, inl, inr,
  ◌==◌, list_eq, component_eq, same_list_iff,
}
use asset_resolver.World.Fs.{
  FileSystem, Node, node_exists, absent, dir, file, put, make_dirs, ancestors,
}
use asset_resolver.World.Io.{
  World, Io, Answer, ok, err, panicked, map_err, attempt, fallible, next_fault, later_faults,
  create_dir_all, set_fs, throw, io_steps,
}

abbrev size : Option FilePath → ℕ
size none = 0
size (some p) = length p

parent_cons :
    (c : Component) (o : Option FilePath) (p above : FilePath)
    → ((q : FilePath) → o ≡ some q → length q < length p)
    → elim o [ none ↦ none | some q ↦ some (c ∷ q) ] ≡ some above
    → length above < suc (length p)
parent_cons c none p above h k = absurd (cc k)
parent_cons c (some q) p above h k = omega (arith, h q refl, ap size k)

-- A parent is shorter.
pub parent-length : (p above : FilePath) → parent p ≡ some above → length above < length p
unfolding parent
parent-length [] above h = absurd (cc h)
parent-length (root_dir ∷ []) above h = absurd (cc h)
parent-length (cur_dir ∷ []) above h = omega (arith, ap size h)
parent-length (parent_dir ∷ []) above h = omega (arith, ap size h)
parent-length (normal t ∷ []) above h = omega (arith, ap size h)
parent-length (c ∷ d ∷ p) above h =
    parent_cons c (parent (d ∷ p)) (d ∷ p) above (parent-length (d ∷ p)) h

put_dir-present :
    (fs : FileSystem) (p q : FilePath) (n : Node)
    → node_exists n ≡ true
    → fs p ≡ absent
    → fs q ≡ n
    → put fs p dir q ≡ n
unfolding put
put_dir-present fs p q n seen free there = elim (Bool-cases (q == p)) [
  | inl same ↦ absurd (
      cc (
        seen,
        ap node_exists free,
        ap node_exists there,
        ap (λ x. node_exists (fs x)) ((same_list_iff q p).0 same),
      ))
  | inr differ ↦ rw differ there
]

made_at :
    (n : Node) (here later : Option FileSystem) (made : FileSystem) (q : FilePath) (kept : Node)
    → (here ≡ some made → made q ≡ kept)
    → (n ≡ absent → later ≡ some made → made q ≡ kept)
    → elim n [ absent ↦ later | dir ↦ here | file _ _ ↦ none ] ≡ some made
    → made q ≡ kept
made_at absent here later made q kept h k e = k refl e
made_at dir here later made q kept h k e = h e
made_at (file _ _) here later made q kept h k e = absurd (cc e)

make_dirs-present :
    (ps : List FilePath) (fs made : FileSystem) (q : FilePath) (n : Node)
    → node_exists n ≡ true
    → make_dirs ps fs ≡ some made
    → fs q ≡ n
    → made q ≡ n
unfolding make_dirs
make_dirs-present [] fs made q n seen h there =
    ap (λ o. elim o [ none ↦ absent | some g ↦ g q ]) (sym h) ∙ there
make_dirs-present (p ∷ ps) fs made q n seen h there =
    made_at (fs p) (make_dirs ps fs) (make_dirs ps (put fs p dir)) made q n
      (λ here. make_dirs-present ps fs made q n seen here there)
      (λ free later.
        make_dirs-present ps (put fs p dir) made q n seen later
          (put_dir-present fs p q n seen free there))
      h

-- create_dir_all, where the system does not refuse it
abbrev making : {T : Type 0} → FilePath → Io T (Unit {0})
making p w = elim (make_dirs (ancestors [] p) w.fs) [
  | none ↦ throw (txt "File exists (os error 17)") w
  | some fs ↦ (ok tt, set_fs fs w)
]

module _ {T : Type 0} (q : FilePath) (n : Node) (seen : node_exists n ≡ true) where
  dirs_made :
      (made : Option FileSystem) (w : World T)
      → ((fs : FileSystem) → made ≡ some fs → fs q ≡ n)
      → w.fs q ≡ n
      → (let step : Answer (Unit {0}) × World T = elim made [
        | none ↦ throw (txt "File exists (os error 17)") w
        | some fs ↦ (ok tt, set_fs fs w)
      ] in
          step.1.fs q)
        ≡ n
  unfolding throw set_fs
  dirs_made none w h there = there
  dirs_made (some fs) w h there = h fs refl

  after_fault :
      (fault : Option Text) (m : Io T (Unit {0})) (w : World T)
      → w.fs q ≡ n
      → (m w).1.fs q ≡ n
      → (let step : Answer (Unit {0}) × World T = elim fault [ some e ↦ (err e, w) | none ↦ m w ] in
          step.1.fs q)
        ≡ n
  after_fault none m w there h = h
  after_fault (some e) m w there h = there

  -- What is there stays where it is.
  pub create_dir_all-present :
      (p : FilePath) (w : World T) → w.fs q ≡ n → (create_dir_all p w).1.fs q ≡ n
  unfolding create_dir_all fallible
  create_dir_all-present p w there =
      after_fault (next_fault w.faults) (making p) (record w { faults = later_faults w.faults })
        there
        (dirs_made (make_dirs (ancestors [] p) w.fs) (record w { faults = later_faults w.faults })
          (λ fs made. make_dirs-present (ancestors [] p) w.fs fs q n seen made there) there)

-- A file stays where it is.
pub create_dir_all-file :
    {T : Type 0} (q : FilePath) (content : Text) (t : ℕ) (p : FilePath) (w : World T)
    → w.fs q ≡ file content t
    → (create_dir_all p w).1.fs q ≡ file content t
create_dir_all-file q content t = create_dir_all-present q (file content t) refl

answered :
    {T A : Type 0} (f : Text → Text) (r : Answer A × World T) (w : World T)
    → (map_err f (λ _. r) w).1 ≡ r.1
unfolding io_steps
answered f (ok x, w') w = refl
answered f (err e, w') w = refl
answered f (panicked, w') w = refl

-- `map_err` leaves the world to its step.
pub map_err-world :
    {T A : Type 0} (f : Text → Text) (m : Io T A) (w : World T) → (map_err f m w).1 ≡ (m w).1
unfolding io_steps
map_err-world f m w = answered f (m w) w

tried : {T A : Type 0} (r : Answer A × World T) (w : World T) → (attempt (λ _. r) w).1 ≡ r.1
unfolding io_steps
tried (ok x, w') w = refl
tried (err e, w') w = refl
tried (panicked, w') w = refl

-- So does `attempt`.
pub attempt-world : {T A : Type 0} (m : Io T A) (w : World T) → (attempt m w).1 ≡ (m w).1
unfolding io_steps
attempt-world m w = tried (m w) w
