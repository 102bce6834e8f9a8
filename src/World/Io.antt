-- ===== src/World/Io.antt =====
-- Computations on the world, with the errors and the panics of the program.
use asset_resolver.Base.{
  ℕ, ◌+◌, ◌≡◌, ◌≢◌, refl, ◌⊎◌, inl, inr, Text, txt, FilePath, parent, Option, none, some, Bool,
  true, false, ◌||◌, ◌&&◌, not, List, [], ◌∷◌, ◌++◌, Result, if◌then◌else◌,
}
use asset_resolver.Base
use asset_resolver.RuntimeMode.{EnvVar, Process, Run}
use asset_resolver.World.Fs.{
  FileSystem, Node, absent, dir, file, node_exists, node_is_dir, node_is_file, parent_is_dir, put,
  make_dirs, ancestors, moved, removed,
}

-- `faults` says of each coming operation of the file system that can fail whether the system refuses
-- it, and with which error; past its end none is refused. `now` is the second and
-- `subsec_nanos` the rest of the time since the Unix epoch. `install_path` is the static
-- WOW_INSTALL_PATH, `next_temporary` the static NEXT_TEMPORARY, `T` are the statics of the client.
pub record World (T : Type 0) : Type 0 where
  pub process : Process
  pub env : Text → EnvVar
  pub fs : FileSystem
  pub now : ℕ
  pub subsec_nanos : ℕ
  pub install_path : Option (Option FilePath)
  pub next_temporary : ℕ
  pub process_id : ℕ
  pub faults : List (Option Text)
  pub log : List Text
  pub statics : T

pub data Answer (A : Type 0) : Type 0 where
  ok : A → Answer A
  err : Text → Answer A
  panicked : Answer A

-- An answer is a value, or is no value.
pub Answer-cases : {A : Type 0} (r : Answer A) → ((a : A) × (r ≡ ok a)) ⊎ ((a : A) → r ≢ ok a)
Answer-cases (ok a) = inl (a, refl)
Answer-cases (err e) = inr (λ a h. cc)
Answer-cases panicked = inr (λ a h. cc)

abbrev pub Io : Type 0 → Type 0 → Type 0
Io T A = World T → Answer A × World T

infixl 5 ◌>>=◌ ◌>>◌
unfoldable pub ◌>>=◌ : {T A B : Type 0} → Io T A → (A → Io T B) → Io T B
◌>>=◌ m f w =
    let (a, w') = m w in elim a [ ok x ↦ f x w' | err e ↦ (err e, w') | panicked ↦ (panicked, w') ]

unfoldable pub ◌>>◌ : {T B : Type 0} → Io T (Unit {0}) → Io T B → Io T B
m >> k = m >>= λ _. k

unfoldable pub pure : {T A : Type 0} → A → Io T A
pure a w = (ok a, w)

unfoldable pub throw : {T A : Type 0} → Text → Io T A
throw e w = (err e, w)

unfoldable pub lift : {T A : Type 0} → Result A → Io T A
lift (Base.ok a) w = (ok a, w)
lift (Base.err e) w = (err e, w)

-- `match` on a result: an error is a value, and a panic goes on.
unfoldable pub attempt : {T A : Type 0} → Io T A → Io T (Result A)
attempt m w =
    let (a, w') = m w in
    elim a [
      | ok x ↦ (ok (Base.ok x), w')
      | err e ↦ (ok (Base.err e), w')
      | panicked ↦ (panicked, w')
    ]

unfoldable pub map_err : {T A : Type 0} → (Text → Text) → Io T A → Io T A
map_err f m w =
    let (a, w') = m w in
    elim a [ ok x ↦ (ok x, w') | err e ↦ (err (f e), w') | panicked ↦ (panicked, w') ]

unfoldable pub gets : {T A : Type 0} → (World T → A) → Io T A
gets f w = (ok (f w), w)

unfoldable pub modify : {T : Type 0} → (World T → World T) → Io T (Unit {0})
modify f w = (ok tt, f w)

-- A computation on the statics of src/runtime_mode.rs.
unfoldable pub run : {T A : Type 0} → Run A → Io T A
run m w =
    let (a, p) = m w.process in
    let w' = record w { process = p } in elim a [ none ↦ (panicked, w') | some x ↦ (ok x, w') ]

-- The same world with other statics.
abbrev pub with_statics : {T U : Type 0} → World T → U → World U
with_statics w u = record {
  process = w.process;
  env = w.env;
  fs = w.fs;
  now = w.now;
  subsec_nanos = w.subsec_nanos;
  install_path = w.install_path;
  next_temporary = w.next_temporary;
  process_id = w.process_id;
  faults = w.faults;
  log = w.log;
  statics = u;
}

-- eprintln!
unfoldable pub eprintln : {T : Type 0} → Text → Io T (Unit {0})
eprintln line w = (ok tt, record w { log = w.log ++ (line ∷ []) })

unfoldable pub exists : {T : Type 0} → FilePath → Io T Bool
exists p w = (ok (node_exists (w.fs p)), w)

unfoldable pub is_dir : {T : Type 0} → FilePath → Io T Bool
is_dir p w = (ok (node_is_dir (w.fs p)), w)

unfoldable pub is_file : {T : Type 0} → FilePath → Io T Bool
is_file p w = (ok (node_is_file (w.fs p)), w)

abbrev pub next_fault : List (Option Text) → Option Text
next_fault [] = none
next_fault (f ∷ _) = f

abbrev pub later_faults : List (Option Text) → List (Option Text)
later_faults [] = []
later_faults (_ ∷ fs) = fs

-- Named by a proof that computes with the steps above.
unfoldable pub io_steps : Unit {0}
unfolding ◌>>=◌ ◌>>◌ pure throw lift attempt map_err gets modify run eprintln exists is_dir is_file
io_steps = tt

-- An operation that the system may refuse; a refused one has no effect.
unfoldable pub fallible : {T A : Type 0} → Io T A → Io T A
fallible {T = T} m w =
    let w' : World T = record w { faults = later_faults w.faults } in
    elim (next_fault w.faults) [ some e ↦ (err e, w') | none ↦ m w' ]

unfoldable pub set_fs : {T : Type 0} → FileSystem → World T → World T
set_fs fs w = record w { fs = fs }

unfoldable pub read_node : {T : Type 0} → Node → Io T Text
read_node absent = throw (txt "No such file or directory (os error 2)")
read_node dir = throw (txt "Is a directory (os error 21)")
read_node (file content _) = pure content

-- std::fs::read, and read_to_string on UTF-8
unfoldable pub read : {T : Type 0} → FilePath → Io T Text
read p = fallible (λ w. read_node (w.fs p) w)

-- File::create: an empty file, in place of one that was there
unfoldable pub create_file : {T : Type 0} → FilePath → Io T (Unit {0})
create_file p = fallible λ w.
    if not (parent_is_dir w.fs p)
    then throw (txt "No such file or directory (os error 2)") w
    else if node_is_dir (w.fs p)
    then throw (txt "Is a directory (os error 21)") w
    else (ok tt, set_fs (put w.fs p (file [] w.now)) w)

-- One more byte behind those that are done
unfoldable pub write_byte : {T : Type 0} → FilePath → Text → ℕ → Io T (Unit {0})
write_byte p done b = fallible λ w. (ok tt, set_fs (put w.fs p (file (done ++ (b ∷ [])) w.now)) w)

-- Write::write_all, which can be refused behind any byte
unfoldable pub write_all : {T : Type 0} → FilePath → Text → Text → Io T (Unit {0})
write_all p done [] = pure tt
write_all p done (b ∷ bs) = do write_byte p done b; write_all p (done ++ (b ∷ [])) bs

-- std::fs::write: what is refused can leave a part of the file.
unfoldable pub write : {T : Type 0} → FilePath → Text → Io T (Unit {0})
write p content = do create_file p; write_all p [] content

-- std::fs::create_dir_all
unfoldable pub create_dir_all : {T : Type 0} → FilePath → Io T (Unit {0})
create_dir_all p = fallible λ w. elim (make_dirs (ancestors [] p) w.fs) [
  | none ↦ throw (txt "File exists (os error 17)") w
  | some fs ↦ (ok tt, set_fs fs w)
]

-- std::fs::create_dir
unfoldable pub create_dir : {T : Type 0} → FilePath → Io T (Unit {0})
create_dir p = fallible λ w.
    if node_exists (w.fs p)
    then throw (txt "File exists (os error 17)") w
    else if not (parent_is_dir w.fs p)
    then throw (txt "No such file or directory (os error 2)") w
    else (ok tt, set_fs (put w.fs p dir) w)

-- std::fs::remove_file
unfoldable pub remove_file : {T : Type 0} → FilePath → Io T (Unit {0})
remove_file p = fallible λ w.
    if node_is_file (w.fs p)
    then (ok tt, set_fs (put w.fs p absent) w)
    else throw (txt "No such file or directory (os error 2)") w

-- std::fs::remove_dir_all
unfoldable pub remove_dir_all : {T : Type 0} → FilePath → Io T (Unit {0})
remove_dir_all p = fallible λ w.
    if node_is_dir (w.fs p)
    then (ok tt, set_fs (removed w.fs p) w)
    else throw (txt "Not a directory (os error 20)") w

-- std::fs::rename of a file over a file or nothing, or of a directory over nothing
unfoldable pub rename : {T : Type 0} → FilePath → FilePath → Io T (Unit {0})
rename src dst = fallible λ w. elim (w.fs src) [
  | absent ↦ throw (txt "No such file or directory (os error 2)") w
  | file content t ↦
      if node_is_dir (w.fs dst)
      then throw (txt "Is a directory (os error 21)") w
      else if not (parent_is_dir w.fs dst)
      then throw (txt "No such file or directory (os error 2)") w
      else (ok tt, set_fs (put (put w.fs src absent) dst (file content t)) w)
  | dir ↦
      if node_exists (w.fs dst)
      then throw (txt "Directory not empty (os error 39)") w
      else if not (parent_is_dir w.fs dst)
      then throw (txt "No such file or directory (os error 2)") w
      else (ok tt, set_fs (moved w.fs src dst) w)
]

unfoldable pub mtime_of : {T : Type 0} → Node → Io T ℕ
mtime_of absent = throw (txt "No such file or directory (os error 2)")
mtime_of dir = pure 0
mtime_of (file _ t) = pure t

-- std::fs::metadata and the seconds of its modification time
unfoldable pub mtime : {T : Type 0} → FilePath → Io T ℕ
mtime p = fallible (λ w. mtime_of (w.fs p) w)
