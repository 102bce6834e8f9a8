-- ===== src/World/Statics.antt =====
-- What computations do to the statics: properties that they keep.
use asset_resolver.Base.{
  [], ◌∷◌, ◌++◌, ◌≡◌, refl, sym, ap, ◌∙◌, Text, FilePath, Option, none, some, Result, Bool, true,
  false, not, txt, if◌then◌else◌,
}
use asset_resolver.Base
use asset_resolver.World.Fs.{
  node_is_file, FileSystem, Node, absent, dir, file, put, moved, removed, node_is_dir, node_exists,
  parent_is_dir, make_dirs, ancestors,
}
use asset_resolver.RuntimeMode.{Process, Run}
use asset_resolver.World.Io.{
  World, Io, Answer, ok, err, panicked, ◌>>=◌, ◌>>◌, pure, throw, lift, attempt, map_err, gets,
  eprintln, exists, io_steps, fallible, next_fault, later_faults, create_dir_all, mtime, set_fs,
  is_file, read, run, write, create_file, write_all, write_byte, create_dir, remove_dir_all,
  remove_file, rename,
}
use asset_resolver.World.Laws.{
  IsReader, pure-IsReader, throw-IsReader, lift-IsReader, gets-IsReader, eprintln-IsReader,
  exists-IsReader, mtime-IsReader, is_file-IsReader, read-IsReader, answer-IsReader,
}

-- Whatever the answer is, the property holds of the statics afterwards if it did before.
pub record Holds {T A : Type 0} (P : T → Type 0) (m : Io T A) : Type 0 where
  pub at : (w : World T) → P w.statics → P (m w).1.statics

module _ {T : Type 0} (P : T → Type 0) where
  map_err_answer :
      {A : Type 0} (u w : World T) (a : Answer A) (f : Text → Text)
      → P w.statics
      → P (map_err {A = A} f (λ _. (a, w)) u).1.statics
  unfolding io_steps
  map_err_answer u w (ok x) f h = h
  map_err_answer u w (err e) f h = h
  map_err_answer u w panicked f h = h

  attempt_answer :
      {A : Type 0} (u w : World T) (a : Answer A)
      → P w.statics
      → P (attempt {A = A} (λ _. (a, w)) u).1.statics
  unfolding io_steps
  attempt_answer u w (ok x) h = h
  attempt_answer u w (err e) h = h
  attempt_answer u w panicked h = h

  made :
      (w : World T) (made_dirs : Option FileSystem)
      → P w.statics
      → P
          (let step : Answer (Unit {0}) × World T = elim made_dirs [
            | none ↦ throw (Base.txt "File exists (os error 17)") w
            | some fs ↦ (ok tt, record w { fs = fs })
          ] in
            step.1).statics
  unfolding throw
  made w none p = p
  made w (some fs) p = p

  ran :
      {A : Type 0} (w : World T) (r : Option A × Process)
      → P w.statics
      → P (run (λ _. r) w).1.statics
  unfolding run
  ran w (none, p) h = h
  ran w (some a, p) h = h

  either :
      {A : Type 0} (b : Bool) (x y : Answer A × World T)
      → P x.1.statics
      → P y.1.statics
      → P (if b then x else y).1.statics
  either true x y h k = h
  either false x y h k = k

module _ {T : Type 0} {P : T → Type 0} where
  pub reader-Holds : {A : Type 0} {m : Io T A} → IsReader m → Holds P m
  reader-Holds h = record { at = λ w k. rw ((h.at w).statics) k }

  bind_answer :
      {A B : Type 0} (u w : World T) (a : Answer A) (f : A → Io T B)
      → P w.statics
      → ((x : A) → Holds P (f x))
      → P (◌>>=◌ {A = A} (λ _. (a, w)) f u).1.statics
  unfolding io_steps
  bind_answer u w (ok x) f h k = (k x).at w h
  bind_answer u w (err e) f h k = h
  bind_answer u w panicked f h k = h

  pub bind-Holds :
      {A B : Type 0} {m : Io T A} {f : A → Io T B}
      → Holds P m
      → ((x : A) → Holds P (f x))
      → Holds P (m >>= f)
  unfolding io_steps
  bind-Holds {m = m} {f = f} h k = record {
    at = λ w p. bind_answer w (m w).1 (m w).0 f (h.at w p) k;
  }

  pub then-Holds :
      {B : Type 0} {m : Io T (Unit {0})} {k : Io T B} → Holds P m → Holds P k → Holds P (m >> k)
  unfolding ◌>>◌
  then-Holds h k = bind-Holds h (λ _. k)

  pub map_err-Holds :
      {A : Type 0} (f : Text → Text) {m : Io T A} → Holds P m → Holds P (map_err f m)
  unfolding io_steps
  map_err-Holds f {m = m} h = record { at = λ w p. map_err_answer P w (m w).1 (m w).0 f (h.at w p) }

  pub attempt-Holds : {A : Type 0} {m : Io T A} → Holds P m → Holds P (attempt m)
  unfolding io_steps
  attempt-Holds {m = m} h = record { at = λ w p. attempt_answer P w (m w).1 (m w).0 (h.at w p) }

  fault-Holds :
      {A : Type 0} (w : World T) (fault : Option Text) (m : Io T A)
      → P w.statics
      → Holds P m
      → P
          (let step : Answer A × World T = elim fault [ some e ↦ (err e, w) | none ↦ m w ] in
            step.1).statics
  fault-Holds w none m p h = h.at w p
  fault-Holds w (some e) m p h = p

  pub fallible-Holds : {A : Type 0} {m : Io T A} → Holds P m → Holds P (fallible m)
  unfolding fallible
  fallible-Holds {m = m} h = record {
    at = λ w p.
        fault-Holds (record w { faults = later_faults w.faults }) (next_fault w.faults) m p h;
  }

  pub create_dir_all-Holds : (q : FilePath) → Holds P (create_dir_all {T = T} q)
  unfolding create_dir_all set_fs
  create_dir_all-Holds q =
      fallible-Holds (record { at = λ w p. made P _ (make_dirs (ancestors [] q) w.fs) p })

  pub pure-Holds : {A : Type 0} (a : A) → Holds P (pure {T = T} a)
  pure-Holds a = reader-Holds (pure-IsReader a)

  pub throw-Holds : {A : Type 0} (e : Text) → Holds P (throw {T = T} {A = A} e)
  throw-Holds e = reader-Holds (throw-IsReader e)

  pub lift-Holds : {A : Type 0} (r : Result A) → Holds P (lift {T = T} r)
  lift-Holds r = reader-Holds (lift-IsReader r)

  pub gets-Holds : {A : Type 0} (f : World T → A) → Holds P (gets f)
  gets-Holds f = reader-Holds (gets-IsReader f)

  pub eprintln-Holds : (line : Text) → Holds P (eprintln {T = T} line)
  eprintln-Holds line = reader-Holds (eprintln-IsReader line)

  pub exists-Holds : (p : FilePath) → Holds P (exists {T = T} p)
  exists-Holds p = reader-Holds (exists-IsReader p)

  pub mtime-Holds : (p : FilePath) → Holds P (mtime {T = T} p)
  mtime-Holds p = reader-Holds (mtime-IsReader p)

  pub is_file-Holds : (p : FilePath) → Holds P (is_file {T = T} p)
  is_file-Holds p = reader-Holds (is_file-IsReader p)

  pub read-Holds : (p : FilePath) → Holds P (read {T = T} p)
  read-Holds p = reader-Holds (read-IsReader p)

  pub answer-Holds : {A : Type 0} (r : Answer A) → Holds P (λ w. (r, w))
  answer-Holds r = reader-Holds (answer-IsReader r)

  pub run-Holds : {A : Type 0} (m : Run A) → Holds P (run {T = T} m)
  unfolding run
  run-Holds m = record { at = λ w h. ran P w (m w.process) h }

  choose-Holds :
      {A : Type 0} (b : World T → Bool) (m n : Io T A)
      → Holds P m
      → Holds P n
      → Holds P (λ w. if b w then m w else n w)
  choose-Holds b m n h k = record { at = λ w p. either P (b w) (m w) (n w) (h.at w p) (k.at w p) }

  set-Holds : (f : World T → FileSystem) → Holds {A = Unit {0}} P (λ w. (ok tt, set_fs (f w) w))
  unfolding set_fs
  set-Holds f = record { at = λ w p. p }

  create_file-Holds : (p : FilePath) → Holds P (create_file {T = T} p)
  unfolding create_file
  create_file-Holds p = fallible-Holds (
      choose-Holds (λ w. not (parent_is_dir w.fs p)) _ _ (throw-Holds _)
        (choose-Holds (λ w. node_is_dir (w.fs p)) _ _ (throw-Holds _)
          (set-Holds (λ w. put w.fs p (file [] w.now)))))

  write_all-Holds : (p : FilePath) (done bs : Text) → Holds P (write_all {T = T} p done bs)
  unfolding write_all write_byte
  write_all-Holds p done [] = pure-Holds tt
  write_all-Holds p done (b ∷ bs) =
      then-Holds (fallible-Holds (set-Holds (λ w. put w.fs p (file (done ++ (b ∷ [])) w.now))))
        (write_all-Holds p (done ++ (b ∷ [])) bs)

  pub write-Holds : (p : FilePath) (content : Text) → Holds P (write {T = T} p content)
  unfolding write
  write-Holds p content = then-Holds (create_file-Holds p) (write_all-Holds p [] content)

  pub create_dir-Holds : (p : FilePath) → Holds P (create_dir {T = T} p)
  unfolding create_dir
  create_dir-Holds p = fallible-Holds (
      choose-Holds (λ w. node_exists (w.fs p)) _ _ (throw-Holds _)
        (choose-Holds (λ w. not (parent_is_dir w.fs p)) _ _ (throw-Holds _)
          (set-Holds (λ w. put w.fs p dir))))

  pub remove_file-Holds : (p : FilePath) → Holds P (remove_file {T = T} p)
  unfolding remove_file
  remove_file-Holds p = fallible-Holds (
      choose-Holds (λ w. node_is_file (w.fs p)) _ _ (set-Holds (λ w. put w.fs p absent))
        (throw-Holds _))

  pub remove_dir_all-Holds : (p : FilePath) → Holds P (remove_dir_all {T = T} p)
  unfolding remove_dir_all
  remove_dir_all-Holds p = fallible-Holds (
      choose-Holds (λ w. node_is_dir (w.fs p)) _ _ (set-Holds (λ w. removed w.fs p))
        (throw-Holds _))

module _ {T : Type 0} (P : T → Type 0) where
  renamed :
      (src dst : FilePath) (n : Node) (w : World T)
      → P w.statics
      → P
          (let step : Answer (Unit {0}) × World T = elim n [
            | absent ↦ throw (txt "No such file or directory (os error 2)") w
            | file content t ↦
                if node_is_dir (w.fs dst)
                then throw (txt "Is a directory (os error 21)") w
                else if not (parent_is_dir w.fs dst)
                then throw (txt "No such file or directory (os error 2)") w
                else (ok tt, set_fs (put (put w.fs src absent) dst (file content t)) w)
            | dir ↦
                if node_exists (w.fs dst)
                then throw (txt "Directory not empty (os error 39)") w
                else if not (parent_is_dir w.fs dst)
                then throw (txt "No such file or directory (os error 2)") w
                else (ok tt, set_fs (moved w.fs src dst) w)
          ] in
            step.1).statics
  renamed src dst absent w h =
      (throw-Holds {P = P} {A = Unit {0}} (txt "No such file or directory (os error 2)")).at w h
  renamed src dst (file content t) w h =
      (choose-Holds {P = P} {A = Unit {0}} (λ w. node_is_dir (w.fs dst)) _ _
          (throw-Holds (txt "Is a directory (os error 21)"))
          (choose-Holds (λ w. not (parent_is_dir w.fs dst)) _ _
            (throw-Holds (txt "No such file or directory (os error 2)"))
            (set-Holds (λ w. put (put w.fs src absent) dst (file content t))))).at
        w h
  renamed src dst dir w h =
      (choose-Holds {P = P} {A = Unit {0}} (λ w. node_exists (w.fs dst)) _ _
          (throw-Holds (txt "Directory not empty (os error 39)"))
          (choose-Holds (λ w. not (parent_is_dir w.fs dst)) _ _
            (throw-Holds (txt "No such file or directory (os error 2)"))
            (set-Holds (λ w. moved w.fs src dst)))).at
        w h

module _ {T : Type 0} {P : T → Type 0} where
  pub rename-Holds : (src dst : FilePath) → Holds P (rename {T = T} src dst)
  unfolding rename
  rename-Holds src dst = fallible-Holds (record { at = λ w. renamed P src dst (w.fs src) w })

  pub if-Holds :
      {A : Type 0} (b : Bool) {m n : Io T A} → Holds P m → Holds P n → Holds P (if b then m else n)
  if-Holds true h k = h
  if-Holds false h k = k

pub ruleset holds_rules = (
  bind-Holds, then-Holds, map_err-Holds, attempt-Holds, fallible-Holds, create_dir_all-Holds,
  pure-Holds, throw-Holds, lift-Holds, gets-Holds, eprintln-Holds, exists-Holds, mtime-Holds,
  is_file-Holds, read-Holds, answer-Holds, run-Holds, write-Holds, create_dir-Holds,
  remove_file-Holds, remove_dir_all-Holds, rename-Holds, if-Holds,
)
