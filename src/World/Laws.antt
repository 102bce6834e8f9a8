-- ===== src/World/Laws.antt =====
-- Computations that only read: rules for chains of steps.
use asset_resolver.Base.{
  ◌≡◌, refl, ◌∙◌, ◌++◌, List, Text, FilePath, Option, none, some, Bool, true, false, Result, arith,
  if◌then◌else◌,
}
use asset_resolver.Base
use asset_resolver.World.Fs.{Node, absent, dir, file}
use asset_resolver.World.Io.{
  World, Io, Answer, ok, err, panicked, ◌>>=◌, ◌>>◌, pure, throw, lift, attempt, map_err, gets,
  eprintln, io_steps, exists, is_file, fallible, next_fault, later_faults, read, read_node, mtime,
  mtime_of,
}

-- The later world differs from the earlier one in its log and in the faults still to come at most.
pub record OnlyRead {T : Type 0} (w w' : World T) : Type 0 where
  pub fs : w'.fs ≡ w.fs
  pub process : w'.process ≡ w.process
  pub env : w'.env ≡ w.env
  pub now : w'.now ≡ w.now
  pub process_id : w'.process_id ≡ w.process_id
  pub install_path : w'.install_path ≡ w.install_path
  pub next_temporary : w'.next_temporary ≡ w.next_temporary
  pub statics : w'.statics ≡ w.statics

pub record IsReader {T A : Type 0} (m : Io T A) : Type 0 where
  pub at : (w : World T) → OnlyRead w (m w).1

OnlyRead-trans : {T : Type 0} {u v w : World T} → OnlyRead u v → OnlyRead v w → OnlyRead u w
OnlyRead-trans h k = record {
  fs = k.fs ∙ h.fs;
  process = k.process ∙ h.process;
  env = k.env ∙ h.env;
  now = k.now ∙ h.now;
  process_id = k.process_id ∙ h.process_id;
  install_path = k.install_path ∙ h.install_path;
  next_temporary = k.next_temporary ∙ h.next_temporary;
  statics = k.statics ∙ h.statics;
}

OnlyRead-refl : {T : Type 0} (w : World T) → OnlyRead w w
OnlyRead-refl w = record {
  fs = refl;
  process = refl;
  env = refl;
  now = refl;
  process_id = refl;
  install_path = refl;
  next_temporary = refl;
  statics = refl;
}

bind_answer :
    {T A B : Type 0} (u w : World T) (a : Answer A) (f : A → Io T B)
    → OnlyRead u w
    → ((x : A) → IsReader (f x))
    → OnlyRead u (◌>>=◌ {A = A} (λ _. (a, w)) f u).1
unfolding io_steps
bind_answer u w (ok x) f h k = OnlyRead-trans h ((k x).at w)
bind_answer u w (err e) f h k = h
bind_answer u w panicked f h k = h

pub bind-IsReader :
    {T A B : Type 0} {m : Io T A} {f : A → Io T B}
    → IsReader m
    → ((x : A) → IsReader (f x))
    → IsReader (m >>= f)
unfolding io_steps
bind-IsReader {m = m} {f = f} h k = record { at = λ w. bind_answer w (m w).1 (m w).0 f (h.at w) k }

pub then-IsReader :
    {T B : Type 0} {m : Io T (Unit {0})} {k : Io T B} → IsReader m → IsReader k → IsReader (m >> k)
unfolding ◌>>◌
then-IsReader h k = bind-IsReader h (λ _. k)

pub pure-IsReader : {T A : Type 0} (a : A) → IsReader (pure {T = T} a)
unfolding io_steps
pure-IsReader a = record { at = OnlyRead-refl }

pub throw-IsReader : {T A : Type 0} (e : Text) → IsReader (throw {T = T} {A = A} e)
unfolding io_steps
throw-IsReader e = record { at = OnlyRead-refl }

pub lift-IsReader : {T A : Type 0} (r : Result A) → IsReader (lift {T = T} r)
unfolding io_steps
lift-IsReader (Base.ok a) = record { at = OnlyRead-refl }
lift-IsReader (Base.err e) = record { at = OnlyRead-refl }

pub answer-IsReader : {T A : Type 0} (r : Answer A) → IsReader {T = T} (λ w. (r, w))
answer-IsReader r = record { at = OnlyRead-refl }

pub gets-IsReader : {T A : Type 0} (f : World T → A) → IsReader (gets f)
unfolding io_steps
gets-IsReader f = record { at = OnlyRead-refl }

pub eprintln-IsReader : {T : Type 0} (line : Text) → IsReader (eprintln {T = T} line)
unfolding io_steps
eprintln-IsReader line = record {
  at = λ w. record {
    fs = refl;
    process = refl;
    env = refl;
    now = refl;
    process_id = refl;
    install_path = refl;
    next_temporary = refl;
    statics = refl;
  };
}

map_err_answer :
    {T A : Type 0} (u w : World T) (a : Answer A) (f : Text → Text)
    → OnlyRead u w
    → OnlyRead u (map_err {A = A} f (λ _. (a, w)) u).1
unfolding io_steps
map_err_answer u w (ok x) f h = h
map_err_answer u w (err e) f h = h
map_err_answer u w panicked f h = h

attempt_answer :
    {T A : Type 0} (u w : World T) (a : Answer A)
    → OnlyRead u w
    → OnlyRead u (attempt {A = A} (λ _. (a, w)) u).1
unfolding io_steps
attempt_answer u w (ok x) h = h
attempt_answer u w (err e) h = h
attempt_answer u w panicked h = h

pub map_err-IsReader :
    {T A : Type 0} (f : Text → Text) {m : Io T A} → IsReader m → IsReader (map_err f m)
unfolding io_steps
map_err-IsReader f {m = m} h = record { at = λ w. map_err_answer w (m w).1 (m w).0 f (h.at w) }

pub attempt-IsReader : {T A : Type 0} {m : Io T A} → IsReader m → IsReader (attempt m)
unfolding io_steps
attempt-IsReader {m = m} h = record { at = λ w. attempt_answer w (m w).1 (m w).0 (h.at w) }

spent :
    {T : Type 0} (w : World T) (faults : List (Option Text))
    → OnlyRead w (record w { faults = faults })
spent w faults = record {
  fs = refl;
  process = refl;
  env = refl;
  now = refl;
  process_id = refl;
  install_path = refl;
  next_temporary = refl;
  statics = refl;
}

fallible_fault :
    {T A : Type 0} (w : World T) (fault : Option Text) (m : Io T A)
    → IsReader m
    → let w' : World T = record w { faults = later_faults w.faults } in
      OnlyRead w (
        let step : Answer A × World T = elim fault [ some e ↦ (err e, w') | none ↦ m w' ] in step.1)
fallible_fault w none m h = OnlyRead-trans (spent w _) (h.at _)
fallible_fault w (some e) m h = spent w _

pub fallible-IsReader : {T A : Type 0} {m : Io T A} → IsReader m → IsReader (fallible m)
unfolding fallible
fallible-IsReader {m = m} h = record { at = λ w. fallible_fault w (next_fault w.faults) m h }

read_node-IsReader : {T : Type 0} (n : Node) → IsReader (read_node {T = T} n)
unfolding read_node
read_node-IsReader absent = throw-IsReader _
read_node-IsReader dir = throw-IsReader _
read_node-IsReader (file content t) = pure-IsReader content

pub read-IsReader : {T : Type 0} (p : FilePath) → IsReader (read {T = T} p)
unfolding read
read-IsReader p =
    fallible-IsReader {m = λ w. read_node (w.fs p) w}
      (record { at = λ w. (read_node-IsReader (w.fs p)).at w })

mtime_of-IsReader : {T : Type 0} (n : Node) → IsReader (mtime_of {T = T} n)
unfolding mtime_of
mtime_of-IsReader absent = throw-IsReader _
mtime_of-IsReader dir = pure-IsReader 0
mtime_of-IsReader (file _ t) = pure-IsReader t

pub mtime-IsReader : {T : Type 0} (p : FilePath) → IsReader (mtime {T = T} p)
unfolding mtime
mtime-IsReader p =
    fallible-IsReader {m = λ w. mtime_of (w.fs p) w}
      (record { at = λ w. (mtime_of-IsReader (w.fs p)).at w })

pub exists-IsReader : {T : Type 0} (p : FilePath) → IsReader (exists {T = T} p)
unfolding io_steps
exists-IsReader p = record { at = OnlyRead-refl }

pub is_file-IsReader : {T : Type 0} (p : FilePath) → IsReader (is_file {T = T} p)
unfolding io_steps
is_file-IsReader p = record { at = OnlyRead-refl }

pub if-IsReader :
    {T A : Type 0} (b : Bool) {m n : Io T A}
    → IsReader m
    → IsReader n
    → IsReader (if b then m else n)
if-IsReader true h k = h
if-IsReader false h k = k

pub ruleset reader_rules = (
  bind-IsReader, then-IsReader, pure-IsReader, throw-IsReader, lift-IsReader, answer-IsReader,
  gets-IsReader, eprintln-IsReader, map_err-IsReader, attempt-IsReader, read-IsReader,
  mtime-IsReader, exists-IsReader, is_file-IsReader,
)
