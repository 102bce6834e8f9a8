-- ===== src/World/Files.antt =====
-- Properties of the world that computations keep, whatever they answer, and what leaves a path alone.
use asset_resolver.Base.{
  ◌≡◌, ◌≢◌, refl, sym, ap, ◌∙◌, inl, inr, Text, txt, FilePath, Option, none, some, Result, Bool,
  true, false, not, List, [], if◌then◌else◌,
}
use asset_resolver.Base
use asset_resolver.RuntimeMode.{Process, Run}
use asset_resolver.World.Fs.{FileSystem, Node, node_exists, make_dirs, ancestors}
use asset_resolver.World.Io.{
  World, Io, Answer, ok, err, panicked, ◌>>=◌, ◌>>◌, pure, throw, lift, attempt, map_err, gets,
  exists, io_steps, fallible, next_fault, later_faults, write, create_dir_all, set_fs, run,
}
use asset_resolver.World.Laws.{IsReader}
use asset_resolver.World.Writing.{write-Writes}
use asset_resolver.World.Directories.{create_dir_all-present}

pub record Preserves {T A : Type 0} (P : World T → Type 0) (m : Io T A) : Type 0 where
  pub at : (w : World T) → P w → P (m w).1

bind_answer :
    {T A B : Type 0} (P : World T → Type 0) (u : World T) (r : Answer A × World T) (f : A → Io T B)
    → P r.1
    → ((x : A) → Preserves P (f x))
    → P (◌>>=◌ (λ _. r) f u).1
unfolding io_steps
bind_answer P u (ok x, w) f h k = (k x).at w h
bind_answer P u (err e, w) f h k = h
bind_answer P u (panicked, w) f h k = h

map_err_answer :
    {T A : Type 0} (P : World T → Type 0) (u : World T) (r : Answer A × World T) (f : Text → Text)
    → P r.1
    → P (map_err f (λ _. r) u).1
unfolding io_steps
map_err_answer P u (ok x, w) f h = h
map_err_answer P u (err e, w) f h = h
map_err_answer P u (panicked, w) f h = h

attempt_answer :
    {T A : Type 0} (P : World T → Type 0) (u : World T) (r : Answer A × World T)
    → P r.1
    → P (attempt (λ _. r) u).1
unfolding io_steps
attempt_answer P u (ok x, w) h = h
attempt_answer P u (err e, w) h = h
attempt_answer P u (panicked, w) h = h

fault_answer :
    {T A : Type 0} (P : World T → Type 0) (w : World T) (fault : Option Text) (m : Io T A)
    → P w
    → P (m w).1
    → P (let step : Answer A × World T = elim fault [ some e ↦ (err e, w) | none ↦ m w ] in step.1)
fault_answer P w none m h k = k
fault_answer P w (some e) m h k = h

same_value : {A : Type 0} {a b : A} → Base.ok a ≡ Base.ok b → a ≡ b
same_value h = cc h

module _ {T : Type 0} {P : World T → Type 0} where
  pub bind-Preserves :
      {A B : Type 0} {m : Io T A} {f : A → Io T B}
      → Preserves P m
      → ((x : A) → Preserves P (f x))
      → Preserves P (m >>= f)
  unfolding io_steps
  bind-Preserves {m = m} {f = f} h k = record { at = λ w p. bind_answer P w (m w) f (h.at w p) k }

  pub then-Preserves :
      {B : Type 0} {m : Io T (Unit {0})} {k : Io T B}
      → Preserves P m
      → Preserves P k
      → Preserves P (m >> k)
  unfolding ◌>>◌
  then-Preserves h k = bind-Preserves h (λ _. k)

  pub map_err-Preserves :
      {A : Type 0} (f : Text → Text) {m : Io T A} → Preserves P m → Preserves P (map_err f m)
  unfolding io_steps
  map_err-Preserves f {m = m} h = record { at = λ w p. map_err_answer P w (m w) f (h.at w p) }

  pub attempt-Preserves : {A : Type 0} {m : Io T A} → Preserves P m → Preserves P (attempt m)
  unfolding io_steps
  attempt-Preserves {m = m} h = record { at = λ w p. attempt_answer P w (m w) (h.at w p) }

  pub pure-Preserves : {A : Type 0} (a : A) → Preserves P (pure {T = T} a)
  unfolding io_steps
  pure-Preserves a = record { at = λ w p. p }

  pub throw-Preserves : {A : Type 0} (e : Text) → Preserves P (throw {T = T} {A = A} e)
  unfolding io_steps
  throw-Preserves e = record { at = λ w p. p }

  pub lift-Preserves : {A : Type 0} (r : Result A) → Preserves P (lift {T = T} r)
  unfolding io_steps
  lift-Preserves (Base.ok a) = record { at = λ w p. p }
  lift-Preserves (Base.err e) = record { at = λ w p. p }

  -- A value that is known is handed on.
  pub value-Preserves :
      {A B : Type 0} (r : Result A) (a : A) (f : A → Io T B)
      → r ≡ Base.ok a
      → Preserves P (f a)
      → Preserves P (lift r >>= f)
  unfolding io_steps
  value-Preserves (Base.ok x) a f h k = record { at = λ w p. rw (same_value h) (k.at w p) }
  value-Preserves (Base.err e) a f h k = absurd (cc h)

  pub gets-Preserves : {A : Type 0} (f : World T → A) → Preserves P (gets f)
  unfolding io_steps
  gets-Preserves f = record { at = λ w p. p }

  pub exists-Preserves : (p : FilePath) → Preserves P (exists {T = T} p)
  unfolding io_steps
  exists-Preserves p = record { at = λ w h. h }

  pub if-Preserves :
      {A : Type 0} (b : Bool) {m n : Io T A}
      → Preserves P m
      → Preserves P n
      → Preserves P (if b then m else n)
  if-Preserves true h k = h
  if-Preserves false h k = k

  -- A case on a result, and on an option
  pub result-Preserves :
      {A B : Type 0} (r : Result A) {f : A → Io T B} {g : Text → Io T B}
      → ((a : A) → Preserves P (f a))
      → ((e : Text) → Preserves P (g e))
      → Preserves P (let step : Io T B = elim r [ Base.ok a ↦ f a | Base.err e ↦ g e ] in step)
  result-Preserves (Base.ok a) h k = h a
  result-Preserves (Base.err e) h k = k e

  pub option-Preserves :
      {A B : Type 0} (r : Option A) {f : A → Io T B} {m : Io T B}
      → ((a : A) → Preserves P (f a))
      → Preserves P m
      → Preserves P (let step : Io T B = elim r [ none ↦ m | some a ↦ f a ] in step)
  option-Preserves (some a) h k = h a
  option-Preserves none h k = k

  -- What can be refused keeps a property that does not depend on what is refused next.
  pub fallible-Preserves :
      {A : Type 0} {m : Io T A}
      → ((w : World T) → P w → P (record w { faults = later_faults w.faults }))
      → Preserves P m
      → Preserves P (fallible m)
  unfolding fallible
  fallible-Preserves {m = m} later h = record {
    at = λ w p.
        fault_answer P (record w { faults = later_faults w.faults }) (next_fault w.faults) m
          (later w p) (h.at _ (later w p));
  }

pub ruleset preserves_rules = (
  bind-Preserves, then-Preserves, map_err-Preserves, attempt-Preserves, pure-Preserves,
  throw-Preserves, lift-Preserves, gets-Preserves, exists-Preserves, if-Preserves,
)

-- A property of the files.
abbrev pub Leaves : {T A : Type 0} → (FileSystem → Type 0) → Io T A → Type 0
Leaves Q m = Preserves (λ w. Q w.fs) m

module _ {T : Type 0} (Q : FileSystem → Type 0) where
  pub reader-Leaves : {A : Type 0} {m : Io T A} → IsReader m → Leaves Q m
  reader-Leaves h = record { at = λ w p. rw ((h.at w).fs) p }

  pub fallible-Leaves : {A : Type 0} {m : Io T A} → Leaves Q m → Leaves Q (fallible m)
  fallible-Leaves h = fallible-Preserves (λ w p. p) h

module _ {T : Type 0} (Q : FileSystem → Type 0) where
  ran_answer : {A : Type 0} (r : Option A × Process) (w : World T) → (run (λ _. r) w).1.fs ≡ w.fs
  unfolding run
  ran_answer (none, p) w = refl
  ran_answer (some a, p) w = refl

  ran : {A : Type 0} (m : Run A) (w : World T) → (run m w).1.fs ≡ w.fs
  unfolding run
  ran m w = ran_answer (m w.process) w

  pub run-Leaves : {A : Type 0} (m : Run A) → Leaves {T = T} Q (run m)
  run-Leaves m = record { at = λ w h. rw (ran m w) h }

module _ {T : Type 0} (q : FilePath) (n : Node) where
  pub write-Leaves :
      (p : FilePath) (content : Text) → q ≢ p → Leaves {T = T} (λ fs. fs q ≡ n) (write p content)
  write-Leaves p content other = record { at = λ w h. (write-Writes p content w).0 q other ∙ h }

  pub create_dir_all-Leaves :
      (p : FilePath) → node_exists n ≡ true → Leaves {T = T} (λ fs. fs q ≡ n) (create_dir_all p)
  create_dir_all-Leaves p seen = record { at = λ w h. create_dir_all-present q n seen p w h }

-- The system refuses nothing.
abbrev pub IsQuiet : {T : Type 0} → World T → Type 0
IsQuiet w = w.faults ≡ []

module _ {T : Type 0} where
  pub fallible-IsQuiet :
      {A : Type 0} {m : Io T A} → Preserves IsQuiet m → Preserves IsQuiet (fallible m)
  fallible-IsQuiet h = fallible-Preserves (λ w quiet. ap later_faults quiet) h

  dirs-IsQuiet :
      (made : Option FileSystem) (w : World T)
      → IsQuiet w
      → IsQuiet (
          let step : Answer (Unit {0}) × World T = elim made [
            | none ↦ throw (txt "File exists (os error 17)") w
            | some fs ↦ (ok tt, set_fs fs w)
          ] in
          step.1)
  unfolding throw set_fs
  dirs-IsQuiet none w h = h
  dirs-IsQuiet (some fs) w h = h

  pub create_dir_all-IsQuiet : (p : FilePath) → Preserves {T = T} IsQuiet (create_dir_all p)
  unfolding create_dir_all
  create_dir_all-IsQuiet p =
      fallible-IsQuiet (record { at = λ w. dirs-IsQuiet (make_dirs (ancestors [] p) w.fs) w })
