-- ===== src/World/Inversion.antt =====
-- What a step that succeeded has done: inversion of chains, of `map_err`, and of reads.
use asset_resolver.Base.{
  ◌≡◌, refl, sym, ◌∙◌, ap, ◌⊎◌, inl, inr, Text, FilePath, Option, none, some, Bool, true, false,
  Result, arith, ℕ,
}
use asset_resolver.Base
use asset_resolver.World.Fs.{Node, absent, dir, file}
use asset_resolver.World.Io.{
  World, Io, Answer, ok, err, panicked, mtime, mtime_of, attempt, ◌>>=◌, ◌>>◌, pure, lift, map_err,
  io_steps, fallible, next_fault, later_faults, read, read_node,
}

bind_answer :
    {T A B : Type 0} (w : World T) (r : Answer A × World T) (f : A → Io T B) (b : B)
    → (◌>>=◌ (λ _. r) f w).0 ≡ ok b
    → (a : A) × (r.0 ≡ ok a) × (◌>>=◌ (λ _. r) f w ≡ f a r.1)
unfolding io_steps
bind_answer w (ok a, w') f b h = (a, refl, refl)
bind_answer w (err e, w') f b h = absurd (cc h)
bind_answer w (panicked, w') f b h = absurd (cc h)

-- A chain that succeeded is its second step at the value and the world of the first.
pub >>=-eq-ok :
    {T A B : Type 0} (m : Io T A) (f : A → Io T B) (w : World T) (b : B)
    → ((m >>= f) w).0 ≡ ok b
    → (a : A) × ((m w).0 ≡ ok a) × ((m >>= f) w ≡ f a (m w).1)
unfolding io_steps
>>=-eq-ok m f w b h = bind_answer w (m w) f b h

map_err_answer :
    {T A : Type 0} (w : World T) (r : Answer A × World T) (f : Text → Text) (a : A)
    → (map_err f (λ _. r) w).0 ≡ ok a
    → r.0 ≡ ok a
unfolding io_steps
map_err_answer w (ok x, w') f a h = h
map_err_answer w (err e, w') f a h = absurd (cc h)
map_err_answer w (panicked, w') f a h = absurd (cc h)

pub map_err-eq-ok :
    {T A : Type 0} (f : Text → Text) (m : Io T A) (w : World T) (a : A)
    → (map_err f m w).0 ≡ ok a
    → (m w).0 ≡ ok a
unfolding io_steps
map_err-eq-ok f m w a h = map_err_answer w (m w) f a h

pub lift-eq-ok :
    {T A : Type 0} (r : Result A) (w : World T) (a : A) → (lift r w).0 ≡ ok a → r ≡ Base.ok a
unfolding io_steps
lift-eq-ok (Base.ok x) w a h = ground arith
lift-eq-ok (Base.err e) w a h = absurd (cc h)

read_node-eq-ok :
    {T : Type 0} (n : Node) (w : World T) (content : Text)
    → (read_node n w).0 ≡ ok content
    → (t : ℕ) × (n ≡ file content t)
unfolding read_node io_steps
read_node-eq-ok absent w content h = absurd (cc h)
read_node-eq-ok dir w content h = absurd (cc h)
read_node-eq-ok (file bytes t) w content h = (t, ground arith)

read_fault :
    {T : Type 0} (p : FilePath) (w w' : World T) (fault : Option Text) (content : Text)
    → (let step : Answer Text × World T = elim fault [
      | some e ↦ (err e, w')
      | none ↦ read_node (w.fs p) w'
    ] in
        step.0)
      ≡ ok content
    → (t : ℕ) × (w.fs p ≡ file content t)
read_fault p w w' none content h = read_node-eq-ok (w.fs p) w' content h
read_fault p w w' (some e) content h = absurd (cc h)

-- A read that succeeded returns the bytes of the file that lies there.
pub read-eq-ok :
    {T : Type 0} (p : FilePath) (w : World T) (content : Text)
    → (read p w).0 ≡ ok content
    → (t : ℕ) × (w.fs p ≡ file content t)
unfolding read fallible
read-eq-ok p w content h =
    read_fault p w (record w { faults = later_faults w.faults }) (next_fault w.faults) content h

-- The rest of a chain that succeeded succeeds, at the value and the world of the first step.
pub >>=-next :
    {T A B : Type 0} (m : Io T A) (f : A → Io T B) (w : World T) (b : B)
    → ((m >>= f) w).0 ≡ ok b
    → (a : A) × ((m w).0 ≡ ok a) × ((f a (m w).1).0 ≡ ok b) × ((m >>= f) w ≡ f a (m w).1)
>>=-next m f w b h =
    let (a, first, same) = >>=-eq-ok m f w b h in (a, first, ap (λ r. r.0) (sym same) ∙ h, same)

pub >>-next :
    {T B : Type 0} (m : Io T (Unit {0})) (k : Io T B) (w : World T) (b : B)
    → ((m >> k) w).0 ≡ ok b
    → ((m w).0 ≡ ok tt) × ((k (m w).1).0 ≡ ok b) × ((m >> k) w ≡ k (m w).1)
unfolding ◌>>◌
>>-next m k w b h = let (_, good, rest, same) = >>=-next m (λ _. k) w b h in (good, rest, same)

attempt_answer :
    {T A : Type 0} (w : World T) (r : Answer A × World T) (a : A)
    → (attempt (λ _. r) w).0 ≡ ok (Base.ok a)
    → r.0 ≡ ok a
unfolding io_steps
attempt_answer w (ok x, w') a h = cc h
attempt_answer w (err e, w') a h = absurd (cc h)
attempt_answer w (panicked, w') a h = absurd (cc h)

pub attempt-eq-ok :
    {T A : Type 0} (m : Io T A) (w : World T) (a : A)
    → (attempt m w).0 ≡ ok (Base.ok a)
    → (m w).0 ≡ ok a
unfolding io_steps
attempt-eq-ok m w a h = attempt_answer w (m w) a h

-- The time of what lies at a path; a directory's is not modelled, and is 0.
abbrev pub node_mtime : Node → Option ℕ
node_mtime absent = none
node_mtime dir = some 0
node_mtime (file _ t) = some t

mtime_of-eq-ok :
    {T : Type 0} (n : Node) (w : World T) (t : ℕ) → (mtime_of n w).0 ≡ ok t → node_mtime n ≡ some t
unfolding mtime_of io_steps
mtime_of-eq-ok absent w t h = absurd (cc h)
mtime_of-eq-ok dir w t h = cc h
mtime_of-eq-ok (file content s) w t h = cc h

mtime_fault :
    {T : Type 0} (p : FilePath) (w w' : World T) (fault : Option Text) (t : ℕ)
    → (let step : Answer ℕ × World T = elim fault [
      | some e ↦ (err e, w')
      | none ↦ mtime_of (w.fs p) w'
    ] in
        step.0)
      ≡ ok t
    → node_mtime (w.fs p) ≡ some t
mtime_fault p w w' none t h = mtime_of-eq-ok (w.fs p) w' t h
mtime_fault p w w' (some e) t h = absurd (cc h)

pub mtime-eq-ok :
    {T : Type 0} (p : FilePath) (w : World T) (t : ℕ)
    → (mtime p w).0 ≡ ok t
    → node_mtime (w.fs p) ≡ some t
unfolding mtime fallible
mtime-eq-ok p w t h =
    mtime_fault p w (record w { faults = later_faults w.faults }) (next_fault w.faults) t h

fault_answer :
    {T A : Type 0} (w : World T) (fault : Option Text) (m : Io T A) (a : A)
    → (let step : Answer A × World T = elim fault [ some e ↦ (err e, w) | none ↦ m w ] in step.0)
      ≡ ok a
    → (m w).0 ≡ ok a
fault_answer w none m a h = h
fault_answer w (some e) m a h = absurd (cc h)

-- An operation that succeeded was not refused.
pub fallible-eq-ok :
    {T A : Type 0} (m : Io T A) (w : World T) (a : A)
    → (fallible m w).0 ≡ ok a
    → (m (record w { faults = later_faults w.faults })).0 ≡ ok a
unfolding fallible
fallible-eq-ok m w a h =
    fault_answer (record w { faults = later_faults w.faults }) (next_fault w.faults) m a h

pub pure-eq-ok : {T A : Type 0} (a b : A) (w : World T) → (pure a w).0 ≡ ok b → a ≡ b
unfolding io_steps
pure-eq-ok a b w h = cc h
