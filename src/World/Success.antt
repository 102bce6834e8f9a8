-- ===== src/World/Success.antt =====
-- Computations that answer with a value, as long as the world has a property that they keep.
use asset_resolver.Base.{◌≡◌, refl, sym, ◌∙◌, ap, [], Text, Option, none, some, Result}
use asset_resolver.Base
use asset_resolver.World.Io.{
  World, Io, Answer, ok, err, panicked, ◌>>=◌, ◌>>◌, pure, lift, map_err, fallible, io_steps,
  next_fault, later_faults,
}

-- A value answers, and the property holds of the world afterwards.
abbrev pub Good : {T A : Type 0} → (World T → Type 0) → Answer A × World T → Type 0
Good {A = A} P r = (a : A) × (r.0 ≡ ok a) × P r.1

pub record Succeeds {T A : Type 0} (P : World T → Type 0) (m : Io T A) : Type 0 where
  pub at : (w : World T) → P w → Good P (m w)

same_value : {A : Type 0} {a b : A} → ok b ≡ ok a → b ≡ a
same_value h = cc h

bind_answer :
    {T A B : Type 0} (P : World T → Type 0) (u : World T) (r : Answer A × World T) (f : A → Io T B)
    → Good P r
    → ((x : A) → Succeeds P (f x))
    → Good P (◌>>=◌ (λ _. r) f u)
unfolding io_steps
bind_answer P u (ok x, w) f (a, good, p) k = (k x).at w p
bind_answer P u (err e, w) f (a, bad, p) k = absurd (cc bad)
bind_answer P u (panicked, w) f (a, bad, p) k = absurd (cc bad)

-- The same, with what is known of the value.
abbrev pub Yield : {T A : Type 0} → (World T → Type 0) → (A → Type 0) → Answer A × World T → Type 0
Yield {A = A} P V r = (a : A) × (r.0 ≡ ok a) × V a × P r.1

pub record Yields {T A : Type 0} (P : World T → Type 0) (m : Io T A) (V : A → Type 0) : Type 0 where
  pub at : (w : World T) → P w → Yield P V (m w)

known_answer :
    {T A B : Type 0} (P : World T → Type 0) (V : A → Type 0) (W : B → Type 0) (u : World T)
    (r : Answer A × World T) (f : A → Io T B)
    → Yield P V r
    → ((x : A) → V x → Yields P (f x) W)
    → Yield P W (◌>>=◌ (λ _. r) f u)
unfolding io_steps
known_answer P V W u (ok x, w) f (a, good, v, p) k = (k x (rw (same_value good) v)).at w p
known_answer P V W u (err e, w) f (a, bad, v, p) k = absurd (cc bad)
known_answer P V W u (panicked, w) f (a, bad, v, p) k = absurd (cc bad)

map_err_answer :
    {T A : Type 0} (P : World T → Type 0) (u : World T) (r : Answer A × World T) (f : Text → Text)
    → Good P r
    → Good P (map_err f (λ _. r) u)
unfolding io_steps
map_err_answer P u (ok x, w) f good = good
map_err_answer P u (err e, w) f (a, bad, p) = absurd (cc bad)
map_err_answer P u (panicked, w) f (a, bad, p) = absurd (cc bad)

fault_free :
    {T A : Type 0} (P : World T → Type 0) (w : World T) (fault : Option Text) (m : Io T A)
    → fault ≡ none
    → Good P (m w)
    → Good P
        (let step : Answer A × World T = elim fault [ some e ↦ (err e, w) | none ↦ m w ] in step)
fault_free P w none m h good = good
fault_free P w (some e) m h good = absurd (cc h)

module _ {T : Type 0} {P : World T → Type 0} where
  pub bind-Succeeds :
      {A B : Type 0} {m : Io T A} {f : A → Io T B}
      → Succeeds P m
      → ((x : A) → Succeeds P (f x))
      → Succeeds P (m >>= f)
  unfolding io_steps
  bind-Succeeds {m = m} {f = f} h k = record { at = λ w p. bind_answer P w (m w) f (h.at w p) k }

  pub map_err-Succeeds :
      {A : Type 0} (f : Text → Text) {m : Io T A} → Succeeds P m → Succeeds P (map_err f m)
  unfolding io_steps
  map_err-Succeeds f {m = m} h = record { at = λ w p. map_err_answer P w (m w) f (h.at w p) }

  pub pure-Succeeds : {A : Type 0} (a : A) → Succeeds P (pure {T = T} a)
  unfolding io_steps
  pure-Succeeds a = record { at = λ w p. (a, refl, p) }

  pub lift-Succeeds :
      {A : Type 0} (r : Result A) (a : A) → r ≡ Base.ok a → Succeeds P (lift {T = T} r)
  unfolding io_steps
  lift-Succeeds (Base.ok x) a h = record { at = λ w p. (x, refl, p) }
  lift-Succeeds (Base.err e) a h = absurd (cc h)

  -- Without faults to come, what can fail does what it does.
  pub fallible-Succeeds :
      {A : Type 0} {m : Io T A}
      → ((w : World T) → P w → w.faults ≡ [])
      → ((w : World T) → P w → P (record w { faults = later_faults w.faults }))
      → Succeeds P m
      → Succeeds P (fallible m)
  unfolding fallible
  fallible-Succeeds {m = m} quiet later h = record {
    at = λ w p.
        fault_free P (record w { faults = later_faults w.faults }) (next_fault w.faults) m
          (ap next_fault (quiet w p)) (h.at _ (later w p));
  }

  -- What succeeds yields what every value of it has.
  pub yields :
      {A : Type 0} {m : Io T A} {V : A → Type 0}
      → Succeeds P m
      → ((w : World T) (a : A) → P w → (m w).0 ≡ ok a → V a)
      → Yields P m V
  yields h v = record {
    at = λ w p. let (a, good, kept) = h.at w p in (a, good, v w a p good, kept);
  }

  pub bind-Yields :
      {A B : Type 0} {m : Io T A} {f : A → Io T B} {V : A → Type 0} {W : B → Type 0}
      → Yields P m V
      → ((x : A) → V x → Yields P (f x) W)
      → Yields P (m >>= f) W
  unfolding io_steps
  bind-Yields {m = m} {f = f} {V = V} {W = W} h k = record {
    at = λ w p. known_answer P V W w (m w) f (h.at w p) k;
  }

  pub then-Yields :
      {B : Type 0} {m : Io T (Unit {0})} {k : Io T B} {W : B → Type 0}
      → Succeeds P m
      → Yields P k W
      → Yields P (m >> k) W
  unfolding ◌>>◌
  then-Yields h k = bind-Yields {V = λ _. Unit {0}} (yields h (λ w a p good. tt)) (λ _ _. k)
