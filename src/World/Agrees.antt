-- ===== src/World/Agrees.antt =====
-- Two computations that do the same in every world with a property.
use asset_resolver.Base.{◌≡◌, refl, ap, ◌∙◌, Text, Bool, true, false, Result, if◌then◌else◌}
use asset_resolver.Base
use asset_resolver.World.Io.{
  World, Io, Answer, ok, err, panicked, ◌>>=◌, ◌>>◌, attempt, map_err, io_steps,
}
use asset_resolver.World.Files.{Preserves}

pub record Agrees {T A : Type 0} (P : World T → Type 0) (m n : Io T A) : Type 0 where
  pub at : (w : World T) → P w → m w ≡ n w

agree_answer :
    {T A B : Type 0} (P : World T → Type 0) (u : World T) (r : Answer A × World T)
    (f g : A → Io T B)
    → P r.1
    → ((a : A) → Agrees P (f a) (g a))
    → ◌>>=◌ (λ _. r) f u ≡ ◌>>=◌ (λ _. r) g u
unfolding io_steps
agree_answer P u (ok a, w) f g p k = (k a).at w p
agree_answer P u (err e, w) f g p k = refl
agree_answer P u (panicked, w) f g p k = refl

module _ {T : Type 0} {P : World T → Type 0} where
  pub same-Agrees : {A : Type 0} (m : Io T A) → Agrees P m m
  same-Agrees m = record { at = λ w p. refl }

  -- The rest of a chain, where its first step keeps the property
  pub after-Agrees :
      {A B : Type 0} {m : Io T A} {f g : A → Io T B}
      → Preserves P m
      → ((a : A) → Agrees P (f a) (g a))
      → Agrees P (m >>= f) (m >>= g)
  unfolding io_steps
  after-Agrees {m = m} {f = f} {g = g} h k = record {
    at = λ w p. agree_answer P w (m w) f g (h.at w p) k;
  }

  pub next-Agrees :
      {B : Type 0} {m : Io T (Unit {0})} {k k' : Io T B}
      → Preserves P m
      → Agrees P k k'
      → Agrees P (m >> k) (m >> k')
  unfolding ◌>>◌
  next-Agrees h k = after-Agrees h (λ _. k)

  -- The first step of a chain
  pub first-Agrees :
      {A B : Type 0} {m n : Io T A} (f : A → Io T B) → Agrees P m n → Agrees P (m >>= f) (n >>= f)
  unfolding io_steps
  first-Agrees f h = record { at = λ w p. ap (λ r. ◌>>=◌ (λ _. r) f w) (h.at w p) }

  pub map_err-Agrees :
      {A : Type 0} (f : Text → Text) {m n : Io T A}
      → Agrees P m n
      → Agrees P (map_err f m) (map_err f n)
  unfolding io_steps
  map_err-Agrees f h = record { at = λ w p. ap (λ r. map_err f (λ _. r) w) (h.at w p) }

  pub attempt-Agrees : {A : Type 0} {m n : Io T A} → Agrees P m n → Agrees P (attempt m) (attempt n)
  unfolding io_steps
  attempt-Agrees h = record { at = λ w p. ap (λ r. attempt (λ _. r) w) (h.at w p) }

  pub if-Agrees :
      {A : Type 0} (b : Bool) {m m' n n' : Io T A}
      → Agrees P m m'
      → Agrees P n n'
      → Agrees P (if b then m else n) (if b then m' else n')
  if-Agrees true h k = h
  if-Agrees false h k = k

  -- Both steps of a chain
  pub both-Agrees :
      {A B : Type 0} {m n : Io T A} {f g : A → Io T B}
      → Agrees P m n
      → Preserves P n
      → ((a : A) → Agrees P (f a) (g a))
      → Agrees P (m >>= f) (n >>= g)
  both-Agrees {f = f} same h k = record {
    at = λ w p. (first-Agrees f same).at w p ∙ (after-Agrees h k).at w p;
  }

  pub start-Agrees :
      {B : Type 0} {m n : Io T (Unit {0})} (k : Io T B) → Agrees P m n → Agrees P (m >> k) (n >> k)
  unfolding ◌>>◌
  start-Agrees k same = first-Agrees (λ _. k) same

  pub result-Agrees :
      {A B : Type 0} (r : Result A) {f f' : A → Io T B} {g g' : Text → Io T B}
      → ((a : A) → Agrees P (f a) (f' a))
      → ((e : Text) → Agrees P (g e) (g' e))
      → Agrees P
          (let step : Io T B = elim r [ Base.ok a ↦ f a | Base.err e ↦ g e ] in step)
          (let step : Io T B = elim r [ Base.ok a ↦ f' a | Base.err e ↦ g' e ] in step)
  result-Agrees (Base.ok a) h k = h a
  result-Agrees (Base.err e) h k = k e
