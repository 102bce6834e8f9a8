-- ===== src/World/Gives.antt =====
-- How the value that a computation answers with and the statics behind it are related.
use asset_resolver.Base.{◌≡◌}
use asset_resolver.World.Io.{World, Io, ok, ◌>>=◌, ◌>>◌, pure, io_steps}
use asset_resolver.World.Inversion.{>>=-next}
use asset_resolver.World.Statics.{Holds}

-- If the property holds before and the answer is a value, the value and the statics afterwards are
-- related.
pub record Gives {T A : Type 0} (P : T → Type 0) (m : Io T A) (Q : A → T → Type 0) : Type 0 where
  pub at : (w : World T) (a : A) → P w.statics → (m w).0 ≡ ok a → Q a (m w).1.statics

same_answer : {A : Type 0} {a b : A} → ok a ≡ ok b → a ≡ b
same_answer h = cc h

module _ {T A : Type 0} {P : T → Type 0} where
  pub bind-Gives :
      {B : Type 0} {m : Io T A} {f : A → Io T B} {Q : A → T → Type 0} {R : B → T → Type 0}
      → Gives P m Q
      → ((x : A) → Gives (Q x) (f x) R)
      → Gives P (m >>= f) R
  bind-Gives {m = m} {f = f} h k = record {
    at = λ w b p good.
        let (a, first, rest, same) = >>=-next m f w b good in
        rw same ((k a).at (m w).1 b (h.at w a p first) rest);
  }

  pub keep-Gives : {m : Io T A} → Holds P m → Gives P m (λ _. P)
  keep-Gives h = record { at = λ w a p _. h.at w p }

  pub pure-Gives :
      {Q : A → T → Type 0} (a : A) → ((s : T) → P s → Q a s) → Gives P (pure {T = T} a) Q
  unfolding io_steps
  pure-Gives a h = record { at = λ w b p good. rw (← same_answer good) (h w.statics p) }

module _ {T B : Type 0} {P : T → Type 0} where
  pub then-Gives :
      {m : Io T (Unit {0})} {k : Io T B} {Q : T → Type 0} {R : B → T → Type 0}
      → Gives P m (λ _. Q)
      → Gives Q k R
      → Gives P (m >> k) R
  unfolding ◌>>◌
  then-Gives h k = bind-Gives h (λ _. k)
