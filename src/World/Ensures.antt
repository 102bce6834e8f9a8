-- ===== src/World/Ensures.antt =====
-- What holds of the value and the world behind a computation that succeeds.
use asset_resolver.Base.{
  ◌≡◌, refl, sym, ap, ◌∙◌, Text, FilePath, Result, Bool, true, false, if◌then◌else◌,
}
use asset_resolver.Base
use asset_resolver.World.Fs.{node_is_file}
use asset_resolver.World.Io.{
  World, Io, Answer, ok, err, panicked, ◌>>=◌, ◌>>◌, pure, throw, lift, map_err, is_file, io_steps,
}
use asset_resolver.World.Chains.{>>=-ok, is_file_step}
use asset_resolver.World.Directories.{map_err-world}
use asset_resolver.World.Inversion.{>>=-next, map_err-eq-ok, pure-eq-ok}
use asset_resolver.World.Files.{Preserves}

pub record Ensures {T A : Type 0} (m : Io T A) (R : A → World T → Type 0) : Type 0 where
  pub at : (w : World T) (a : A) → (m w).0 ≡ ok a → R a (m w).1

module _ {T A : Type 0} {R : A → World T → Type 0} where
  pub throw-Ensures : (e : Text) → Ensures (throw e) R
  unfolding io_steps
  throw-Ensures e = record { at = λ w a h. absurd (cc h) }

  pure-Ensures : (a : A) → ((w : World T) → R a w) → Ensures (pure a) R
  unfolding io_steps
  pure-Ensures a h = record { at = λ w b same. rw (← pure-eq-ok a b w same) (h w) }

  pub map_err-Ensures : (f : Text → Text) {m : Io T A} → Ensures m R → Ensures (map_err f m) R
  map_err-Ensures f {m = m} h = record {
    at = λ w a good. rw (map_err-world f m w) (h.at w a (map_err-eq-ok f m w a good));
  }

  pub if-Ensures :
      (b : Bool) {m n : Io T A} → Ensures m R → Ensures n R → Ensures (if b then m else n) R
  if-Ensures true h k = h
  if-Ensures false h k = k

  pub bind-Ensures :
      {B : Type 0} {m : Io T B} (f : B → Io T A) {S : B → World T → Type 0}
      → Ensures m S
      → ((b : B) (w : World T) (a : A) → S b w → (f b w).0 ≡ ok a → R a (f b w).1)
      → Ensures (m >>= f) R
  bind-Ensures {m = m} f h k = record {
    at = λ w a good.
        let (b, first, rest, same) = >>=-next m f w a good in
        rw same (k b (m w).1 a (h.at w b first) rest);
  }

  -- Only the rest of the chain matters.
  pub later-Ensures :
      {B : Type 0} (m : Io T B) {f : B → Io T A} → ((b : B) → Ensures (f b) R) → Ensures (m >>= f) R
  later-Ensures m {f = f} k = record {
    at = λ w a good.
        let (b, first, rest, same) = >>=-next m f w a good in rw same ((k b).at (m w).1 a rest);
  }

  pub next-Ensures : (m : Io T (Unit {0})) {k : Io T A} → Ensures k R → Ensures (m >> k) R
  unfolding ◌>>◌
  next-Ensures m h = later-Ensures m (λ _. h)

  gate :
      (b : Bool) (a : A) (k : Io T A) (w : World T) (x : A)
      → (b ≡ true → R a w)
      → Ensures k R
      → ((if b then pure a else k) w).0 ≡ ok x
      → R x ((if b then pure a else k) w).1
  unfolding pure
  gate true a k w x here later h = rw (← pure-eq-ok a x w h) (here refl)
  gate false a k w x here later h = later.at w x h

  -- A file that is there is the answer.
  pub is_file-Ensures :
      (p : FilePath) (a : A) {k : Io T A}
      → ((w : World T) → node_is_file (w.fs p) ≡ true → R a w)
      → Ensures k R
      → Ensures (is_file p >>= λ there. if there then pure a else k) R
  is_file-Ensures p a {k = k} here later = record {
    at = λ w x h.
        let same : (is_file p >>= λ there. if there then pure a else k) w
            ≡ (if node_is_file (w.fs p) then pure a else k) w =
          >>=-ok (is_file p) (λ there. if there then pure a else k) (is_file_step p w) in
        rw same
          (gate (node_is_file (w.fs p)) a k w x (here w) later (ap (λ r. r.0) (sym same) ∙ h));
  }

-- The same of a computation that starts in a world with a property.
pub record Leads {T A : Type 0} (P : World T → Type 0) (m : Io T A) (R : A → World T → Type 0)
    : Type 0 where
  pub at : (w : World T) (a : A) → P w → (m w).0 ≡ ok a → R a (m w).1

module _ {T A : Type 0} {P : World T → Type 0} where
  pub bind-Leads :
      {B : Type 0} {m : Io T B} {S : B → World T → Type 0} (f : B → Io T A)
      {R : A → World T → Type 0}
      → Leads P m S
      → ((b : B) → Leads (S b) (f b) R)
      → Leads P (m >>= f) R
  bind-Leads {m = m} f h k = record {
    at = λ w a p good.
        let (b, first, rest, same) = >>=-next m f w a good in
        rw same ((k b).at (m w).1 a (h.at w b p first) rest);
  }

  pub keep-Leads : {m : Io T A} → Preserves P m → Leads P m (λ _. P)
  keep-Leads h = record { at = λ w a p good. h.at w p }

  any-Leads : {m : Io T A} {R : A → World T → Type 0} → Ensures m R → Leads P m R
  any-Leads h = record { at = λ w a p good. h.at w a good }

  pub throw-Leads : (e : Text) {R : A → World T → Type 0} → Leads P (throw e) R
  throw-Leads e = any-Leads (throw-Ensures e)

  pub if-Leads :
      (b : Bool) {m n : Io T A} {R : A → World T → Type 0}
      → Leads P m R
      → Leads P n R
      → Leads P (if b then m else n) R
  if-Leads true h k = h
  if-Leads false h k = k

  -- What a lift answers, and the world as it was
  pub lift-Leads : (r : Result A) → Leads P (lift r) (λ a w. P w × (r ≡ Base.ok a))
  unfolding io_steps
  lift-Leads (Base.ok x) = record { at = λ w a p good. (p, cc good) }
  lift-Leads (Base.err e) = record { at = λ w a p bad. absurd (cc bad) }

-- A fact that is no matter of the world is carried on.
pub fact-Leads :
    {T A : Type 0} {F : Type 0} {G : A → Type 0} {m : Io T A}
    → Ensures m (λ a _. G a)
    → Leads (λ _. F) m (λ a _. F × G a)
fact-Leads h = record { at = λ w a fact good. (fact, h.at w a good) }

-- Whatever the answer is, the invariant holds of the world behind a computation that starts in a world
-- with a property.
pub record Guards {T A : Type 0} (P : World T → Type 0) (m : Io T A) (I : World T → Type 0)
    : Type 0 where
  pub at : (w : World T) → P w → I (m w).1

guard_answer :
    {T A B : Type 0} (I : World T → Type 0) (S : A → World T → Type 0) (u : World T)
    (r : Answer A × World T) (f : A → Io T B)
    → I r.1
    → ((a : A) → r.0 ≡ ok a → S a r.1)
    → ((a : A) → Guards (S a) (f a) I)
    → I (◌>>=◌ (λ _. r) f u).1
unfolding io_steps
guard_answer I S u (ok a, w) f i s k = (k a).at w (s a refl)
guard_answer I S u (err e, w) f i s k = i
guard_answer I S u (panicked, w) f i s k = i

module _ {T A : Type 0} {P I : World T → Type 0} where
  pub bind-Guards :
      {B : Type 0} {m : Io T B} {S : B → World T → Type 0} (f : B → Io T A)
      → Guards P m I
      → Leads P m S
      → ((b : B) → Guards (S b) (f b) I)
      → Guards P (m >>= f) I
  unfolding io_steps
  bind-Guards {m = m} {S = S} f h l k = record {
    at = λ w p. guard_answer I S w (m w) f (h.at w p) (λ a. l.at w a p) k;
  }

  pub keep-Guards : {m : Io T A} → ((w : World T) → P w → I w) → Preserves I m → Guards P m I
  keep-Guards so h = record { at = λ w p. h.at w (so w p) }

  pub then-Guards :
      (m : Io T (Unit {0})) {k : Io T A} → Guards P m I → Guards I k I → Guards P (m >> k) I
  unfolding ◌>>◌
  then-Guards m {k = k} h rest =
      bind-Guards {S = λ _. I} (λ _. k) h (record { at = λ w a p good. h.at w p }) (λ _. rest)
