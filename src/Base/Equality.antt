-- ===== src/Base/Equality.antt =====
-- Equality tests of the types that the program compares, as instances of one interface.
use Prim.Native.Nat.{ℕ}
use mathlib.Core.Path.{◌≡◌, refl}
use mathlib.Core.Logic.{◌↔◌, inl, inr, ◌≢◌}
use mathlib.Core.Bool.{Bool, true, false, ◌&&◌}
use mathlib.Core.Option.{Option, none, some}
use mathlib.Core.List.{List, [], ◌∷◌}
use native.Mathlib.Omega.{arith}
use asset_resolver.Base.Tests.{nat_eqb, nat_eqb_iff, Bool-cases}

infix 50 ◌==◌
pub record Eq {ℓ} (A : Type ℓ) : Type ℓ where
  pub equals : A → A → Bool
  pub equals_iff : (a b : A) → (equals a b ≡ true) ↔ (a ≡ b)

abbrev pub ◌==◌ {ℓ} : {A : Type ℓ} ⦃e : Eq A⦄ → A → A → Bool
◌==◌ ⦃e⦄ a b = e.equals a b

module _ {ℓ} {A : Type ℓ} ⦃e : Eq A⦄ where
  pub eq_refl : (a : A) → (a == a) ≡ true
  eq_refl a = (e.equals_iff a a).1 refl

  pub eq→≡ : (a b : A) → (a == b) ≡ true → a ≡ b
  eq→≡ a b = (e.equals_iff a b).0

  pub ne→false : (a b : A) → a ≢ b → (a == b) ≡ false
  ne→false a b h = elim (Bool-cases (a == b)) [
    | inl same ↦ absurd (h (eq→≡ a b same))
    | inr differ ↦ differ
  ]

  abbrev pub list_eqb : List A → List A → Bool
  list_eqb [] [] = true
  list_eqb [] (y ∷ ys) = false
  list_eqb (x ∷ xs) [] = false
  list_eqb (x ∷ xs) (y ∷ ys) = x == y && list_eqb xs ys

  pub list_eqb_iff : (xs ys : List A) → (list_eqb xs ys ≡ true) ↔ (xs ≡ ys)
  list_eqb_iff [] [] = (λ h. refl, λ h. refl)
  list_eqb_iff [] (y ∷ ys) = (λ h. cc, λ h. cc)
  list_eqb_iff (x ∷ xs) [] = (λ h. cc, λ h. cc)
  list_eqb_iff (x ∷ xs) (y ∷ ys) = ground (arith, e.equals_iff x y, list_eqb_iff xs ys)

  abbrev pub option_eqb : Option A → Option A → Bool
  option_eqb none none = true
  option_eqb none (some y) = false
  option_eqb (some x) none = false
  option_eqb (some x) (some y) = x == y

  pub option_eqb_iff : (a b : Option A) → (option_eqb a b ≡ true) ↔ (a ≡ b)
  option_eqb_iff none none = (λ h. refl, λ h. refl)
  option_eqb_iff none (some y) = (λ h. cc, λ h. cc)
  option_eqb_iff (some x) none = (λ h. cc, λ h. cc)
  option_eqb_iff (some x) (some y) = ground (arith, e.equals_iff x y)

  -- Shut in proofs, so that a list of bytes is compared as a whole.
  unfoldable pub same_list : List A → List A → Bool
  same_list = list_eqb

  pub same_list_iff : (xs ys : List A) → (same_list xs ys ≡ true) ↔ (xs ≡ ys)
  unfolding same_list
  same_list_iff = list_eqb_iff

instance abbrev pub list_eq {ℓ} : {A : Type ℓ} ⦃e : Eq A⦄ → Eq (List A)
list_eq = record { equals = same_list; equals_iff = same_list_iff }

instance abbrev pub option_eq {ℓ} : {A : Type ℓ} ⦃e : Eq A⦄ → Eq (Option A)
option_eq = record { equals = option_eqb; equals_iff = option_eqb_iff }

instance abbrev pub nat_eq : Eq ℕ
nat_eq = record { equals = nat_eqb; equals_iff = nat_eqb_iff }
