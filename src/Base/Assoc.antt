-- ===== src/Base/Assoc.antt =====
-- A hash map as an association list in which each key stands once.
use mathlib.Core.Path.{◌≡◌, refl, ap}
use mathlib.Core.Logic.{◌⊎◌, inl, inr}
use mathlib.Core.Option.{Option, none, some}
use mathlib.Core.Bool.{Bool, true, false}
use mathlib.Core.List.{List, [], ◌∷◌}
use native.Mathlib.Omega.{arith}
use asset_resolver.Base.Tests.{if◌then◌else◌, Option-cases}
use asset_resolver.Base.Equality.{Eq, ◌==◌}

abbrev pub is_some {ℓ} : {A : Type ℓ} → Option A → Bool
is_some none = false
is_some (some _) = true

abbrev pub Assoc {ℓ κ} : Type ℓ → Type κ → Type (ℓ ⊔ κ)
Assoc K V = List (K × V)

module _ {ℓ κ} {K : Type ℓ} {V : Type κ} ⦃e : Eq K⦄ where
  -- HashMap::get
  unfoldable pub lookup : K → Assoc K V → Option V
  lookup k [] = none
  lookup k ((j, v) ∷ m) = if j == k then some v else lookup k m

  -- HashMap::insert
  unfoldable pub insert : K → V → Assoc K V → Assoc K V
  insert k v [] = (k, v) ∷ []
  insert k v ((j, w) ∷ m) = if j == k then (k, v) ∷ m else (j, w) ∷ insert k v m

  pub lookup-insert :
      (j k : K) (v : V) (m : Assoc K V)
      → lookup j (insert k v m) ≡ (if k == j then some v else lookup j m)
  unfolding lookup insert
  lookup-insert j k v [] = refl
  lookup-insert j k v ((i, w) ∷ m) =
      ground (arith, e.equals_iff k j, e.equals_iff i k, e.equals_iff i j, lookup-insert j k v m)

  -- Each key stands once.
  abbrev pub NodupKeys : Assoc K V → Type κ
  NodupKeys [] = Unit
  NodupKeys ((k, _) ∷ m) = (lookup k m ≡ none) × NodupKeys m

  pub insert-NodupKeys : (k : K) (v : V) (m : Assoc K V) → NodupKeys m → NodupKeys (insert k v m)
  unfolding insert lookup
  insert-NodupKeys k v [] h = (refl, tt)
  insert-NodupKeys k v ((j, w) ∷ m) (fresh, h) =
      ground
        (arith, e.equals_iff j k, e.equals_iff k j, lookup-insert j k v m, insert-NodupKeys k v m h)

  entry : Option V → K → V → Assoc K V → V × Assoc K V
  entry none k v m = (v, insert k v m)
  entry (some w) k v m = (w, m)

  -- `*map.entry(key).or_insert(value)`: the value that the key then has, and the map.
  unfoldable pub or_insert : K → V → Assoc K V → V × Assoc K V
  unfolding entry
  or_insert k v m = entry (lookup k m) k v m

  entry-found :
      (o : Option V) (j k : K) (v w : V) (m : Assoc K V)
      → lookup j (entry o k v m).1 ≡ some w
      → ((j ≡ k) × (w ≡ v)) ⊎ (lookup j m ≡ some w)
  unfolding entry
  entry-found none j k v w m h = ground (arith, e.equals_iff k j, lookup-insert j k v m)
  entry-found (some u) j k v w m h = inr h

  -- What is found afterwards was put in, or was there.
  pub or_insert-found :
      (j k : K) (v w : V) (m : Assoc K V)
      → lookup j (or_insert k v m).1 ≡ some w
      → ((j ≡ k) × (w ≡ v)) ⊎ (lookup j m ≡ some w)
  unfolding or_insert
  or_insert-found j k v w m h = entry-found (lookup k m) j k v w m h

  entry-value :
      (o : Option V) (k : K) (v : V) (m : Assoc K V)
      → lookup k m ≡ o
      → lookup k (entry o k v m).1 ≡ some (entry o k v m).0
  unfolding entry
  entry-value none k v m h = ground (arith, e.equals_iff k k, lookup-insert k k v m)
  entry-value (some w) k v m h = h

  -- The key has the value that is given back.
  pub or_insert-value :
      (k : K) (v : V) (m : Assoc K V) → lookup k (or_insert k v m).1 ≡ some (or_insert k v m).0
  unfolding or_insert
  or_insert-value k v m = entry-value (lookup k m) k v m refl

  entry-known :
      (o : Option V) (j k : K) (v : V) (m : Assoc K V)
      → is_some (lookup j m) ≡ true
      → is_some (lookup j (entry o k v m).1) ≡ true
  unfolding entry
  entry-known none j k v m h = ground (arith, lookup-insert j k v m, e.equals_iff k j)
  entry-known (some w) j k v m h = h

  -- A key that was there still is.
  pub or_insert-known :
      (j k : K) (v : V) (m : Assoc K V)
      → is_some (lookup j m) ≡ true
      → is_some (lookup j (or_insert k v m).1) ≡ true
  unfolding or_insert
  or_insert-known j k v m h = entry-known (lookup k m) j k v m h

  entry-stable :
      (o : Option V) (j k : K) (v w : V) (m : Assoc K V)
      → lookup k m ≡ o
      → lookup j m ≡ some w
      → lookup j (entry o k v m).1 ≡ some w
  unfolding entry
  entry-stable none j k v w m fresh h =
      ground (arith, lookup-insert j k v m, e.equals_iff k j, ap (λ i. lookup i m))
  entry-stable (some u) j k v w m fresh h = h

  -- What a key has it keeps.
  pub or_insert-stable :
      (j k : K) (v w : V) (m : Assoc K V)
      → lookup j m ≡ some w
      → lookup j (or_insert k v m).1 ≡ some w
  unfolding or_insert
  or_insert-stable j k v w m h = entry-stable (lookup k m) j k v w m refl h

  -- A key that is new gets the value; another keeps its own.
  pub or_insert-fresh :
      (k : K) (v : V) (m : Assoc K V) → lookup k m ≡ none → (or_insert k v m).0 ≡ v
  unfolding or_insert
  or_insert-fresh k v m h = rw h refl

  pub or_insert-NodupKeys :
      (k : K) (v : V) (m : Assoc K V) → NodupKeys m → NodupKeys (or_insert k v m).1
  unfolding or_insert
  or_insert-NodupKeys k v m h = elim (Option-cases (lookup k m)) [
    | inl fresh ↦ rw fresh (insert-NodupKeys k v m h)
    | inr (w, found) ↦ rw found h
  ]
