-- ===== src/Identity/Laws.antt =====
-- Which identities `new` builds, and where their namespaces lie.
use asset_resolver.Base.{
  ℕ, ◌≡◌, refl, sym, ◌↔◌, arith, Text, ok, true, [], ◌∷◌, nat_eq, list_eq, length, all,
  is_ascii_hexdigit, is_lower_hexdigit, to_ascii_lowercase, lower_byte, length-to_ascii_lowercase,
  and_true, and_intro,
}
use asset_resolver.Identity.{AssetIdentity, is_supported_product, new}

-- What `new` establishes: a supported product, and 32 hexadecimal digits in lower case.
pub record IsValid (i : AssetIdentity) : Type 0 where
  pub supported : is_supported_product i.product ≡ true
  pub digits : all is_lower_hexdigit i.build_key ≡ true
  pub sized : length i.build_key ≡ 32

lower_byte-hexdigit : (c : ℕ) → is_ascii_hexdigit c ≡ true → is_lower_hexdigit (lower_byte c) ≡ true
unfolding lower_byte
lower_byte-hexdigit c h = ground arith

all-lower_hexdigit :
    (t : Text)
    → all is_ascii_hexdigit t ≡ true
    → all is_lower_hexdigit (to_ascii_lowercase t) ≡ true
unfolding to_ascii_lowercase
all-lower_hexdigit [] h = refl
all-lower_hexdigit (c ∷ t) h =
    let (digit, rest) = and_true _ _ h in
    and_intro _ _ (lower_byte-hexdigit c digit) (all-lower_hexdigit t rest)

-- `new` answers with an identity exactly when the product is supported and the key has 32
-- hexadecimal digits; the identity has that product, and the key in lower case.
pub new-eq-ok :
    (product build_key : Text) (i : AssetIdentity)
    → (new product build_key ≡ ok i) ↔ (
        (is_supported_product product ≡ true)
        × (length build_key ≡ 32)
        × (all is_ascii_hexdigit build_key ≡ true)
        × (i.product ≡ product)
        × (i.build_key ≡ to_ascii_lowercase build_key))
unfolding new
new-eq-ok product build_key i = (λ h. ground arith, λ (s, n, d, p, k). ground arith)

pub new-IsValid :
    (product build_key : Text) (i : AssetIdentity) → new product build_key ≡ ok i → IsValid i
new-IsValid product build_key i h =
    let (s, n, d, p, k) = (new-eq-ok product build_key i).0 h in
    record {
      supported = rw p s;
      digits = rw k (all-lower_hexdigit build_key d);
      sized = rw (k, length-to_ascii_lowercase) n;
    }

hexdigit_of_lower : (t : Text) → all is_lower_hexdigit t ≡ true → all is_ascii_hexdigit t ≡ true
hexdigit_of_lower [] h = refl
hexdigit_of_lower (c ∷ t) h =
    let (digit, rest) = and_true (is_lower_hexdigit c) (all is_lower_hexdigit t) h in
    and_intro _ _ (ground arith) (hexdigit_of_lower t rest)

lower_of_lower : (t : Text) → all is_lower_hexdigit t ≡ true → to_ascii_lowercase t ≡ t
unfolding to_ascii_lowercase lower_byte
lower_of_lower [] h = refl
lower_of_lower (c ∷ t) h =
    let (digit, rest) = and_true (is_lower_hexdigit c) (all is_lower_hexdigit t) h in
    let same : lower_byte c ≡ c = ground arith in cc (same, lower_of_lower t rest)

-- An identity passes its own check, and is what the check returns: `new` is idempotent.
pub new_again : (i : AssetIdentity) → IsValid i → new i.product i.build_key ≡ ok i
new_again i v = (new-eq-ok _ _ i).1 (
  v.supported,
  v.sized,
  hexdigit_of_lower i.build_key v.digits,
  refl,
  sym (lower_of_lower i.build_key v.digits),
)
