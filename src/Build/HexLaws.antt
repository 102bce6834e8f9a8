-- ===== src/Build/HexLaws.antt =====
-- `parse_hex_16` against an independent encoder, and what else it accepts.
use asset_resolver.Base.{
  ℕ, zero, suc, ◌+◌, ◌-◌, ◌*◌, ◌/◌, ◌%◌, ◌<◌, ◌≡◌, ◌≢◌, refl, ap, sym, ◌∙◌, ◌⊎◌, inl, inr, arith,
  Text, txt, Option, none, some, Bool, true, false, ◌&&◌, not, List, [], ◌∷◌, ◌++◌, length, all,
  All, leb, ltb, if◌then◌else◌, ◌==◌, nat_eq, is_ascii_hexdigit, and_true, Bool-cases, Option-cases,
}
use asset_resolver.Base
use asset_resolver.World.Io.{Answer, Answer-cases, ok, err, panicked}
use asset_resolver.Identity.{AssetIdentity, new}
use asset_resolver.Identity.Laws.{new-eq-ok}
use asset_resolver.Build.Hex.{at_boundary, hex_digit, byte_from_hex, hex_pairs, parse_hex_16, push}

-- The lower-case digits of a byte, most significant first.
abbrev digit_char : ℕ → ℕ
digit_char n = if ltb n 10 then n + 48 else n + 87

unfoldable pub hex_text : Text → Text
hex_text [] = []
hex_text (b ∷ bs) = digit_char (b / 16) ∷ digit_char (b % 16) ∷ hex_text bs

hex_digit-digit_char : (n : ℕ) → n < 16 → hex_digit (digit_char n) ≡ some n
unfolding hex_digit
hex_digit-digit_char n h = ground arith

byte_from_hex-digits :
    (b : ℕ) → b < 256 → byte_from_hex (digit_char (b / 16)) (digit_char (b % 16)) ≡ some b
unfolding byte_from_hex
byte_from_hex-digits b h =
    ground (arith, hex_digit-digit_char (b / 16), hex_digit-digit_char (b % 16))

length-hex_text : (bs : Text) → length (hex_text bs) ≡ 2 * length bs
unfolding hex_text
length-hex_text [] = refl
length-hex_text (b ∷ bs) = omega (arith, length-hex_text bs)

at_boundary-hex_text : (bs : Text) → All (λ b. b < 256) bs → at_boundary (hex_text bs) ≡ true
unfolding hex_text
at_boundary-hex_text [] h = refl
at_boundary-hex_text (b ∷ bs) (h, hs) = ground arith

hex_pairs-hex_text :
    (value bs : Text) → All (λ b. b < 256) bs → hex_pairs value (hex_text bs) ≡ ok bs
unfolding hex_pairs hex_text
hex_pairs-hex_text value [] h = refl
hex_pairs-hex_text value (b ∷ bs) (h, hs) = ground (
  arith,
  byte_from_hex-digits b h,
  at_boundary-hex_text bs hs,
  at_boundary-hex_text (b ∷ bs) (h, hs),
  hex_pairs-hex_text value bs hs,
)

-- Parsing the digits of sixteen bytes gives the bytes back.
pub parse_hex_16-hex_text :
    (bs : Text) → All (λ b. b < 256) bs → length bs ≡ 16 → parse_hex_16 (hex_text bs) ≡ ok bs
unfolding parse_hex_16
parse_hex_16-hex_text bs h n =
    ground (arith, length-hex_text bs, hex_pairs-hex_text (hex_text bs) bs h)

byte_from_hex-lt : (a b n : ℕ) → byte_from_hex a b ≡ some n → n < 256
unfolding byte_from_hex hex_digit
byte_from_hex-lt a b n h = ground arith

push-ne-ok : (n : ℕ) (r : Answer Text) (out : Text) → ((t : Text) → r ≢ ok t) → push n r ≢ ok out
push-ne-ok n (ok t) out never h = never t refl
push-ne-ok n (err e) out never h = cc
push-ne-ok n panicked out never h = cc

hex_pairs-stuck :
    (value rest : Text) (a b : ℕ) (out : Text)
    → ((t : Text) → hex_pairs value rest ≢ ok t)
    → hex_pairs value (a ∷ b ∷ rest) ≢ ok out
unfolding hex_pairs
hex_pairs-stuck value rest a b out never h = elim (Option-cases (byte_from_hex a b)) [
  | inl bad ↦ ground arith
  | inr (n, digits) ↦ ground (arith, push-ne-ok n (hex_pairs value rest) out never)
]

hex_pairs-eq-ok :
    (value s out : Text)
    → hex_pairs value s ≡ ok out
    → (length out ≡ length s / 2) × All (λ b. b < 256) out
unfolding hex_pairs
hex_pairs-eq-ok value [] [] h = (omega arith, tt)
hex_pairs-eq-ok value [] (n ∷ out) h = cc
hex_pairs-eq-ok value (a ∷ []) [] h = (omega arith, tt)
hex_pairs-eq-ok value (a ∷ []) (n ∷ out) h = cc
hex_pairs-eq-ok value (a ∷ b ∷ rest) out h = elim (Answer-cases (hex_pairs value rest)) [
  | inr never ↦ absurd (hex_pairs-stuck value rest a b out never h)
  | inl (tail, e) ↦ elim (Option-cases (byte_from_hex a b)) [
    | inl bad ↦ absurd (ground arith)
    | inr (n, digits) ↦
        let (half, bytes) = hex_pairs-eq-ok value rest tail e in
        let whole : out ≡ n ∷ tail = ground arith in
        rw whole (omega arith, (byte_from_hex-lt a b n digits, bytes))
  ]
]

-- What parses is 32 bytes long, and gives sixteen bytes.
parse_hex_16-eq-ok :
    (value out : Text)
    → parse_hex_16 value ≡ ok out
    → (length value ≡ 32) × (length out ≡ 16) × All (λ b. b < 256) out
unfolding parse_hex_16
parse_hex_16-eq-ok value out h =
    let sized : length value ≡ 32 = ground arith in
    let (half, bytes) = hex_pairs-eq-ok value value out (ground arith) in
    (sized, omega arith, bytes)

hex_digit-IsSome : (c : ℕ) → is_ascii_hexdigit c ≡ true → hex_digit c ≢ none
unfolding hex_digit
hex_digit-IsSome c h = ground arith

hexdigit-lt : (c : ℕ) → is_ascii_hexdigit c ≡ true → (c < 128) × ((c == b'+') ≡ false)
hexdigit-lt c h = (ground arith, ground arith)

byte_from_hex-digits_ne_none :
    (a b : ℕ) → is_ascii_hexdigit a ≡ true → is_ascii_hexdigit b ≡ true → byte_from_hex a b ≢ none
unfolding byte_from_hex
byte_from_hex-digits_ne_none a b ha hb =
    ground (arith, hex_digit-IsSome a ha, hex_digit-IsSome b hb, hexdigit-lt a ha)

at_boundary-digits : (s : Text) → all is_ascii_hexdigit s ≡ true → at_boundary s ≡ true
at_boundary-digits [] h = refl
at_boundary-digits (c ∷ s) h =
    let (digit, rest) = and_true (is_ascii_hexdigit c) (all is_ascii_hexdigit s) h in
    let small = hexdigit-lt c digit in ground arith

hex_edge : (a : ℕ) → a < 128 → at_boundary (a ∷ []) ≡ true
hex_edge a h = ground arith

hex_pairs_digits :
    (value s : Text) → all is_ascii_hexdigit s ≡ true → (out : Text) × (hex_pairs value s ≡ ok out)
unfolding hex_pairs
hex_pairs_digits value [] h = ([], refl)
hex_pairs_digits value (a ∷ []) h = ([], refl)
hex_pairs_digits value (a ∷ b ∷ rest) h =
    let (ha, more) = and_true (is_ascii_hexdigit a) (all is_ascii_hexdigit (b ∷ rest)) h in
    let (hb, tail) = and_true (is_ascii_hexdigit b) (all is_ascii_hexdigit rest) more in
    let (out, e) = hex_pairs_digits value rest tail in
    elim (Option-cases (byte_from_hex a b)) [
      | inl bad ↦ absurd (byte_from_hex-digits_ne_none a b ha hb bad)
      | inr (n, digits) ↦
          let small = hexdigit-lt a ha in
          let edge = at_boundary-digits rest tail in
          (n ∷ out, rw (edge, digits, e, hex_edge a small.0) refl)
    ]

-- Every text of 32 hexadecimal digits parses.
pub parse_hex_16_digits :
    (value : Text)
    → all is_ascii_hexdigit value ≡ true
    → length value ≡ 32
    → (out : Text) × (parse_hex_16 value ≡ ok out)
unfolding parse_hex_16
parse_hex_16_digits value h n =
    let (out, e) = hex_pairs_digits value value h in (out, rw (n, e) refl)

hex_pairs_plus :
    (value : Text) (d : ℕ) (rest : Text)
    → is_ascii_hexdigit d ≡ true
    → all is_ascii_hexdigit rest ≡ true
    → (out : Text) × (hex_pairs value (b'+' ∷ d ∷ rest) ≡ ok out)
unfolding hex_pairs byte_from_hex
hex_pairs_plus value d rest hd hs =
    let (out, e) = hex_pairs_digits value rest hs in
    elim (Option-cases (hex_digit d)) [
      | inl bad ↦ absurd (hex_digit-IsSome d hd bad)
      | inr (n, digit) ↦ (n ∷ out, rw (at_boundary-digits rest hs, digit, e) refl)
    ]

-- A plus sign in place of a first digit passes `parse_hex_16`, and is refused by the identity that
-- the same key is then used for.
pub parse_hex_16_plus :
    (product : Text) (d : ℕ) (rest : Text)
    → is_ascii_hexdigit d ≡ true
    → all is_ascii_hexdigit rest ≡ true
    → length rest ≡ 30
    → ((out : Text) × (parse_hex_16 (b'+' ∷ d ∷ rest) ≡ ok out))
      × ((i : AssetIdentity) → new product (b'+' ∷ d ∷ rest) ≢ Base.ok i)
unfolding parse_hex_16
parse_hex_16_plus product d rest hd hs n = (
  let (out, e) = hex_pairs_plus (b'+' ∷ d ∷ rest) d rest hd hs in (out, rw (n, e) refl),
  λ i h. cc ((new-eq-ok product _ i).0 h).2,
)
