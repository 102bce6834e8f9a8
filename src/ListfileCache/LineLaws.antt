-- ===== src/ListfileCache/LineLaws.antt =====
-- src/listfile_cache.rs: a line that was written from a row is read as that row.
use asset_resolver.Base.{
  ℕ, zero, suc, ◌+◌, ◌*◌, ◌/◌, ◌%◌, ◌^◌, ◌<◌, ◌≡◌, ◌≢◌, refl, ◌∙◌, ap, arith, Text, some, true,
  ◌&&◌, [], ◌∷◌, ◌++◌, nat_eq, ltb, leb, decimal, decimal_from, All, Bool-cases, inl, inr,
}
use asset_resolver.ListfileCache.Lines.{split_once, digits_value, parse_u32, parse_line}

-- One digit more
digits_value_step :
    (value d : ℕ) (rest : Text)
    → d < 10
    → value * 10 + d < 2 ^ 32
    → digits_value value ((d + 48) ∷ rest) ≡ digits_value (value * 10 + d) rest
unfolding digits_value
digits_value_step value d rest h k = ground arith

same_value : (a b : ℕ) (rest : Text) → a ≡ b → digits_value a rest ≡ digits_value b rest
same_value a b rest h = ap (λ n. digits_value n rest) h

-- Reading the digits of a number gives the number.
digits_value-decimal_from :
    (fuel n : ℕ) (rest : Text)
    → n < fuel
    → n < 2 ^ 32
    → digits_value 0 (decimal_from fuel n rest) ≡ digits_value n rest
unfolding decimal_from
digits_value-decimal_from zero n rest h k = absurd (omega (arith, h))
digits_value-decimal_from (suc fuel) n rest h k = elim (Bool-cases (ltb n 10)) [
  | inl last ↦ rw last (
      digits_value_step 0 (n % 10) rest (ground arith) (ground arith)
      ∙ same_value _ n rest (ground arith))
  | inr more ↦ rw more (
      digits_value-decimal_from fuel (n / 10) ((n % 10 + 48) ∷ rest) (ground arith) (ground arith)
      ∙ digits_value_step (n / 10) (n % 10) rest (ground arith) (ground arith)
      ∙ same_value _ n rest (ground arith))
]

-- A decimal digit
abbrev IsDigits : Text → Type 0
IsDigits = All (λ c. (leb b'0' c && leb c b'9') ≡ true)

decimal_from-IsDigits :
    (fuel n : ℕ) (rest : Text) → IsDigits rest → IsDigits (decimal_from fuel n rest)
unfolding decimal_from
decimal_from-IsDigits zero n rest h = h
decimal_from-IsDigits (suc fuel) n rest h = elim (Bool-cases (ltb n 10)) [
  | inl last ↦ rw last (ground arith, h)
  | inr more ↦
      rw more (decimal_from-IsDigits fuel (n / 10) ((n % 10 + 48) ∷ rest) (ground arith, h))
]

-- A separator that is no digit ends the digits.
split_once-IsDigits :
    (digits behind : Text)
    → IsDigits digits
    → split_once b';' (digits ++ (b';' ∷ behind)) ≡ some (digits, behind)
unfolding split_once
split_once-IsDigits [] behind h = ground arith
split_once-IsDigits (c ∷ digits) behind h =
    rw (split_once-IsDigits digits behind h.1) (ground (arith, h.0))

parse_u32-IsDigits :
    (digits : Text) (n : ℕ)
    → IsDigits digits
    → digits_value 0 digits ≡ some n
    → digits ≢ []
    → parse_u32 digits ≡ some n
unfolding parse_u32
parse_u32-IsDigits [] n h k ne = absurd (ne refl)
parse_u32-IsDigits (c ∷ digits) n h k ne = ground (arith, h.0)

decimal_from-nonempty : (fuel n : ℕ) (rest : Text) → rest ≢ [] → decimal_from fuel n rest ≢ []
unfolding decimal_from
decimal_from-nonempty zero n rest h = h
decimal_from-nonempty (suc fuel) n rest h = elim (Bool-cases (ltb n 10)) [
  | inl last ↦ rw last (λ k. cc)
  | inr more ↦ rw more (decimal_from-nonempty fuel (n / 10) ((n % 10 + 48) ∷ rest) (λ k. cc))
]

-- The text of a number, with one digit at least.
decimal-IsDigits : (n : ℕ) → IsDigits (decimal n) × (decimal n ≢ [])
unfolding decimal
decimal-IsDigits n = (
  decimal_from-IsDigits (suc n) n [] tt,
  elim (Bool-cases (ltb n 10)) [
    | inl last ↦ rw last (λ k. cc)
    | inr more ↦ rw more (decimal_from-nonempty n (n / 10) ((n % 10 + 48) ∷ []) (λ k. cc))
  ],
)

parse_u32-decimal : (n : ℕ) → n < 2 ^ 32 → parse_u32 (decimal n) ≡ some n
unfolding decimal digits_value
parse_u32-decimal n h =
    parse_u32-IsDigits (decimal n) n ((decimal-IsDigits n).0)
      (digits_value-decimal_from (suc n) n [] (omega arith) h) ((decimal-IsDigits n).1)

-- A line with the decimal digits of an FDID, a semicolon and a path is read as this FDID and this path,
-- whatever bytes the path has. The FDID is below 2 ^ 32.
pub parse_line-decimal :
    (fdid : ℕ) (p : Text) → fdid < 2 ^ 32 → parse_line (decimal fdid ++ (b';' ∷ p)) ≡ some (fdid, p)
unfolding parse_line
parse_line-decimal fdid p h =
    rw (split_once-IsDigits (decimal fdid) p ((decimal-IsDigits fdid).0), parse_u32-decimal fdid h)
      refl
