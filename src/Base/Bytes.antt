-- ===== src/Base/Bytes.antt =====
-- Text as its UTF-8 bytes: literals, ASCII case, decimal numbers, prefixes.
use Prim.Native.Char.{code}
use Prim.Native.Nat.{ℕ, zero, suc, ◌+◌, ◌/◌, ◌%◌}
use Prim.Native.String.{String}
use mathlib.Core.Path.{◌≡◌, refl}
use mathlib.Core.Logic.{inl, inr}
use mathlib.Core.Bool.{Bool, true, false, ◌&&◌, ◌||◌}
use mathlib.Core.List.{List, [], ◌∷◌, ◌++◌, map}
use native.Mathlib.Omega.{arith}
use asset_resolver.Base.Tests.{ltb, leb, Bool-cases, if◌then◌else◌}
use asset_resolver.Base.Equality.{◌==◌, nat_eq}
use asset_resolver.Base.Lists.{length, length-map, All}

abbrev pub Text : Type 0
Text = List ℕ

-- The bytes of an ASCII literal.
unfoldable pub txt : String → Text
txt String.[] = []
txt (String.◌∷◌ c s) = code c ∷ txt s

-- u8::to_ascii_lowercase
unfoldable pub lower_byte : ℕ → ℕ
lower_byte c = if leb b'A' c && leb c b'Z' then c + 32 else c

-- str::to_ascii_lowercase
unfoldable pub to_ascii_lowercase : Text → Text
unfolding lower_byte
to_ascii_lowercase = map lower_byte

-- u8::is_ascii_hexdigit
abbrev pub is_ascii_hexdigit : ℕ → Bool
is_ascii_hexdigit c =
    leb b'0' c && leb c b'9' || leb b'a' c && leb c b'f' || leb b'A' c && leb c b'F'

-- A hexadecimal digit in lower case.
abbrev pub is_lower_hexdigit : ℕ → Bool
is_lower_hexdigit c = leb b'0' c && leb c b'9' || leb b'a' c && leb c b'f'

pub lower_byte_idem : (c : ℕ) → lower_byte (lower_byte c) ≡ lower_byte c
unfolding lower_byte
lower_byte_idem c = ground arith

pub length-to_ascii_lowercase : (t : Text) → length (to_ascii_lowercase t) ≡ length t
unfolding to_ascii_lowercase
length-to_ascii_lowercase t = length-map t lower_byte

pub to_ascii_lowercase_idem :
    (t : Text) → to_ascii_lowercase (to_ascii_lowercase t) ≡ to_ascii_lowercase t
unfolding to_ascii_lowercase
to_ascii_lowercase_idem [] = refl
to_ascii_lowercase_idem (c ∷ t) = cc (lower_byte_idem c, to_ascii_lowercase_idem t)

-- str::starts_with
abbrev pub starts_with : Text → Text → Bool
starts_with t [] = true
starts_with [] (p ∷ ps) = false
starts_with (c ∷ t) (p ∷ ps) = c == p && starts_with t ps

unfoldable pub decimal_from : ℕ → ℕ → Text → Text
decimal_from zero n out = out
decimal_from (suc fuel) n out =
    let digits = (n % 10 + 48) ∷ out in
    let more = decimal_from fuel (n / 10) digits in if ltb n 10 then digits else more

-- A number as `{}` prints it. There is one digit at least, and fewer than the number has units.
unfoldable pub decimal : ℕ → Text
unfolding decimal_from
decimal n = decimal_from (suc n) n []

abbrev lower_digit : ℕ → ℕ
lower_digit d = if ltb d 10 then d + 48 else d + 87

-- A control character as its number in hexadecimal.
abbrev unicode_escape : ℕ → Text
unicode_escape c =
    txt "\\u{"
    ++ ((if ltb c 16 then [] else lower_digit (c / 16) ∷ []) ++ (lower_digit (c % 16) ∷ txt "}"))

-- What `{:?}` prints for a byte of a text; a character beyond ASCII is printed as it is.
unfoldable pub debug_byte : ℕ → Text
unfolding txt
debug_byte c =
    if c == 0
    then txt "\\0"
    else if c == 9
    then txt "\\t"
    else if c == 10
    then txt "\\n"
    else if c == 13
    then txt "\\r"
    else if c == 34 || c == 92
    then 92 ∷ c ∷ []
    else if ltb c 32 || c == 127
    then unicode_escape c
    else c ∷ []

debug_bytes : Text → Text
debug_bytes [] = []
debug_bytes (c ∷ t) = debug_byte c ++ debug_bytes t

-- `{:?}` of a text
unfoldable pub debug : Text → Text
unfolding debug_bytes
debug t = 34 ∷ (debug_bytes t ++ (34 ∷ []))

-- No byte of the text separates components.
abbrev pub IsSlashFree : Text → Type 0
IsSlashFree = All (λ c. (c == b'/') ≡ false)

digit_no_slash : (n : ℕ) → (n % 10 + 48 == b'/') ≡ false
digit_no_slash n = ground arith

decimal_from-IsSlashFree :
    (fuel n : ℕ) (out : Text) → IsSlashFree out → IsSlashFree (decimal_from fuel n out)
unfolding decimal_from
decimal_from-IsSlashFree zero n out h = h
decimal_from-IsSlashFree (suc fuel) n out h = elim (Bool-cases (ltb n 10)) [
  | inl last ↦ rw last (digit_no_slash n, h)
  | inr more ↦
      rw more (decimal_from-IsSlashFree fuel (n / 10) ((n % 10 + 48) ∷ out) (digit_no_slash n, h))
]

pub decimal-IsSlashFree : (n : ℕ) → IsSlashFree (decimal n)
unfolding decimal
decimal-IsSlashFree n = decimal_from-IsSlashFree (suc n) n [] tt
