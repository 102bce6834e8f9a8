-- ===== src/Build/Hex.antt =====
-- src/casc_resolver.rs: hexadecimal keys and the configuration files that they name. A slice that
-- would cut a character of the text panics.
use asset_resolver.Base.{
  ℕ, ◌+◌, ◌-◌, ◌*◌, Text, txt, FilePath, path, join, Option, none, some, Bool, true, ◌&&◌, not, [],
  ◌∷◌, ◌++◌, length, leb, ltb, if◌then◌else◌, ◌==◌, nat_eq,
}
use asset_resolver.World.Io.{Answer, ok, err, panicked}

-- A byte inside a character of UTF-8.
abbrev is_continuation : ℕ → Bool
is_continuation c = leb 128 c && ltb c 192

-- Whether a slice may end in front of these bytes.
abbrev pub at_boundary : Text → Bool
at_boundary [] = true
at_boundary (c ∷ _) = not (is_continuation c)

-- char::to_digit(16)
unfoldable pub hex_digit : ℕ → Option ℕ
hex_digit c =
    if leb b'0' c && leb c b'9'
    then some (c - 48)
    else if leb b'a' c && leb c b'f'
    then some (c - 87)
    else if leb b'A' c && leb c b'F'
    then some (c - 55)
    else none

abbrev two_digits : Option ℕ → Option ℕ → Option ℕ
two_digits (some x) (some y) = some (16 * x + y)
two_digits _ _ = none

-- `u8::from_str_radix(s, 16)` at a text of two bytes: a leading plus is accepted.
unfoldable pub byte_from_hex : ℕ → ℕ → Option ℕ
unfolding hex_digit
byte_from_hex a b = if a == b'+' then hex_digit b else two_digits (hex_digit a) (hex_digit b)

abbrev pub push : ℕ → Answer Text → Answer Text
push n (ok out) = ok (n ∷ out)
push n (err e) = err e
push n panicked = panicked

-- The loop of `parse_hex_16` over the slices of two bytes.
unfoldable pub hex_pairs : Text → Text → Answer Text
hex_pairs value [] = ok []
hex_pairs value (a ∷ []) = ok []
hex_pairs value (a ∷ b ∷ rest) =
    let more = hex_pairs value rest in
    if not (at_boundary (a ∷ []) && at_boundary rest) then panicked else elim (byte_from_hex a b) [
      | none ↦ err (txt "invalid hex key " ++ (value ++ txt ": invalid digit found in string"))
      | some n ↦ push n more
    ]

unfoldable pub parse_hex_16 : Text → Answer Text
parse_hex_16 value =
    if not (length value == 32)
    then err (txt "expected 32 hex characters, got " ++ value)
    else hex_pairs value value

unfoldable pub data_config_path : FilePath → Text → Answer FilePath
data_config_path install_root (a ∷ b ∷ c ∷ d ∷ rest) =
    let key = a ∷ b ∷ c ∷ d ∷ rest in
    if at_boundary (c ∷ []) && at_boundary rest
    then ok (
        join
          (join (join (join install_root (path (txt "Data/config"))) (path (a ∷ b ∷ [])))
            (path (c ∷ d ∷ [])))
          (path key))
    else panicked
data_config_path install_root key = err (txt "invalid config key: " ++ key)
