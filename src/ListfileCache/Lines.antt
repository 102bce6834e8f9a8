-- ===== src/ListfileCache/Lines.antt =====
-- src/listfile_cache.rs: the lines of a listfile, and the row that a line has. The rules of
-- `BufRead::lines`, `str::split_once` and `u32::from_str` are written out.
use asset_resolver.Base.{
  ℕ, zero, suc, ◌+◌, ◌*◌, ◌-◌, ◌^◌, Text, txt, Option, none, some, Bool, true, false, ◌&&◌, List,
  [], ◌∷◌, map, if◌then◌else◌, ◌==◌, nat_eq, ltb, leb, starts_with, Result, ok, err,
}
use asset_resolver.World.Fs.{Node, absent, dir, file}

-- What a first byte of a character asks for: how many bytes more, and the range of the next.
utf8_lead : ℕ → Option (ℕ × ℕ × ℕ)
utf8_lead c =
    if ltb c 0x80
    then some (0, 0x80, 0xbf)
    else if ltb c 0xc2
    then none
    else if ltb c 0xe0
    then some (1, 0x80, 0xbf)
    else if c == 0xe0
    then some (2, 0xa0, 0xbf)
    else if c == 0xed
    then some (2, 0x80, 0x9f)
    else if ltb c 0xf0
    then some (2, 0x80, 0xbf)
    else if c == 0xf0
    then some (3, 0x90, 0xbf)
    else if ltb c 0xf4
    then some (3, 0x80, 0xbf)
    else if c == 0xf4
    then some (3, 0x80, 0x8f)
    else none

-- `more` bytes of a character are still to come, the next between `lo` and `hi`.
utf8_from : ℕ → ℕ → ℕ → Text → Bool
unfolding utf8_lead
utf8_from zero lo hi [] = true
utf8_from (suc more) lo hi [] = false
utf8_from zero lo hi (c ∷ t) = elim (utf8_lead c) [
  | none ↦ false
  | some (more, lo', hi') ↦ utf8_from more lo' hi' t
]
utf8_from (suc more) lo hi (c ∷ t) = leb lo c && leb c hi && utf8_from more 0x80 0xbf t

-- std::str::from_utf8
unfoldable pub is_utf8 : Text → Bool
unfolding utf8_from
is_utf8 t = utf8_from 0 0 0 t

abbrev cons_line : ℕ → List Text → List Text
cons_line c [] = (c ∷ []) ∷ []
cons_line c (l ∷ ls) = (c ∷ l) ∷ ls

-- The pieces that line feeds end, each with one carriage return that stands before it; what is behind
-- the last line feed is a line unless it is empty.
unfoldable pub split_lines : Text → List Text
split_lines [] = []
split_lines (c ∷ t) =
    let rest = split_lines t in
    if c == b'\n'
    then [] ∷ rest
    else if c == b'\r' && starts_with t (b'\n' ∷ [])
    then rest
    else cons_line c rest

line_result : Text → Result Text
line_result l = if is_utf8 l then ok l else err (txt "stream did not contain valid UTF-8")

-- What `BufRead::lines` yields; a directory opens, and its first read fails.
unfoldable pub lines : Node → List (Result Text)
unfolding line_result
lines absent = []
lines dir = err (txt "Is a directory (os error 21)") ∷ []
lines (file content _) = map line_result (split_lines content)

-- str::split_once on a character of one byte
unfoldable pub split_once : ℕ → Text → Option (Text × Text)
split_once separator [] = none
split_once separator (c ∷ t) =
    let rest = split_once separator t in
    if c == separator
    then some ([], t)
    else elim rest [ none ↦ none | some (before, behind) ↦ some (c ∷ before, behind) ]

-- The digits of a number below 2 ^ 32, behind the value of those before them.
unfoldable pub digits_value : ℕ → Text → Option ℕ
digits_value value [] = some value
digits_value value (c ∷ t) =
    let value' = value * 10 + (c - b'0') in
    let rest = digits_value value' t in
    if leb b'0' c && leb c b'9' && ltb value' (2 ^ 32) then rest else none

-- str::parse::<u32>; a plus sign may stand in front.
unfoldable pub parse_u32 : Text → Option ℕ
parse_u32 [] = none
parse_u32 (c ∷ t) =
    if c == b'+'
    then elim t [ [] ↦ none | d ∷ t' ↦ digits_value 0 (d ∷ t') ]
    else digits_value 0 (c ∷ t)

before_path : Option ℕ → Text → Option (ℕ × Text)
before_path none path = none
before_path (some fdid) path = some (fdid, path)

parse_parts : Option (Text × Text) → Option (ℕ × Text)
parse_parts none = none
parse_parts (some (fdid_str, path)) = before_path (parse_u32 fdid_str) path

-- The FDID and the path of a line; other lines are skipped.
unfoldable pub parse_line : Text → Option (ℕ × Text)
unfolding parse_parts before_path
parse_line line = parse_parts (split_once b';' line)
