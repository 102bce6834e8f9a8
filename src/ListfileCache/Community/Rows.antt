-- ===== src/ListfileCache/Community/Rows.antt =====
-- src/listfile_cache.rs: the rows that a table has behind a sequence of `INSERT OR REPLACE`, where the
-- FDID is the primary key and the path in lower case has a unique index.
use mathlib.Core.List.{append_assoc, append-nil}
use asset_resolver.Base.{
  ℕ, ◌≡◌, refl, sym, ◌∙◌, ap, arith, Text, Option, none, some, Bool, true, false, ◌&&◌, ◌||◌, not,
  List, [], ◌∷◌, ◌++◌, all, keep, find, All, if◌then◌else◌, ◌==◌, nat_eq, list_eq, Bool-cases, inl,
  inr, Result, to_ascii_lowercase, nat_eqb_iff, same_list_iff,
}
use asset_resolver.Base
use asset_resolver.ListfileCache.Lines.{parse_line}

-- An FDID, a path, and that path in lower case.
pub record Row : Type 0 where
  pub fdid : ℕ
  pub path : Text
  pub lower_path : Text

-- Two rows that can not both be in the table.
abbrev pub clash : Row → Row → Bool
clash r s = r.fdid == s.fdid || r.lower_path == s.lower_path

-- A row replaces those that it clashes with.
unfoldable pub replace : Row → List Row → List Row
replace r table = keep (λ s. not (clash s r)) table ++ (r ∷ [])

unfoldable pub replace_all : List Row → List Row → List Row
replace_all table [] = table
replace_all table (r ∷ rows) = replace_all (replace r table) rows

-- No later row replaces this one.
abbrev pub survives : Row → List Row → Bool
survives r later = all (λ s. not (clash r s)) later

-- The rows that no later row replaces.
unfoldable pub survivors : List Row → List Row
survivors [] = []
survivors (r ∷ rows) = let rest = survivors rows in if survives r rows then r ∷ rest else rest

keep-append : (p : Row → Bool) (xs ys : List Row) → keep p (xs ++ ys) ≡ keep p xs ++ keep p ys
keep-append p [] ys = refl
keep-append p (x ∷ xs) ys = ground (arith, keep-append p xs ys)

keep-keep : (p q : Row → Bool) (xs : List Row) → keep p (keep q xs) ≡ keep (λ x. q x && p x) xs
keep-keep p q [] = refl
keep-keep p q (x ∷ xs) = ground (arith, keep-keep p q xs)

keep-all : (xs : List Row) → keep (λ _. true) xs ≡ xs
keep-all [] = refl
keep-all (x ∷ xs) = ap (λ ys. x ∷ ys) (keep-all xs)

last_row :
    (r : Row) (rows rest : List Row)
    → keep (λ s. survives s rows) (r ∷ []) ++ rest ≡ (if survives r rows then r ∷ rest else rest)
last_row r rows rest = elim (Bool-cases (survives r rows)) [
  | inl stays ↦ rw stays refl
  | inr goes ↦ rw goes refl
]

replace_all-survivors :
    (table rows : List Row)
    → replace_all table rows ≡ keep (λ r. survives r rows) table ++ survivors rows
unfolding replace_all survivors replace
replace_all-survivors table [] = rw (keep-all table, append-nil table) refl
replace_all-survivors table (r ∷ rows) =
    replace_all-survivors (replace r table) rows
    ∙ rw (keep-append, keep-keep (λ s. survives s rows) (λ s. not (clash s r)) table, append_assoc)
        (ap (λ ys. keep (λ s. survives s (r ∷ rows)) table ++ ys)
          (last_row r rows (survivors rows)))

-- Behind any insertions into an empty table, the rows are those that no later one replaces.
pub replace_all-empty : (rows : List Row) → replace_all [] rows ≡ survivors rows
replace_all-empty rows = replace_all-survivors [] rows

abbrev pub cons_row : Option (ℕ × Text) → List Row → List Row
cons_row none rows = rows
cons_row (some (fdid, p)) rows =
    record { fdid = fdid; path = p; lower_path = to_ascii_lowercase p } ∷ rows

-- The rows of the lines that have one.
unfoldable pub rows_of : List (Result Text) → List Row
rows_of [] = []
rows_of (Base.err _ ∷ lines) = rows_of lines
rows_of (Base.ok line ∷ lines) = cons_row (parse_line line) (rows_of lines)

-- The path of an FDID in a table.
unfoldable pub path_of : ℕ → List Row → Option Text
path_of fdid [] = none
path_of fdid (r ∷ rows) =
    let rest = path_of fdid rows in if r.fdid == fdid then some r.path else rest

-- The FDID and the path of a path in lower case.
unfoldable pub entry_of : Text → List Row → Option (ℕ × Text)
entry_of lower_path [] = none
entry_of lower_path (r ∷ rows) =
    let rest = entry_of lower_path rows in
    if r.lower_path == lower_path then some (r.fdid, r.path) else rest
