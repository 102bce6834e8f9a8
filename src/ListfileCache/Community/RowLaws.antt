-- ===== src/ListfileCache/Community/RowLaws.antt =====
-- src/listfile_cache.rs: in a table, the query for a path and the query for its FDID agree.
use asset_resolver.Base.{
  ℕ, ◌≡◌, refl, sym, ◌∙◌, ap, arith, Text, Option, none, some, Bool, true, false, ◌&&◌, ◌||◌, not,
  List, [], ◌∷◌, All, if◌then◌else◌, ◌==◌, nat_eq, list_eq, Bool-cases, inl, inr, Result,
  to_ascii_lowercase, same_list_iff, nat_eqb_iff,
}
use asset_resolver.Base
use asset_resolver.ListfileCache.Lines.{parse_line}
use asset_resolver.ListfileCache.Community.Rows.{
  Row, survives, survivors, path_of, entry_of, rows_of, cons_row,
}

-- A row that no later row replaces has an FDID of its own.
survives-path_of :
    (r : Row) (fdid : ℕ) (p : Text) (rows : List Row)
    → survives r rows ≡ true
    → path_of fdid (survivors rows) ≡ some p
    → (r.fdid == fdid) ≡ false
unfolding survivors path_of
survives-path_of r fdid p [] h k = absurd (cc k)
survives-path_of r fdid p (s ∷ rows) h k = ground (
  arith,
  survives-path_of r fdid p rows,
  nat_eqb_iff s.fdid fdid,
  nat_eqb_iff r.fdid s.fdid,
  nat_eqb_iff r.fdid fdid,
)

-- What a path has for an entry the FDID of that entry has for a path.
pub entry_of-path_of :
    (lower_path : Text) (fdid : ℕ) (p : Text) (rows : List Row)
    → entry_of lower_path (survivors rows) ≡ some (fdid, p)
    → path_of fdid (survivors rows) ≡ some p
unfolding survivors entry_of path_of
entry_of-path_of lower_path fdid p [] h = absurd (cc h)
entry_of-path_of lower_path fdid p (r ∷ rows) h = ground (
  arith,
  entry_of-path_of lower_path fdid p rows,
  survives-path_of r fdid p rows,
  nat_eqb_iff r.fdid fdid,
)

-- Each row has the lower case of its path.
abbrev LowerCased : List Row → Type 0
LowerCased = All (λ r. r.lower_path ≡ to_ascii_lowercase r.path)

cons_row-LowerCased :
    (parsed : Option (ℕ × Text)) (rows : List Row)
    → LowerCased rows
    → LowerCased (cons_row parsed rows)
cons_row-LowerCased none rows h = h
cons_row-LowerCased (some (fdid, p)) rows h = (refl, h)

rows_of-LowerCased : (ls : List (Result Text)) → LowerCased (rows_of ls)
unfolding rows_of
rows_of-LowerCased [] = tt
rows_of-LowerCased (Base.err e ∷ ls) = rows_of-LowerCased ls
rows_of-LowerCased (Base.ok l ∷ ls) =
    cons_row-LowerCased (parse_line l) (rows_of ls) (rows_of-LowerCased ls)

survivors-LowerCased : (rows : List Row) → LowerCased rows → LowerCased (survivors rows)
unfolding survivors
survivors-LowerCased [] h = tt
survivors-LowerCased (r ∷ rows) h = elim (Bool-cases (survives r rows)) [
  | inl stays ↦ rw stays (h.0, survivors-LowerCased rows h.1)
  | inr goes ↦ rw goes (survivors-LowerCased rows h.1)
]

entry_of-LowerCased :
    (lower_path : Text) (fdid : ℕ) (p : Text) (rows : List Row)
    → LowerCased rows
    → entry_of lower_path rows ≡ some (fdid, p)
    → to_ascii_lowercase p ≡ lower_path
unfolding entry_of
entry_of-LowerCased lower_path fdid p [] h k = absurd (cc k)
entry_of-LowerCased lower_path fdid p (r ∷ rows) h k = ground (
  arith,
  entry_of-LowerCased lower_path fdid p rows h.1,
  same_list_iff r.lower_path lower_path,
  h.0,
  ap to_ascii_lowercase,
)

-- The entry of a path is one of that path.
pub entry_of-lower :
    (lower_path : Text) (fdid : ℕ) (p : Text) (ls : List (Result Text))
    → entry_of lower_path (survivors (rows_of ls)) ≡ some (fdid, p)
    → to_ascii_lowercase p ≡ lower_path
entry_of-lower lower_path fdid p ls =
    entry_of-LowerCased lower_path fdid p _ (survivors-LowerCased _ (rows_of-LowerCased ls))
