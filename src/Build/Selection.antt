-- ===== src/Build/Selection.antt =====
-- Which build a product selects.
use asset_resolver.Base.{
  ◌≡◌, refl, ◌∙◌, ◌↔◌, inl, inr, ap, arith, Text, FilePath, some, Bool, true, false, List, [], ◌∷◌,
  ◌++◌, keep, All, ok, Bool-cases, option_eq, option_eqb_iff, list_eq, nat_eq,
}
use asset_resolver.Casc.{BuildInfoRow}
use asset_resolver.Build.{select_build_key, only_build_key, is_active_row}

-- A list is `before`, one element that passes the test, and `after`; no other element passes it.
record IsOnly {A : Type 0} (p : A → Bool) (xs : List A) (x : A) : Type 0 where
  before : List A
  after : List A
  split : xs ≡ before ++ (x ∷ after)
  here : p x ≡ true
  none_before : All (λ y. p y ≡ false) before
  none_after : All (λ y. p y ≡ false) after

module _ {A : Type 0} (p : A → Bool) where
  keep-eq-nil : (xs : List A) → keep p xs ≡ [] → All (λ y. p y ≡ false) xs
  keep-eq-nil [] h = tt
  keep-eq-nil (x ∷ xs) h = ground (arith, keep-eq-nil xs)

  nil-keep : (xs ys : List A) → All (λ y. p y ≡ false) xs → keep p (xs ++ ys) ≡ keep p ys
  nil-keep [] ys h = refl
  nil-keep (x ∷ xs) ys (h, hs) = rw h (nil-keep xs ys hs)

  keep_none : (xs : List A) → All (λ y. p y ≡ false) xs → keep p xs ≡ []
  keep_none [] h = refl
  keep_none (x ∷ xs) (h, hs) = rw h (keep_none xs hs)

  keep-eq-one : (xs : List A) (x : A) → keep p xs ≡ x ∷ [] → IsOnly p xs x
  keep-eq-one [] x h = absurd (cc h)
  keep-eq-one (y ∷ ys) x h = elim (Bool-cases (p y)) [
    | inl passes ↦
        let same : y ≡ x = ground arith in
        record {
          before = [];
          after = ys;
          split = ap (λ z. z ∷ ys) same;
          here = rw (← same) passes;
          none_before = tt;
          none_after = keep-eq-nil ys (ground arith);
        }
    | inr fails ↦
        let rest = keep-eq-one ys x (ground arith) in
        record {
          before = y ∷ rest.before;
          after = rest.after;
          split = ap (λ zs. y ∷ zs) rest.split;
          here = rest.here;
          none_before = (fails, rest.none_before);
          none_after = rest.none_after;
        }
  ]

  one-keep : (xs : List A) (x : A) → IsOnly p xs x → keep p xs ≡ x ∷ []
  one-keep xs x h = rw h.split (
      nil-keep h.before (x ∷ h.after) h.none_before
      ∙ rw h.here (ap (λ ys. x ∷ ys) (keep_none h.after h.none_after)))

-- A row counts for a product if it is active and names that product.
abbrev pub IsFor : Text → BuildInfoRow → Type 0
IsFor product row = (row.is_active ≡ true) × (row.product ≡ some product)

-- The row counts for the product, and no other row of the list does.
pub record IsOnlyFor (product : Text) (rows : List BuildInfoRow) (row : BuildInfoRow) : Type 0 where
  pub before : List BuildInfoRow
  pub after : List BuildInfoRow
  pub split : rows ≡ before ++ (row ∷ after)
  pub here : IsFor product row
  pub none_before : All (λ r. ¬ IsFor product r) before
  pub none_after : All (λ r. ¬ IsFor product r) after

is_active_row_iff :
    (product : Text) (row : BuildInfoRow) → (is_active_row product row ≡ true) ↔ IsFor product row
is_active_row_iff product row = ground (arith, option_eqb_iff row.product (some product))

not-IsFor :
    (product : Text) (row : BuildInfoRow)
    → (is_active_row product row ≡ false) ↔ (¬ IsFor product row)
not-IsFor product row = (
  λ h f. cc ((is_active_row_iff product row).1 f),
  λ n. elim (Bool-cases (is_active_row product row)) [
    | inl t ↦ absurd (n ((is_active_row_iff product row).0 t))
    | inr f ↦ f
  ],
)

All-not :
    (product : Text) (rows : List BuildInfoRow)
    → All (λ r. is_active_row product r ≡ false) rows
    → All (λ r. ¬ IsFor product r) rows
All-not product [] h = tt
All-not product (r ∷ rows) (h, hs) = ((not-IsFor product r).0 h, All-not product rows hs)

not-All :
    (product : Text) (rows : List BuildInfoRow)
    → All (λ r. ¬ IsFor product r) rows
    → All (λ r. is_active_row product r ≡ false) rows
not-All product [] h = tt
not-All product (r ∷ rows) (h, hs) = ((not-IsFor product r).1 h, not-All product rows hs)

only_build_key-eq-ok :
    (info_path : FilePath) (product : Text) (active : List BuildInfoRow) (key : Text)
    → only_build_key info_path product active ≡ ok key
    → (row : BuildInfoRow) × (active ≡ row ∷ []) × (row.build_key ≡ some key)
unfolding only_build_key
only_build_key-eq-ok info_path product [] key h = absurd (cc h)
only_build_key-eq-ok info_path product (row ∷ []) key h = (row, refl, ground arith)
only_build_key-eq-ok info_path product (row ∷ r ∷ rs) key h = absurd (cc h)

-- A build is selected exactly if one row alone is active and of the product, and it has that key.
pub select_build_key-eq-ok :
    (info_path : FilePath) (product : Text) (rows : List BuildInfoRow) (key : Text)
    → (select_build_key info_path product rows ≡ ok key)
      ↔ ((row : BuildInfoRow) × IsOnlyFor product rows row × (row.build_key ≡ some key))
unfolding select_build_key
select_build_key-eq-ok info_path product rows key = (
  λ h.
      let (row, alone, keyed) =
        only_build_key-eq-ok info_path product (keep (is_active_row product) rows) key h in
      let only = keep-eq-one (is_active_row product) rows row alone in
      (
        row,
        record {
          before = only.before;
          after = only.after;
          split = only.split;
          here = (is_active_row_iff product row).0 only.here;
          none_before = All-not product only.before only.none_before;
          none_after = All-not product only.after only.none_after;
        },
        keyed,
      ),
  λ (row, only, keyed).
      let alone = one-keep (is_active_row product) rows row (record {
        before = only.before;
        after = only.after;
        split = only.split;
        here = (is_active_row_iff product row).1 only.here;
        none_before = not-All product only.before only.none_before;
        none_after = not-All product only.after only.none_after;
      }) in
      rw (alone, only_build_key, keyed) refl,
)
