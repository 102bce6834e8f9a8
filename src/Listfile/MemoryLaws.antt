-- ===== src/Listfile/MemoryLaws.antt =====
-- src/listfile.rs: the two maps in memory agree on which files they know.
use asset_resolver.Base.{
  ℕ, ◌≡◌, refl, Text, some, true, to_ascii_lowercase, to_ascii_lowercase_idem, nat_eq, list_eq, inl,
  inr,
}
use asset_resolver.Base.Assoc.{
  is_some, lookup, or_insert-found, or_insert-value, or_insert-known, NodupKeys,
  or_insert-NodupKeys,
}
use asset_resolver.Listfile.Memory.{CachedListfile, empty, insert_both}

-- Each FDID stands once, each path stands once and in lower case; a path that an FDID has is known in
-- lower case, and the FDID of a path is known.
pub record IsConsistent (m : CachedListfile) : Type 0 where
  pub fdids_once : NodupKeys m.by_fdid
  pub paths_once : NodupKeys m.by_path
  pub lower : (k : Text) (fdid : ℕ) → lookup k m.by_path ≡ some fdid → to_ascii_lowercase k ≡ k
  pub path_known :
      (fdid : ℕ) (p : Text)
      → lookup fdid m.by_fdid ≡ some p
      → is_some (lookup (to_ascii_lowercase p) m.by_path) ≡ true
  pub fdid_known :
      (k : Text) (fdid : ℕ)
      → lookup k m.by_path ≡ some fdid
      → is_some (lookup fdid m.by_fdid) ≡ true

pub empty-IsConsistent : IsConsistent empty
unfolding lookup
empty-IsConsistent = record {
  fdids_once = tt;
  paths_once = tt;
  lower = λ k fdid h. cc;
  path_known = λ fdid p h. cc;
  fdid_known = λ k fdid h. cc;
}

pub insert_both-IsConsistent :
    (fdid : ℕ) (p : Text) (m : CachedListfile)
    → IsConsistent m
    → IsConsistent (insert_both fdid p m)
unfolding insert_both
insert_both-IsConsistent fdid p m h = record {
  fdids_once = or_insert-NodupKeys fdid p m.by_fdid h.fdids_once;
  paths_once = or_insert-NodupKeys (to_ascii_lowercase p) fdid m.by_path h.paths_once;
  lower = λ k f found. elim (or_insert-found k (to_ascii_lowercase p) fdid f m.by_path found) [
    | inl new ↦ rw new.0 (to_ascii_lowercase_idem p)
    | inr old ↦ h.lower k f old
  ];
  path_known = λ f q found. elim (or_insert-found f fdid p q m.by_fdid found) [
    | inl new ↦ rw (new.1, or_insert-value (to_ascii_lowercase p) fdid m.by_path) refl
    | inr old ↦ or_insert-known _ _ fdid m.by_path (h.path_known f q old)
  ];
  fdid_known = λ k f found. elim (or_insert-found k (to_ascii_lowercase p) fdid f m.by_path found) [
    | inl new ↦ rw (new.1, or_insert-value fdid p m.by_fdid) refl
    | inr old ↦ or_insert-known f fdid p m.by_fdid (h.fdid_known k f old)
  ];
}
