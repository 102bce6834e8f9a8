-- ===== src/Listfile/Memory.antt =====
-- src/listfile.rs: the maps that a listfile holds in memory.
use asset_resolver.Base.{ℕ, Text, Bool, ◌&&◌, [], to_ascii_lowercase, nat_eq, list_eq}
use asset_resolver.Base.Assoc.{Assoc, is_some, lookup, or_insert}

pub record CachedListfile : Type 0 where
  pub by_fdid : Assoc ℕ Text
  pub by_path : Assoc Text ℕ

abbrev pub empty : CachedListfile
empty = record { by_fdid = []; by_path = [] }

-- Whether `cache_in_memory` finds both keys.
unfoldable pub has_both : ℕ → Text → CachedListfile → Bool
has_both fdid p m =
    is_some (lookup fdid m.by_fdid) && is_some (lookup (to_ascii_lowercase p) m.by_path)

-- The path that the FDID then has.
unfoldable pub cached_path_of : ℕ → Text → CachedListfile → Text
cached_path_of fdid p m = (or_insert fdid p m.by_fdid).0

-- The maps afterwards: what an FDID or a path has already is kept.
unfoldable pub insert_both : ℕ → Text → CachedListfile → CachedListfile
insert_both fdid p m = record {
  by_fdid = (or_insert fdid p m.by_fdid).1;
  by_path = (or_insert (to_ascii_lowercase p) fdid m.by_path).1;
}
