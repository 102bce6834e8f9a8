-- ===== src/Tests/Opened.antt =====
-- The theorems on an open community cache, applied to a small one.
use asset_resolver.Base.{
  same_list, to_ascii_lowercase, parent, ℕ, ◌≡◌, refl, sym, ◌∙◌, ap, arith, Text, txt, FilePath,
  length, Option, none, some, Bool, true, false, List, [], ◌∷◌, Result, ◌⊎◌, inl, inr, ◌==◌, eq→≡,
  eq_refl, Bool-cases, if◌then◌else◌, list_eq, nat_eq, Eq, ◌&&◌, ◌↔◌,
}
use asset_resolver.Base
use asset_resolver.Base.Assoc.{lookup}
use asset_resolver.World.Fs.{file, put, make_dirs, ancestors}
use asset_resolver.World.Io.{io_steps, fallible, mtime, mtime_of, set_fs, create_dir_all}
use asset_resolver.ListfileCache.{
  statement, source_mtime, row_or_none, query_fdid, open_writable_cache, open_local_cache,
}
use asset_resolver.ListfileCache.Sql.{Database}
use asset_resolver.ListfileCache.Lines.{
  lines, split_lines, parse_line, parse_u32, digits_value, split_once, is_utf8,
}
use asset_resolver.ListfileCache.Community.{
  lookup_fdid, open_community_cache, ensure_cache, cache_is_fresh, rebuild_cache, cache_lookup_fdid,
  import_lines, import_rows, record_metadata, init_cache_schema,
}
use asset_resolver.ListfileCache.Community.Rows.{
  Row, replace, survivors, rows_of, path_of, entry_of,
}
use asset_resolver.ListfileCache.Community.Rebuild.{IsSqlite, IsDurable}
use asset_resolver.ListfileCache.Community.Fresh.{Names}
use asset_resolver.World.Io.{World}
use asset_resolver.ListfileCache.Community.Reused.{lookup_fdid-reuses}
use asset_resolver.ListfileCache.{open_node}
use asset_resolver.ListfileCache.Sql.{prepared, row}
use asset_resolver.Base.{display}
use asset_resolver.ListfileCache.Community.Opened.{lookup_fdid_follows_source}
use asset_resolver.Tests.Listfiles.{
  rebuilt, answered, source, cache, listing, with_source, database,
}

abbrev same_row : Row → Row → Bool
same_row r s = (r.fdid == s.fdid) && ((r.path == s.path) && (r.lower_path == s.lower_path))

both : (a b : Bool) → a && b ≡ true → (a ≡ true) × (b ≡ true)
both true b h = (refl, h)
both false b h = absurd (cc h)

same_fields : (r s : Row) → r.fdid ≡ s.fdid → r.path ≡ s.path → r.lower_path ≡ s.lower_path → r ≡ s
same_fields r s f p l = cc (f, p, l)

same_row_refl : (r : Row) → same_row r r ≡ true
same_row_refl r = cc (eq_refl r.fdid, eq_refl r.path, eq_refl r.lower_path)

same_row_iff : (r s : Row) → (same_row r s ≡ true) ↔ (r ≡ s)
same_row_iff r s = (
  λ h.
      let (f, rest) = both _ _ h in
      let (p, l) = both _ _ rest in
      same_fields r s (eq→≡ r.fdid s.fdid f) (eq→≡ r.path s.path p)
        (eq→≡ r.lower_path s.lower_path l),
  λ h. ap (same_row r) (sym h) ∙ same_row_refl r,
)

instance abbrev row_eq : Eq Row
row_eq = record { equals = same_row; equals_iff = same_row_iff }

abbrev read_back : Bool → Result (List Row)
read_back true = Base.ok rebuilt
read_back false = Base.err (txt "file is not a database")

abbrev written : Bool → Text
written true = txt "rebuilt"
written false = []

read_written :
    (b : Bool) (opened : List Row)
    → read_back (written b == txt "rebuilt") ≡ Base.ok opened
    → (b ≡ true) × (opened ≡ rebuilt)
unfolding same_list txt
read_written true opened h = (refl, cc h)
read_written false opened h = absurd (cc h)

-- A database whose file says whether its table is the one that the test leaves.
abbrev archive : Database
archive = record {
  Connection = List Row;
  open_writable = Database.open_writable database;
  open_read_only = λ content. read_back (content == txt "rebuilt");
  set_busy_timeout = λ conn _. Base.ok conn;
  bytes = λ conn. written (conn == rebuilt);
  init_schema = Database.init_schema database;
  prepare_insert = Database.prepare_insert database;
  insert_entry = Database.insert_entry database;
  insert_metadata = Database.insert_metadata database;
  init_local = Database.init_local database;
  insert_local = Database.insert_local database;
  commit = Database.commit database;
  select_metadata = Database.select_metadata database;
  select_any = Database.select_any database;
  select_by_fdid = Database.select_by_fdid database;
  select_by_path = Database.select_by_path database;
  select_local_by_fdid = Database.select_local_by_fdid database;
  select_local_by_path = Database.select_local_by_path database;
}

abbrev table : Database.Connection archive → List Row
table conn = conn

archive-opens :
    (conn opened : List Row)
    → Database.open_read_only archive (Database.bytes archive conn) ≡ Base.ok opened
    → opened ≡ conn
archive-opens conn opened h =
    let (same, is) = read_written (conn == rebuilt) opened h in is ∙ sym (eq→≡ conn rebuilt same)

archive-IsSqlite : IsSqlite archive table
archive-IsSqlite = record {
  init_schema-rows = λ conn conn' h. cc;
  insert_entry-rows = λ conn conn' r h. cc;
  insert_metadata-rows = λ conn conn' source time h. cc;
  commit-rows = λ conn conn' h. cc;
  select_by_fdid-Answers = λ conn fdid. answered (path_of fdid conn);
  select_by_path-Answers = λ conn p. answered (entry_of p conn);
}

archive-IsDurable : IsDurable archive table
archive-IsDurable = record { commit-opens = λ conn conn' opened h. archive-opens conn' opened }

lookup_fdid_follows_source_example :
    Names archive source 5 (with_source.fs cache)
    ⊎ (some (txt "b.m2") ≡ path_of 8 (survivors (rows_of (lines (file listing 5)))))
unfolding lookup_fdid open_community_cache ensure_cache cache_is_fresh open_writable_cache
    open_local_cache cache_lookup_fdid rebuild_cache init_cache_schema import_rows import_lines
    record_metadata statement source_mtime lines split_lines is_utf8 parse_line parse_u32
    digits_value split_once mtime mtime_of fallible io_steps set_fs put replace lookup same_list txt
    to_ascii_lowercase create_dir_all make_dirs ancestors parent query_fdid row_or_none path_of
lookup_fdid_follows_source_example =
    lookup_fdid_follows_source archive table archive-IsSqlite archive-IsDurable cache source
      (λ same. omega (arith, ap length same)) listing 5 8 (some (txt "b.m2")) with_source refl refl

-- A database whose metadata names the source, and the cache that has it
abbrev settled_bytes : Text
settled_bytes = txt "settled"

abbrev settled : Database
settled = record archive {
  open_writable = λ content. Base.ok [];
  bytes = λ conn. settled_bytes;
  select_metadata = λ conn. prepared (row (display source, 5));
}

abbrev settled_world : World (Unit {0})
settled_world = record with_source { fs = put with_source.fs cache (file settled_bytes 3) }

lookup_fdid-reuses_example :
    (later : ℕ) × ((lookup_fdid settled cache source 8 settled_world).1.fs cache
      ≡ file settled_bytes later)
unfolding open_node put lookup same_list txt
lookup_fdid-reuses_example =
    lookup_fdid-reuses settled cache source settled_bytes listing 5 3 8 settled_world
      (λ same. omega (arith, ap length same)) (λ conn h. refl) refl refl ([], [], refl, refl, refl)
