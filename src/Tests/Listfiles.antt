-- ===== src/Tests/Listfiles.antt =====
-- The theorems on the listfiles, applied to a small one.
use asset_resolver.Base.{
  parent, ℕ, ◌≡◌, ◌≢◌, refl, ap, arith, Text, txt, decimal, FilePath, normal, join, path, display,
  same_list, length, Option, none, some, true, false, List, [], ◌∷◌, ◌++◌, to_ascii_lowercase,
  Result,
}
use asset_resolver.Base.Assoc.{lookup, insert, or_insert}
use asset_resolver.RuntimeMode.{local_casc}
use asset_resolver.World.Fs.{absent, file, put, make_dirs, ancestors}
use asset_resolver.Base
use asset_resolver.World.Io.{World, ok, io_steps, fallible, mtime, mtime_of, set_fs, create_dir_all}
use asset_resolver.ListfileCache.{
  statement, source_mtime, row_or_none, row_if_table, query_fdid, query_path, fnv1a_64,
  open_writable_cache, open_local_cache, remember_local_cache_entry,
}
use asset_resolver.ListfileCache.Sql.{Database, Query, row, no_rows, no_metadata}
use asset_resolver.ListfileCache.Lines.{
  lines, split_lines, parse_line, parse_u32, digits_value, split_once, is_utf8,
}
use asset_resolver.ListfileCache.Community.{
  import_lines, import_rows, record_metadata, init_cache_schema, rebuild_cache,
  open_community_cache, ensure_cache, cache_is_fresh, cache_lookup_fdid,
}
use asset_resolver.ListfileCache.Community.Rows.{
  Row, replace, survivors, rows_of, path_of, entry_of,
}
use asset_resolver.ListfileCache.Community.Rebuild.{
  IsSqlite, Answers, rebuild_cache-query_fdid, rebuild_cache-query_path,
}
use asset_resolver.ListfileCache.LineLaws.{parse_line-decimal}
use asset_resolver.ListfileCache
use asset_resolver.Listfile.{
  Listfile, lookup_fdid, lookup_local_fdid, lookup_community_fdid, with_community_cache,
  cache_path_for_fdid, remember, cache_in_memory, log_local_error_once, log_community_error_once,
}
use asset_resolver.Listfile.Memory.{empty, cached_path_of, insert_both, has_both}
use asset_resolver.Listfile.MemoryLaws.{IsConsistent}
use asset_resolver.Listfile.Calls.{
  Call, fdid_of_path, path_of_fdid, elsewhere, after_calls, after_calls-IsConsistent,
}
use asset_resolver.Listfile.Logs.{log_all, told, log_all-told}
use asset_resolver.Listfile.Remembers.{lookup_fdid-after_calls}
use asset_resolver.Tests.{shared_root, sources, process_of, world_of}

abbrev pub row_or_no_rows : {A : Type 0} → Option A → Query A
row_or_no_rows none = no_rows
row_or_no_rows (some a) = row a

-- The table that the test leaves.
abbrev pub rebuilt : List Row
rebuilt =
    record { fdid = 8; path = txt "b.m2"; lower_path = txt "b.m2" }
    ∷ record { fdid = 9; path = txt "a.m2"; lower_path = txt "a.m2" }
    ∷ []

-- A database whose connection is its one table, and whose file always opens with the same one.
abbrev pub database : Database
database = record {
  Connection = List Row;
  open_writable = λ _. Base.ok [];
  open_read_only = λ _. Base.ok rebuilt;
  set_busy_timeout = λ conn _. Base.ok conn;
  bytes = λ _. [];
  init_schema = λ _. Base.ok [];
  prepare_insert = λ _. Base.ok tt;
  insert_entry =
      λ conn fdid p l. Base.ok (replace (record { fdid = fdid; path = p; lower_path = l }) conn);
  insert_metadata = λ conn _ _. Base.ok conn;
  init_local = λ conn. Base.ok conn;
  insert_local =
      λ conn fdid p l. Base.ok (replace (record { fdid = fdid; path = p; lower_path = l }) conn);
  commit = λ conn. Base.ok conn;
  select_metadata = λ _. no_metadata;
  select_any = λ _. no_rows;
  select_by_fdid = λ conn fdid. row_or_no_rows (path_of fdid conn);
  select_by_path = λ conn p. row_or_no_rows (entry_of p conn);
  select_local_by_fdid = λ conn fdid. row_or_no_rows (path_of fdid conn);
  select_local_by_path = λ conn p. row_or_no_rows (entry_of p conn);
}

abbrev table : Database.Connection database → List Row
table conn = conn

pub answered : {A : Type 0} (o : Option A) → Answers (row_or_no_rows o) o
answered none = refl
answered (some a) = refl

database-IsSqlite : IsSqlite database table
database-IsSqlite = record {
  init_schema-rows = λ conn conn' h. cc;
  insert_entry-rows = λ conn conn' r h. cc;
  insert_metadata-rows = λ conn conn' source time h. cc;
  commit-rows = λ conn conn' h. cc;
  select_by_fdid-Answers = λ conn fdid. answered (path_of fdid conn);
  select_by_path-Answers = λ conn p. answered (entry_of p conn);
}

abbrev pub source : FilePath
source = sources ++ (normal (txt "listfile.csv") ∷ [])

abbrev pub cache : FilePath
cache = shared_root ++ (normal (txt "listfiles") ∷ normal (txt "1.sqlite") ∷ [])

-- The third line has no row, and the fourth takes the path of the first.
abbrev pub listing : Text
listing = txt "7;A.M2" ++ (10 ∷ (txt "8;b.m2" ++ (13 ∷ 10 ∷ (txt "x;c.m2" ++ (10 ∷ txt "9;a.m2")))))

abbrev pub with_source : World (Unit {0})
with_source = world_of (process_of (some local_casc)) ((source, file listing 5) ∷ []) tt

rebuild : (rebuild_cache database cache [] source with_source).0 ≡ ok rebuilt
unfolding rebuild_cache init_cache_schema import_rows import_lines record_metadata statement
    source_mtime lines split_lines is_utf8 parse_line parse_u32 digits_value split_once mtime
    mtime_of fallible io_steps set_fs put replace lookup same_list txt to_ascii_lowercase
rebuild = refl

rebuild_cache-query_fdid_example :
    some (txt "b.m2") ≡ path_of 8 (survivors (rows_of (lines (file listing 5))))
unfolding query_fdid row_or_none path_of lookup same_list txt
rebuild_cache-query_fdid_example =
    rebuild_cache-query_fdid database table database-IsSqlite cache source [] rebuilt with_source 8
      (some (txt "b.m2")) (λ same. omega (arith, ap length same)) rebuild refl

rebuild_cache-query_path_example :
    (some (txt "a.m2") ≡ some (txt "a.m2"))
    × (to_ascii_lowercase (txt "a.m2") ≡ to_ascii_lowercase (txt "A.M2"))
unfolding query_fdid query_path row_or_none path_of entry_of to_ascii_lowercase same_list txt
rebuild_cache-query_path_example =
    rebuild_cache-query_path database table database-IsSqlite cache source [] rebuilt with_source
      (txt "A.M2") (txt "a.m2") 9 (some (txt "a.m2")) (λ same. omega (arith, ap length same))
      rebuild refl refl

parse_line-decimal_example : parse_line (decimal 9 ++ (b';' ∷ txt "a.m2")) ≡ some (9, txt "a.m2")
parse_line-decimal_example = parse_line-decimal 9 (txt "a.m2") (omega arith)

abbrev listfile : Listfile database
listfile = record {
  community_path = source;
  community_cache_path = cache;
  local_cache_path = shared_root ++ (normal (txt "local.sqlite") ∷ []);
  community_cache = none;
  community_error_logged = false;
  local_error_logged = false;
  memory = empty;
}

abbrev with_listfile : World (Listfile database)
with_listfile = world_of (process_of (some local_casc)) ((source, file listing 5) ∷ []) listfile

abbrev calls : List Call
calls = fdid_of_path (txt "A.M2") ∷ elsewhere (λ _. absent) ∷ path_of_fdid 8 ∷ []

after_calls-IsConsistent_example :
    IsConsistent (after_calls database calls with_listfile).statics.memory
after_calls-IsConsistent_example = after_calls-IsConsistent database calls with_listfile refl

abbrev errors : List Text
errors = txt "missing /list.csv" ∷ txt "open /list.sqlite" ∷ txt "open /list.sqlite" ∷ []

log_all-told_example : (log_all database errors with_listfile).log ≡ [] ++ told false errors
log_all-told_example = log_all-told database errors with_listfile

lookup_fdid-after_calls_example :
    let w = (lookup_fdid database 8 with_listfile).1 in
    lookup_fdid database 8 (after_calls database calls w)
    ≡ (ok (some (txt "b.m2")), after_calls database calls w)
unfolding lookup_fdid lookup_local_fdid lookup_community_fdid with_community_cache
    cache_path_for_fdid remember cache_in_memory cached_path_of insert_both has_both or_insert
    insert ListfileCache.lookup_local_fdid open_community_cache ensure_cache cache_is_fresh
    open_writable_cache open_local_cache cache_lookup_fdid remember_local_cache_entry rebuild_cache
    init_cache_schema import_rows import_lines record_metadata statement source_mtime lines
    split_lines is_utf8 parse_line parse_u32 digits_value split_once mtime mtime_of fallible
    io_steps set_fs put replace lookup same_list txt to_ascii_lowercase create_dir_all make_dirs
    ancestors parent query_fdid row_or_none row_if_table path_of log_local_error_once
    log_community_error_once
lookup_fdid-after_calls_example =
    lookup_fdid-after_calls database 8 calls with_listfile (txt "b.m2") refl
