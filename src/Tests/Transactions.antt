-- ===== src/Tests/Transactions.antt =====
-- The theorem on a rebuild, applied to a database that refuses a statement in the wrong state.
use asset_resolver.Base.{
  ℕ, ◌≡◌, refl, ap, ◌∙◌, sym, Text, txt, Bool, true, false, not, List, [], ◌∷◌, ◌++◌, length, arith,
  Result, Option, none, some, to_ascii_lowercase,
}
use asset_resolver.Base
use asset_resolver.Base.Assoc.{lookup}
use asset_resolver.World.Fs.{file}
use asset_resolver.World.Io.{ok}
use asset_resolver.ListfileCache.Sql.{Database, no_metadata, no_rows}
use asset_resolver.ListfileCache.Lines.{lines, split_lines, is_utf8}
use asset_resolver.ListfileCache.Community.{rebuild_cache}
use asset_resolver.ListfileCache.Community.Rows.{
  Row, survivors, rows_of, replace, path_of, entry_of,
}
use asset_resolver.ListfileCache.Community.Rebuild.{IsSqlite}
use asset_resolver.ListfileCache.Community.Works.{IsTransactional, rebuild_cache-works}
use asset_resolver.Tests.Listfiles.{row_or_no_rows, answered, source, cache, listing, with_source}

-- What needs this state
needs : {A : Type 0} → Bool → A → Result A
needs true a = Base.ok a
needs false a = Base.err (txt "SQL logic error")

needs-eq-ok : {A : Type 0} (b : Bool) (a x : A) → needs b a ≡ Base.ok x → x ≡ a
unfolding needs
needs-eq-ok true a x h = cc h
needs-eq-ok false a x h = absurd (cc h)

needs_it : {A : Type 0} (b : Bool) (a : A) → b ≡ true → needs b a ≡ Base.ok a
unfolding needs
needs_it true a h = refl
needs_it false a h = absurd (cc h)

-- Whether a transaction is open, and the rows
abbrev Tables : Type 0
Tables = Bool × List Row

abbrev strict : Database
strict = record {
  Connection = Tables;
  open_writable = λ _. Base.ok (false, []);
  open_read_only = λ _. Base.ok (false, []);
  set_busy_timeout = λ conn _. Base.ok conn;
  bytes = λ _. [];
  init_schema = λ conn. needs (not conn.0) (true, []);
  prepare_insert = λ conn. needs conn.0 tt;
  insert_entry = λ conn fdid p l.
      needs conn.0 (true, replace (record { fdid = fdid; path = p; lower_path = l }) conn.1);
  insert_metadata = λ conn _ _. needs conn.0 (true, conn.1);
  init_local = λ conn. Base.ok conn;
  insert_local = λ conn fdid p l. Base.ok conn;
  commit = λ conn. needs conn.0 (false, conn.1);
  select_metadata = λ _. no_metadata;
  select_any = λ _. no_rows;
  select_by_fdid = λ conn fdid. row_or_no_rows (path_of fdid conn.1);
  select_by_path = λ conn p. row_or_no_rows (entry_of p conn.1);
  select_local_by_fdid = λ conn fdid. row_or_no_rows (path_of fdid conn.1);
  select_local_by_path = λ conn p. row_or_no_rows (entry_of p conn.1);
}

abbrev rows : Database.Connection strict → List Row
rows conn = conn.1

strict-IsSqlite : IsSqlite strict rows
strict-IsSqlite = record {
  init_schema-rows = λ conn conn' h. ap (λ x. x.1) (needs-eq-ok (not conn.0) (true, []) conn' h);
  insert_entry-rows = λ conn conn' r h. ap (λ x. x.1) (needs-eq-ok conn.0 _ conn' h);
  insert_metadata-rows =
      λ conn conn' s time h. ap (λ x. x.1) (needs-eq-ok conn.0 (true, conn.1) conn' h);
  commit-rows = λ conn conn' h. ap (λ x. x.1) (needs-eq-ok conn.0 (false, conn.1) conn' h);
  select_by_fdid-Answers = λ conn fdid. answered (path_of fdid conn.1);
  select_by_path-Answers = λ conn p. answered (entry_of p conn.1);
}

abbrev Begun : Database.Connection strict → Type 0
Begun conn = conn.0 ≡ true

abbrev IsIdle : Database.Connection strict → Type 0
IsIdle conn = not conn.0 ≡ true

strict-IsTransactional : IsTransactional strict Begun IsIdle
strict-IsTransactional = record {
  init_schema-begins = λ conn idle. ((true, []), needs_it (not conn.0) (true, []) idle, refl);
  prepare_insert-begun = λ conn begun. needs_it conn.0 tt begun;
  insert_entry-begun = λ conn fdid p l begun. (_, needs_it conn.0 _ begun, refl);
  insert_metadata-begun =
      λ conn p time begun. ((true, conn.1), needs_it conn.0 (true, conn.1) begun, refl);
  commit-begun = λ conn begun. ((false, conn.1), needs_it conn.0 (false, conn.1) begun);
}

rebuild_cache-works_example :
    (conn : Tables) × ((rebuild_cache strict cache (false, []) source with_source).0 ≡ ok conn)
    × (conn.1 ≡ survivors (rows_of (lines (file listing 5))))
unfolding lines split_lines is_utf8 lookup Base.same_list txt
rebuild_cache-works_example =
    rebuild_cache-works strict rows cache source listing 5 (false, []) with_source Begun IsIdle
      strict-IsSqlite strict-IsTransactional refl (λ same. omega (arith, ap length same)) refl refl
      ((_, refl), ((_, refl), ((_, refl), ((_, refl), tt))))
