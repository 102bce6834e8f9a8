-- ===== src/ListfileCache/Community/Rebuild.antt =====
-- src/listfile_cache.rs: what a rebuilt cache says of its source.
use asset_resolver.Base.{
  arith, ℕ, ◌≡◌, ◌≢◌, refl, sym, ◌∙◌, ap, Text, FilePath, Option, none, some, to_ascii_lowercase,
  Bool, true, false, List, [], ◌∷◌, Result,
}
use asset_resolver.Base
use asset_resolver.World.Fs.{Node, absent, dir, file}
use asset_resolver.World.Io.{World, ok, lift, io_steps}
use asset_resolver.World.Inversion.{
  >>=-next, >>-next, map_err-eq-ok, lift-eq-ok, fallible-eq-ok, pure-eq-ok,
}
use asset_resolver.ListfileCache.{query_fdid, query_path, row_or_none}
use asset_resolver.ListfileCache.StatementLaws.{statement-eq-ok, statement-other, statement-file}
use asset_resolver.ListfileCache.Sql.{Database, Query, row, no_rows, no_table, failed}
use asset_resolver.ListfileCache.Lines.{lines, parse_line}
use asset_resolver.ListfileCache.Community.Rows.{
  Row, replace, replace_all, replace_all-empty, survivors, rows_of, cons_row, path_of, entry_of,
}
use asset_resolver.ListfileCache.Community.RowLaws.{entry_of-path_of, entry_of-lower}
use asset_resolver.ListfileCache.Community.{
  import_lines, import_line, import_rows, open_file, open_found, record_metadata, init_cache_schema,
  rebuild_cache,
}

-- What a query that is answered says, where `expected` is the answer.
abbrev pub Answers : {A : Type 0} → Query A → Option A → Type 0
Answers (row a) expected = expected ≡ some a
Answers no_rows expected = expected ≡ none
Answers _ expected = Unit

-- SQLite's statements on the table of the listfile, where `rows` are its rows in an open database. A
-- statement or a query may fail.
pub record IsSqlite (d : Database) (rows : Database.Connection d → List Row) : Type 0 where
  pub init_schema-rows :
      (conn conn' : Database.Connection d)
      → Database.init_schema d conn ≡ Base.ok conn'
      → rows conn' ≡ []
  pub insert_entry-rows :
      (conn conn' : Database.Connection d) (r : Row)
      → Database.insert_entry d conn r.fdid r.path r.lower_path ≡ Base.ok conn'
      → rows conn' ≡ replace r (rows conn)
  pub insert_metadata-rows :
      (conn conn' : Database.Connection d) (source : Text) (time : ℕ)
      → Database.insert_metadata d conn source time ≡ Base.ok conn'
      → rows conn' ≡ rows conn
  pub commit-rows :
      (conn conn' : Database.Connection d)
      → Database.commit d conn ≡ Base.ok conn'
      → rows conn' ≡ rows conn
  pub select_by_fdid-Answers :
      (conn : Database.Connection d) (fdid : ℕ)
      → Answers (Database.select_by_fdid d conn fdid) (path_of fdid (rows conn))
  pub select_by_path-Answers :
      (conn : Database.Connection d) (lower_path : Text)
      → Answers (Database.select_by_path d conn lower_path) (entry_of lower_path (rows conn))

-- What SQLite has committed is what a later connection reads from the file.
pub record IsDurable (d : Database) (rows : Database.Connection d → List Row) : Type 0 where
  pub commit-opens :
      (conn conn' opened : Database.Connection d)
      → Database.commit d conn ≡ Base.ok conn'
      → Database.open_read_only d (Database.bytes d conn') ≡ Base.ok opened
      → rows opened ≡ rows conn'

open_found-eq-ok : {T : Type 0} (n m : Node) (w : World T) → (open_found n w).0 ≡ ok m → m ≡ n
unfolding open_found io_steps
open_found-eq-ok absent m w h = absurd (cc h)
open_found-eq-ok dir m w h = cc h
open_found-eq-ok (file content t) m w h = cc h

pub open_file-eq-ok :
    {T : Type 0} (p : FilePath) (n : Node) (w : World T) → (open_file p w).0 ≡ ok n → n ≡ w.fs p
unfolding open_file
open_file-eq-ok p n w h =
    open_found-eq-ok (w.fs p) n _ (fallible-eq-ok (λ w. open_found (w.fs p) w) w n h)

pub row_or_none-eq-ok :
    {A : Type 0} (what : Text) (q : Query A) (expected found : Option A)
    → Answers q expected
    → row_or_none what q ≡ Base.ok found
    → found ≡ expected
unfolding row_or_none
row_or_none-eq-ok what (row a) expected found h k = ground (arith)
row_or_none-eq-ok what no_rows expected found h k = ground (arith)
row_or_none-eq-ok what (no_table e) expected found h k = absurd (cc k)
row_or_none-eq-ok what (failed e) expected found h k = absurd (cc k)

module _ (d : Database) (rows : Database.Connection d → List Row) (sqlite : IsSqlite d rows)
    {T : Type 0} where
  import_line-rows :
      (p : FilePath) (conn conn' : Database.Connection d) (parsed : Option (ℕ × Text)) (w : World T)
      (later : List Row)
      → (import_line d p conn parsed w).0 ≡ ok conn'
      → replace_all (rows conn') later ≡ replace_all (rows conn) (cons_row parsed later)
  unfolding import_line replace_all
  import_line-rows p conn conn' none w later h =
      ap (λ c. replace_all (rows c) later) (sym (pure-eq-ok conn conn' w h))
  import_line-rows p conn conn' (some (fdid, t)) w later h =
      ap (λ table. replace_all table later)
        (sqlite.insert_entry-rows conn conn' _ (statement-eq-ok d p _ _ w conn' h))

  import_lines-rows :
      (p source : FilePath) (ls : List (Result Text)) (conn conn' : Database.Connection d)
      (w : World T)
      → (import_lines d p source ls conn w).0 ≡ ok conn'
      → rows conn' ≡ replace_all (rows conn) (rows_of ls)
  unfolding import_lines rows_of replace_all
  import_lines-rows p source [] conn conn' w h = ap rows (sym (pure-eq-ok conn conn' w h))
  import_lines-rows p source (l ∷ ls) conn conn' w h =
      let (line, good, rest, _) = >>=-next _ _ w conn' h in
      let (next, imported, behind, _) = >>=-next _ _ _ conn' rest in
      let read =
        lift-eq-ok l _ line (fallible-eq-ok (lift l) w line (map_err-eq-ok _ _ w line good)) in
      import_lines-rows p source ls next conn' _ behind
      ∙ import_line-rows p conn next (parse_line line) _ (rows_of ls) imported
      ∙ ap (λ x. replace_all (rows conn) (rows_of (x ∷ ls))) (sym read)

  import_rows-rows :
      (p source : FilePath) (conn conn' : Database.Connection d) (w : World T)
      → (import_rows d p conn source w).0 ≡ ok conn'
      → rows conn' ≡ replace_all (rows conn) (rows_of (lines (w.fs source)))
  unfolding import_rows
  import_rows-rows p source conn conn' w h =
      let (node, opened, rest, _) = >>=-next _ _ w conn' h in
      let (_, behind, _) = >>-next _ _ _ conn' rest in
      import_lines-rows p source (lines node) conn conn' _ behind
      ∙ ap (λ n. replace_all (rows conn) (rows_of (lines n)))
          (open_file-eq-ok source node w (map_err-eq-ok _ _ w node opened))

  record_metadata-rows :
      (p source : FilePath) (conn conn' : Database.Connection d) (w : World T)
      → (record_metadata d p conn source w).0 ≡ ok conn'
      → rows conn' ≡ rows conn
  unfolding record_metadata
  record_metadata-rows p source conn conn' w h =
      let (time, _, rest, _) = >>=-next _ _ w conn' h in
      sqlite.insert_metadata-rows conn conn' _ time (statement-eq-ok d p _ _ _ conn' rest)

  pub rebuild_cache-rows :
      (p source : FilePath) (conn conn' : Database.Connection d) (w : World T)
      → source ≢ p
      → (rebuild_cache d p conn source w).0 ≡ ok conn'
      → rows conn' ≡ survivors (rows_of (lines (w.fs source)))
  unfolding rebuild_cache init_cache_schema
  rebuild_cache-rows p source conn conn' w other h =
      let (begun, started, filled, _) = >>=-next _ _ w conn' h in
      let (full, imported, described, _) = >>=-next _ _ _ conn' filled in
      let (stamped, recorded, committed, _) = >>=-next _ _ _ conn' described in
      sqlite.commit-rows stamped conn' (statement-eq-ok d p _ _ _ conn' committed)
      ∙ record_metadata-rows p source full stamped _ recorded
      ∙ import_rows-rows p source begun full _ imported
      ∙ ap (λ n. replace_all (rows begun) (rows_of (lines n)))
          (statement-other d p source other _ _ w)
      ∙ ap (λ table. replace_all table (rows_of (lines (w.fs source))))
          (sqlite.init_schema-rows conn begun (statement-eq-ok d p _ _ w begun started))
      ∙ replace_all-empty (rows_of (lines (w.fs source)))

  pub rebuild_cache-file :
      (p source : FilePath) (conn conn' : Database.Connection d) (w : World T)
      → (rebuild_cache d p conn source w).0 ≡ ok conn'
      → (stamped : Database.Connection d) × (Database.commit d stamped ≡ Base.ok conn')
        × (time : ℕ) × ((rebuild_cache d p conn source w).1.fs p
            ≡ file (Database.bytes d conn') time)
  unfolding rebuild_cache
  rebuild_cache-file p source conn conn' w h =
      let (begun, _, filled, first) = >>=-next _ _ w conn' h in
      let (full, _, described, second) = >>=-next _ _ _ conn' filled in
      let (stamped, _, committed, third) = >>=-next _ _ _ conn' described in
      let (time, there) = statement-file d p _ _ _ conn' committed in
      (
        stamped,
        statement-eq-ok d p _ _ _ conn' committed,
        time,
        ap (λ r. r.1.fs p) (first ∙ second ∙ third) ∙ there,
      )

  -- A rebuilt cache that answers a query for an FDID answers with the path of the row that no later row
  -- of the source replaces, by its FDID or by its path in any case, and with no path if there is no such
  -- row. The statements act as SQLite's do, and the source is another file than the cache.
  pub rebuild_cache-query_fdid :
      (p source : FilePath) (conn conn' : Database.Connection d) (w : World T) (fdid : ℕ)
      (found : Option Text)
      → source ≢ p
      → (rebuild_cache d p conn source w).0 ≡ ok conn'
      → query_fdid d conn' fdid ≡ Base.ok found
      → found ≡ path_of fdid (survivors (rows_of (lines (w.fs source))))
  unfolding query_fdid
  rebuild_cache-query_fdid p source conn conn' w fdid found other h answered =
      row_or_none-eq-ok _ _ _ found (sqlite.select_by_fdid-Answers conn' fdid) answered
      ∙ ap (path_of fdid) (rebuild_cache-rows p source conn conn' w other h)

  -- In a rebuilt cache the two queries agree: a path that is found is found by its FDID again, if that
  -- query answers, and differs from the path that was asked for at most in the case of its letters.
  -- The statements act as SQLite's do, and the source is another file than the cache.
  pub rebuild_cache-query_path :
      (p source : FilePath) (conn conn' : Database.Connection d) (w : World T) (asked found : Text)
      (fdid : ℕ) (again : Option Text)
      → source ≢ p
      → (rebuild_cache d p conn source w).0 ≡ ok conn'
      → query_path d conn' asked ≡ Base.ok (some (fdid, found))
      → query_fdid d conn' fdid ≡ Base.ok again
      → (again ≡ some found) × (to_ascii_lowercase found ≡ to_ascii_lowercase asked)
  unfolding query_path
  rebuild_cache-query_path p source conn conn' w asked found fdid again other h by_path by_fdid =
      let entry : entry_of (to_ascii_lowercase asked) (survivors (rows_of (lines (w.fs source))))
          ≡ some (fdid, found) =
        ap (entry_of (to_ascii_lowercase asked))
          (sym (rebuild_cache-rows p source conn conn' w other h))
        ∙ sym (row_or_none-eq-ok _ _ _ _ (sqlite.select_by_path-Answers conn' _) by_path) in
      (
        rebuild_cache-query_fdid p source conn conn' w fdid again other h by_fdid
            ∙ entry_of-path_of (to_ascii_lowercase asked) fdid found _ entry,
        entry_of-lower (to_ascii_lowercase asked) fdid found _ entry,
      )
