-- ===== src/ListfileCache/Community/Works.antt =====
-- src/listfile_cache.rs: a rebuild succeeds where the file system and the database do their work.
use asset_resolver.Base.{
  ℕ, ◌≡◌, ◌≢◌, refl, sym, ◌∙◌, ap, Text, FilePath, Option, none, some, List, [], ◌∷◌, All, Result,
}
use asset_resolver.Base
use asset_resolver.World.Fs.{Node, absent, dir, file}
use asset_resolver.World.Io.{
  World, Io, ok, later_faults, fallible, io_steps, set_fs, mtime, mtime_of,
}
use asset_resolver.World.Inversion.{map_err-eq-ok, pure-eq-ok}
use asset_resolver.ListfileCache.StatementLaws.{statement-eq-ok}
use asset_resolver.World.Success.{
  Good, Succeeds, Yields, yields, bind-Yields, then-Yields, map_err-Succeeds, pure-Succeeds,
  lift-Succeeds, fallible-Succeeds,
}
use asset_resolver.World.Effects.{put-other}
use asset_resolver.ListfileCache.{statement, after_statement, source_mtime}
use asset_resolver.ListfileCache.Sql.{Database}
use asset_resolver.ListfileCache.Lines.{lines, parse_line}
use asset_resolver.ListfileCache.Community.Rows.{Row, survivors, rows_of}
use asset_resolver.ListfileCache.Community.Rebuild.{IsSqlite, open_file-eq-ok, rebuild_cache-rows}
use asset_resolver.ListfileCache.Community.{
  import_lines, import_line, import_rows, open_file, open_found, record_metadata, init_cache_schema,
  rebuild_cache,
}

-- SQLite's statements, as far as their success depends on the state of the connection: the schema is
-- made by a connection with no transaction open and begins one, in which the tables are there; entries
-- and metadata are written within it, and COMMIT ends it.
pub record IsTransactional (d : Database) (Begun : Database.Connection d → Type 0)
    (IsIdle : Database.Connection d → Type 0) : Type 0 where
  pub init_schema-begins :
      (conn : Database.Connection d)
      → IsIdle conn
      → (conn' : Database.Connection d) × (Database.init_schema d conn ≡ Base.ok conn')
        × Begun conn'
  pub prepare_insert-begun :
      (conn : Database.Connection d) → Begun conn → Database.prepare_insert d conn ≡ Base.ok tt
  pub insert_entry-begun :
      (conn : Database.Connection d) (fdid : ℕ) (p lower_path : Text)
      → Begun conn
      → (conn' : Database.Connection d) × (Database.insert_entry d conn fdid p lower_path
          ≡ Base.ok conn')
        × Begun conn'
  pub insert_metadata-begun :
      (conn : Database.Connection d) (p : Text) (time : ℕ)
      → Begun conn
      → (conn' : Database.Connection d) × (Database.insert_metadata d conn p time ≡ Base.ok conn')
        × Begun conn'
  pub commit-begun :
      (conn : Database.Connection d)
      → Begun conn
      → (conn' : Database.Connection d) × (Database.commit d conn ≡ Base.ok conn')

-- Every line can be read.
abbrev pub AreRead : List (Result Text) → Type 0
AreRead = All (λ l. (line : Text) × (l ≡ Base.ok line))

same_connection : {A : Type 0} {a b : A} → Base.ok a ≡ Base.ok b → a ≡ b
same_connection h = cc h

module _ {T : Type 0} (source : FilePath) (content : Text) (t : ℕ) where
  -- No operation is refused any more, and the source is there.
  abbrev Quiet : World T → Type 0
  Quiet w = (w.faults ≡ []) × (w.fs source ≡ file content t)

  Quiet-Succeeds : {A : Type 0} {m : Io T A} → Succeeds Quiet m → Succeeds Quiet (fallible m)
  Quiet-Succeeds h = fallible-Succeeds (λ w q. q.0) (λ w q. (ap later_faults q.0, q.1)) h

  found_file : (n : Node) (w : World T) → n ≡ file content t → Quiet w → Good Quiet (open_found n w)
  unfolding open_found io_steps
  found_file absent w h q = absurd (cc h)
  found_file dir w h q = absurd (cc h)
  found_file (file c s) w h q = (file c s, refl, q)

  open_file-Succeeds : Succeeds Quiet (open_file source)
  unfolding open_file
  open_file-Succeeds = Quiet-Succeeds (record { at = λ w q. found_file (w.fs source) w q.1 q })

  time_of_file : (n : Node) (w : World T) → n ≡ file content t → Quiet w → Good Quiet (mtime_of n w)
  unfolding mtime_of io_steps
  time_of_file absent w h q = absurd (cc h)
  time_of_file dir w h q = absurd (cc h)
  time_of_file (file c s) w h q = (s, refl, q)

  source_mtime-Succeeds : Succeeds Quiet (source_mtime source)
  unfolding source_mtime mtime
  source_mtime-Succeeds =
      map_err-Succeeds _
        (Quiet-Succeeds (record { at = λ w q. time_of_file (w.fs source) w q.1 q }))

  module _ (d : Database) (Begun IsIdle : Database.Connection d → Type 0)
      (sqlite : IsTransactional d Begun IsIdle) (p : FilePath) (other : source ≢ p) where
    written :
        (r : Result (Database.Connection d)) {conn : Database.Connection d} (w : World T)
        → r ≡ Base.ok conn
        → Quiet w
        → Good Quiet (after_statement d p r w)
    unfolding after_statement set_fs
    written (Base.ok conn) w h q = (conn, refl, (q.0, put-other w.fs p source _ other ∙ q.1))
    written (Base.err e) w h q = absurd (cc h)

    statement-Succeeds :
        (what : Text) (r : Result (Database.Connection d)) {conn : Database.Connection d}
        → r ≡ Base.ok conn
        → Succeeds Quiet (statement d p what r)
    unfolding statement
    statement-Succeeds what r h =
        map_err-Succeeds _ (Quiet-Succeeds (record { at = λ w q. written r w h q }))

    statement-Yields :
        (what : Text) (r : Result (Database.Connection d)) {V : Database.Connection d → Type 0}
        → (conn : Database.Connection d) × (r ≡ Base.ok conn) × V conn
        → Yields Quiet (statement d p what r) V
    statement-Yields what r (conn, done, v) =
        yields (statement-Succeeds what r done)
          (λ w a q good. rw (same_connection (sym (statement-eq-ok d p what r w a good) ∙ done)) v)

    import_line-Yields :
        (conn : Database.Connection d) (parsed : Option (ℕ × Text))
        → Begun conn
        → Yields Quiet (import_line d p conn parsed) Begun
    unfolding import_line
    import_line-Yields conn none begun =
        yields (pure-Succeeds conn) (λ w a q good. rw (← pure-eq-ok conn a w good) begun)
    import_line-Yields conn (some (fdid, path)) begun =
        statement-Yields _ _ (sqlite.insert_entry-begun conn fdid path _ begun)

    import_lines-Yields :
        (ls : List (Result Text)) (conn : Database.Connection d)
        → AreRead ls
        → Begun conn
        → Yields Quiet (import_lines d p source ls conn) Begun
    unfolding import_lines
    import_lines-Yields [] conn h begun =
        yields (pure-Succeeds conn) (λ w a q good. rw (← pure-eq-ok conn a w good) begun)
    import_lines-Yields (l ∷ ls) conn ((line, read), h) begun =
        bind-Yields {V = λ _. Unit {0}}
          (yields (map_err-Succeeds _ (Quiet-Succeeds (lift-Succeeds l line read)))
            (λ w a q good. tt))
          (λ text _.
            bind-Yields (import_line-Yields conn (parse_line text) begun)
              (λ next more. import_lines-Yields ls next h more))

    import_rows-Yields :
        (conn : Database.Connection d)
        → AreRead (lines (file content t))
        → Begun conn
        → Yields Quiet (import_rows d p conn source) Begun
    unfolding import_rows
    import_rows-Yields conn h begun =
        bind-Yields {V = λ n. n ≡ file content t}
          (yields (map_err-Succeeds _ open_file-Succeeds)
            (λ w n q found. open_file-eq-ok source n w (map_err-eq-ok _ _ w n found) ∙ q.1))
          (λ n is.
            then-Yields
              (map_err-Succeeds _ (lift-Succeeds _ tt (sqlite.prepare_insert-begun conn begun)))
              (rw is (import_lines-Yields (lines (file content t)) conn h begun)))

    record_metadata-Yields :
        (conn : Database.Connection d)
        → Begun conn
        → Yields Quiet (record_metadata d p conn source) Begun
    unfolding record_metadata
    record_metadata-Yields conn begun =
        bind-Yields {V = λ _. Unit {0}} (yields source_mtime-Succeeds (λ w a q good. tt))
          (λ time _. statement-Yields _ _ (sqlite.insert_metadata-begun conn _ time begun))

    rebuild_cache-Yields :
        (conn : Database.Connection d)
        → AreRead (lines (file content t))
        → IsIdle conn
        → Yields Quiet (rebuild_cache d p conn source) (λ _. Unit {0})
    unfolding rebuild_cache init_cache_schema
    rebuild_cache-Yields conn h idle =
        bind-Yields (statement-Yields _ _ (sqlite.init_schema-begins conn idle)) (λ first begun.
          bind-Yields (import_rows-Yields first h begun) (λ full more.
            bind-Yields (record_metadata-Yields full more) (λ stamped last.
              let (done, committed) = sqlite.commit-begun stamped last in
              statement-Yields _ _ (done, committed, tt))))

-- Where no operation is refused and every line of the source is valid UTF-8, a rebuild succeeds, and the
-- table then has the rows that no later row replaces, by its FDID or by its path in any case, and no
-- other. The statements act as SQLite's do: on a connection with no open transaction the schema begins
-- one, in which entries and metadata can be written until COMMIT. The source is another file than the
-- cache.
pub rebuild_cache-works :
    {T : Type 0} (d : Database) (rows : Database.Connection d → List Row) (p source : FilePath)
    (content : Text) (t : ℕ) (conn : Database.Connection d) (w : World T)
    (Begun IsIdle : Database.Connection d → Type 0)
    → IsSqlite d rows
    → IsTransactional d Begun IsIdle
    → IsIdle conn
    → source ≢ p
    → w.faults ≡ []
    → w.fs source ≡ file content t
    → AreRead (lines (file content t))
    → (conn' : Database.Connection d) × ((rebuild_cache d p conn source w).0 ≡ ok conn')
      × (rows conn' ≡ survivors (rows_of (lines (file content t))))
rebuild_cache-works d rows p source content t conn w Begun IsIdle sqlite acts idle other quiet there
      read =
    let (conn', good, _, _) =
      (rebuild_cache-Yields source content t d Begun IsIdle acts p other conn read idle).at w
        (quiet, there) in
    (
      conn',
      good,
      rebuild_cache-rows d rows sqlite p source conn conn' w other good
          ∙ ap (λ n. survivors (rows_of (lines n))) there,
    )
