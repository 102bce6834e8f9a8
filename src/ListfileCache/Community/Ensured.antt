-- ===== src/ListfileCache/Community/Ensured.antt =====
-- src/listfile_cache.rs: what ensure_cache leaves in the file of a community cache.
use asset_resolver.Base.{
  txt, ◌++◌, ℕ, ◌≡◌, ◌≢◌, refl, sym, ◌∙◌, ap, ◌⊎◌, inl, inr, Text, FilePath, display, parent,
  Option, none, some, Bool, true, false, List, Result, list_eq, nat_eq, ◌==◌, eq→≡, Bool-cases, not,
  if◌then◌else◌, arith,
}
use asset_resolver.Base
use asset_resolver.World.Fs.{Node, file}
use asset_resolver.World.Io.{World, ok, pure, ◌>>=◌, exists}
use asset_resolver.World.Chains.{pure_step}
use asset_resolver.World.Laws.{exists-IsReader}
use asset_resolver.World.Inversion.{>>=-next, >>-next, pure-eq-ok, node_mtime}
use asset_resolver.ListfileCache.{open_node, open_writable_cache}
use asset_resolver.ListfileCache.Sql.{Database, row, prepared}
use asset_resolver.ListfileCache.Lines.{lines}
use asset_resolver.ListfileCache.Community.Rows.{Row, survivors, rows_of}
use asset_resolver.ListfileCache.Community.Rebuild.{
  IsSqlite, rebuild_cache-rows, rebuild_cache-file,
}
use asset_resolver.ListfileCache.Community.{
  cache_is_fresh, rebuild_cache, rebuild_unless, ensure_open, ensure_cache, create_parent,
}
use asset_resolver.ListfileCache.Community.Fresh.{
  is_there, metadata_is_fresh-eq-true, metadata_is_fresh-IsReader, time_of, Names,
}
use asset_resolver.ListfileCache.Community.Writable.{
  create_parent-path, create_parent-file, open_writable-eq-ok,
}

module _ (d : Database) (rows : Database.Connection d → List Row) where
  -- Some table that a rebuild has left in the file
  abbrev pub Rebuilt : Node → Node → Type 0
  Rebuilt n held =
      (conn : Database.Connection d) × (rows conn ≡ survivors (rows_of (lines n)))
      × (stamped : Database.Connection d) × (Database.commit d stamped ≡ Base.ok conn)
      × (time : ℕ) × (held ≡ file (Database.bytes d conn) time)

  Rebuilt-at : (n n' m m' : Node) → n ≡ n' → m' ≡ m → Rebuilt n m → Rebuilt n' m'
  Rebuilt-at n n' m m' same at (conn, table, stamped, committed, time, held) = (
    conn,
    table ∙ ap (λ x. survivors (rows_of (lines x))) same,
    stamped,
    committed,
    time,
    at ∙ held,
  )

  -- What an open cache holds: metadata that names the source and its time, or a rebuilt table
  abbrev pub Follows : FilePath → Text → ℕ → Node → Node → Type 0
  Follows source content t before after = Names d source t before ⊎ Rebuilt (file content t) after

module _ {T : Type 0} (d : Database) (rows : Database.Connection d → List Row)
    (sqlite : IsSqlite d rows) (p source : FilePath) (other : source ≢ p) where
  rebuild_unless-eq-ok :
      (fresh : Bool) (conn : Database.Connection d) (ready : FilePath) (w : World T)
      → (rebuild_unless d fresh p conn source w).0 ≡ ok ready
      → (ready ≡ p)
        × ((fresh ≡ true)
            ⊎ Rebuilt d rows (w.fs source) ((rebuild_unless d fresh p conn source w).1.fs p))
  unfolding rebuild_unless
  rebuild_unless-eq-ok true conn ready w h = (sym (pure-eq-ok p ready w h), inl refl)
  rebuild_unless-eq-ok false conn ready w h =
      let (conn', built, last, same) =
        >>=-next (rebuild_cache d p conn source) (λ _. pure p) w ready h in
      let (stamped, committed, time, held) =
        rebuild_cache-file d rows sqlite p source conn conn' w built in
      (
        sym (pure-eq-ok p ready _ last),
        inr (
          conn',
          rebuild_cache-rows d rows sqlite p source conn conn' w other built,
          stamped,
          committed,
          time,
          ap (λ r. r.1.fs p) (same ∙ pure_step p _) ∙ held,
        ),
      )

  ensure_open-eq-ok :
      (conn : Database.Connection d) (ready : FilePath) (w : World T)
      → (ensure_open d true p conn source w).0 ≡ ok ready
      → (ready ≡ p)
        × (((time : ℕ) × (Database.select_metadata d conn ≡ prepared (row (display source, time)))
              × (node_mtime (w.fs source) ≡ some time))
            ⊎ Rebuilt d rows (w.fs source) ((ensure_open d true p conn source w).1.fs p))
  unfolding ensure_open cache_is_fresh
  ensure_open-eq-ok conn ready w h =
      let (fresh, judged, rest, same) =
        >>=-next (cache_is_fresh d conn source) (λ fresh. rebuild_unless d fresh p conn source) w
          ready h in
      let (at, outcome) = rebuild_unless-eq-ok fresh conn ready _ rest in
      (
        at,
        elim outcome [
          | inl passed ↦ inl (
              metadata_is_fresh-eq-true source (Database.select_metadata d conn) w
                (judged ∙ ap ok passed))
          | inr built ↦ inr (
              Rebuilt-at d rows _ _ _ _
                (ap (λ fs. fs source)
                  (((metadata_is_fresh-IsReader source (Database.select_metadata d conn)).at w).fs))
                (ap (λ r. r.1.fs p) same) built)
        ],
      )

  -- What the metadata of an open cache says of its source in a world
  abbrev Recorded : Database.Connection d → World T → Type 0
  Recorded conn w =
      (time : ℕ) × (Database.select_metadata d conn ≡ prepared (row (display source, time)))
      × (node_mtime (w.fs source) ≡ some time)

  ensure_seen-eq-ok :
      (seen : Bool) (conn : Database.Connection d) (ready : FilePath) (w : World T)
      → seen ≡ true
      → (ensure_open d seen p conn source w).0 ≡ ok ready
      → (ready ≡ p)
        × (Recorded conn w
            ⊎ Rebuilt d rows (w.fs source) ((ensure_open d seen p conn source w).1.fs p))
  ensure_seen-eq-ok true conn ready w there h = ensure_open-eq-ok conn ready w h
  ensure_seen-eq-ok false conn ready w there h = absurd (cc there)

  ensure_looked-eq-ok :
      (content : Text) (t : ℕ) (conn : Database.Connection d) (ready : FilePath) (w : World T)
      → w.fs source ≡ file content t
      → ((exists source >>= λ seen. ensure_open d seen p conn source) w).0 ≡ ok ready
      → (ready ≡ p)
        × (Recorded conn w
            ⊎ Rebuilt d rows
                (w.fs source)
                (((exists source >>= λ seen. ensure_open d seen p conn source) w).1.fs p))
  ensure_looked-eq-ok content t conn ready w there h =
      let (seen, looked, ensured, same) =
        >>=-next (exists source) (λ seen. ensure_open d seen p conn source) w ready h in
      let v : World T = (exists source w).1 in
      let held : v.fs source ≡ w.fs source =
        ap (λ (fs : FilePath → Node). fs source) ((exists-IsReader source).at w).fs in
      let (at, outcome) =
        ensure_seen-eq-ok seen conn ready v (is_there seen source content t w looked there)
          ensured in
      (
        at,
        elim outcome [
          | inl (time, says, timed) ↦ inl (time, says, ap node_mtime (sym held) ∙ timed)
          | inr built ↦ inr (
              Rebuilt-at d rows (v.fs source) (w.fs source) _ _ held (ap (λ r. r.1.fs p) same)
                built)
        ],
      )

  ensure_steps-eq-ok :
      (content : Text) (t : ℕ) (ready : FilePath) (w : World T)
      → w.fs source ≡ file content t
      → ((open_writable_cache d p >>= λ conn.
            exists source >>= λ seen. ensure_open d seen p conn source)
          w).0
        ≡ ok ready
      → (ready ≡ p)
        × Follows d rows source content t (w.fs p) (
            ((open_writable_cache d p >>= λ conn.
            exists source >>= λ seen. ensure_open d seen p conn source)
                w).1.fs
              p)
  ensure_steps-eq-ok content t ready w there h =
      let (conn, opens, opened, same) =
        >>=-next (open_writable_cache d p)
          (λ conn. exists source >>= λ seen. ensure_open d seen p conn source) w ready h in
      let v : World T = (open_writable_cache d p w).1 in
      let ((raw, node, busy), still) = open_writable-eq-ok d p source other conn w opens in
      let held : v.fs source ≡ file content t = still ∙ there in
      let (at, outcome) = ensure_looked-eq-ok content t conn ready v held opened in
      (
        at,
        elim outcome [
          | inl (time, says, timed) ↦ inl (
            raw,
            conn,
            node,
            busy,
            says
                ∙ ap (λ x. prepared (row (display source, x)))
                    (time_of content t time (sym (ap node_mtime held) ∙ timed)),
          )
          | inr built ↦ inr (
              Rebuilt-at d rows (v.fs source) (file content t) _ _ held (ap (λ r. r.1.fs p) same)
                built)
        ],
      )

  pub ensure_cache-eq-ok :
      (content : Text) (t : ℕ) (ready : FilePath) (w : World T)
      → w.fs source ≡ file content t
      → (ensure_cache d p source w).0 ≡ ok ready
      → (ready ≡ p) × Follows d rows source content t (w.fs p) ((ensure_cache d p source w).1.fs p)
  unfolding ensure_cache
  ensure_cache-eq-ok content t ready w there h =
      let (_, made, same) = >>-next (create_parent (parent p)) _ w ready h in
      let v : World T = (create_parent (parent p) w).1 in
      let (at, outcome) =
        ensure_steps-eq-ok content t ready v
          (create_parent-file d p source other content t (parent p) w there) made in
      (
        at,
        elim outcome [
          | inl (raw, conn, node, busy, says) ↦ inl (
            raw,
            conn,
            sym (ap (open_node d) (create_parent-path d p source other (parent p) w refl)) ∙ node,
            busy,
            says,
          )
          | inr built ↦
              inr (Rebuilt-at d rows _ (file content t) _ _ refl (ap (λ r. r.1.fs p) same) built)
        ],
      )
