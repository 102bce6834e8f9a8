-- ===== src/ListfileCache/Community/Opened.antt =====
-- src/listfile_cache.rs: a lookup in a community cache answers from its source.
use asset_resolver.Base.{
  txt, ◌++◌, ℕ, ◌≡◌, ◌≢◌, refl, sym, ◌∙◌, ap, ◌⊎◌, inl, inr, Text, FilePath, display, Option, List,
  list_eq, nat_eq,
}
use asset_resolver.World.Fs.{file}
use asset_resolver.World.Io.{World, ok, io_steps, lift, fallible, map_err}
use asset_resolver.World.Inversion.{>>=-next, map_err-eq-ok, lift-eq-ok, fallible-eq-ok, pure-eq-ok}
use asset_resolver.ListfileCache.{open_local_cache, read_only_node, query_fdid}
use asset_resolver.ListfileCache.Sql.{Database}
use asset_resolver.ListfileCache.Lines.{lines}
use asset_resolver.ListfileCache.Community.Rows.{Row, survivors, rows_of, path_of}
use asset_resolver.ListfileCache.Community.Rebuild.{IsSqlite, IsDurable, row_or_none-eq-ok}
use asset_resolver.ListfileCache.Community.{
  ensure_cache, CommunityCache, lookup_fdid, cache_lookup_fdid, open_community_cache,
}
use asset_resolver.ListfileCache.Community.Fresh.{Names}
use asset_resolver.ListfileCache.Community.Ensured.{Rebuilt, ensure_cache-eq-ok}

module _ {T : Type 0} (d : Database) (rows : Database.Connection d → List Row)
    (sqlite : IsSqlite d rows) (durable : IsDurable d rows) (p source : FilePath)
    (other : source ≢ p) where
  open_local_steps :
      (w : World T)
      → open_local_cache d p w
        ≡ map_err
            (λ e. txt "open " ++ (display p ++ (txt ": " ++ e)))
            (fallible (lift (read_only_node d (w.fs p))))
            w
  unfolding open_local_cache io_steps
  open_local_steps w = refl

  -- A read of a rebuilt file sees the table.
  open_local_cache-rows :
      (content : Text) (t : ℕ) (conn : Database.Connection d) (w : World T)
      → Rebuilt d rows (file content t) (w.fs p)
      → (open_local_cache d p w).0 ≡ ok conn
      → rows conn ≡ survivors (rows_of (lines (file content t)))
  unfolding read_only_node
  open_local_cache-rows content t conn w (left, table, stamped, committed, time, held) h =
      let opens = lift-eq-ok (read_only_node d (w.fs p)) _ conn (
        fallible-eq-ok (lift (read_only_node d (w.fs p))) w conn
          (map_err-eq-ok _ _ w conn (ap (λ r. r.0) (sym (open_local_steps w)) ∙ h))) in
      durable.commit-opens stamped left conn committed (ap (read_only_node d) (sym held) ∙ opens)
      ∙ table

  -- Whether the cache was fresh when it was opened, or what it holds
  open_community_cache-rows :
      (content : Text) (t : ℕ) (cache : CommunityCache d) (w : World T)
      → w.fs source ≡ file content t
      → (open_community_cache d p source w).0 ≡ ok cache
      → Names d source t (w.fs p) ⊎ (rows cache.conn ≡ survivors (rows_of (lines (file content t))))
  unfolding open_community_cache
  open_community_cache-rows content t cache w there h =
      let (ready, ensured, opening, _) = >>=-next (ensure_cache d p source) _ w cache h in
      let v : World T = (ensure_cache d p source w).1 in
      let (at, outcome) =
        ensure_cache-eq-ok d rows sqlite p source other content t ready w there ensured in
      let (conn, opened, last, _) = >>=-next (open_local_cache d ready) _ v cache opening in
      let opened_at : (open_local_cache d p v).0 ≡ ok conn =
        ap (λ q. (open_local_cache d q v).0) (sym at) ∙ opened in
      elim outcome [
        | inl named ↦ inl named
        | inr built ↦ inr (
            ap (λ (c : CommunityCache d). rows c.conn) (sym (pure-eq-ok _ cache _ last))
            ∙ open_local_cache-rows content t conn v built opened_at)
      ]

  -- A lookup of an FDID in the cache of a community listfile that succeeds, where the source is a file
  -- other than the cache: either the metadata of the cache named the path of the source and its time
  -- before, or the answer is the path that the lines of the source have for this FDID when no later row
  -- replaces it. The statements act as SQLite's do, and what is committed is what a later connection
  -- reads.
  pub lookup_fdid_follows_source :
      (content : Text) (t fdid : ℕ) (found : Option Text) (w : World T)
      → w.fs source ≡ file content t
      → (lookup_fdid d p source fdid w).0 ≡ ok found
      → Names d source t (w.fs p)
        ⊎ (found ≡ path_of fdid (survivors (rows_of (lines (file content t)))))
  unfolding lookup_fdid cache_lookup_fdid query_fdid
  lookup_fdid_follows_source content t fdid found w there h =
      let (cache, opened, asked, _) = >>=-next (open_community_cache d p source) _ w found h in
      elim (open_community_cache-rows content t cache w there opened) [
        | inl named ↦ inl named
        | inr holds ↦ inr (
            row_or_none-eq-ok _ _ _ found (sqlite.select_by_fdid-Answers cache.conn fdid)
              (lift-eq-ok _ _ found asked)
            ∙ ap (path_of fdid) holds)
      ]
