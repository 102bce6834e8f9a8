-- ===== src/ListfileCache/Community/Reused.antt =====
-- src/listfile_cache.rs: a lookup in a community cache that is fresh.
use asset_resolver.Base.{
  ℕ, ◌≡◌, ◌≢◌, refl, sym, ap, ◌∙◌, Text, txt, FilePath, display, parent, Option, none, some, Bool,
  true, false, not, Result, ◌++◌, ◌==◌, list_eq, nat_eq, eq_refl, if◌then◌else◌, [], ◌∷◌,
}
use asset_resolver.Base
use asset_resolver.World.Fs.{Node, file, node_exists}
use asset_resolver.World.Io.{World, Io, ◌>>=◌, lift, map_err, exists, set_fs, io_steps}
use asset_resolver.World.Laws.{IsReader}
use asset_resolver.World.Files.{
  Preserves, gets-Preserves, lift-Preserves, map_err-Preserves, fallible-Preserves, bind-Preserves,
  pure-Preserves, exists-Preserves,
}
use asset_resolver.World.Ensures.{Guards, Leads, bind-Guards, then-Guards, keep-Guards}
use asset_resolver.World.Effects.{put-same, put-other}
use asset_resolver.ListfileCache.Community.Writable.{open_writable_steps, open_writable-eq-ok}
use asset_resolver.World.Directories.{create_dir_all-file}
use asset_resolver.ListfileCache.{
  open_node, write_busy_timeout, statement, after_statement, open_writable_cache, open_local_cache,
  read_only_node,
}
use asset_resolver.ListfileCache.Sql.{Database, prepared, row}
use asset_resolver.ListfileCache.Community.{
  create_parent, metadata_is_fresh, cache_is_fresh, rebuild_unless, ensure_open, ensure_cache,
  open_community_cache, lookup_fdid,
}
use asset_resolver.ListfileCache.Community.Fresh.{
  Names, metadata_is_fresh-IsReader, metadata_is_fresh-recorded,
}

module _ {T : Type 0} (d : Database) (p source : FilePath) (other : source ≢ p)
    (content text : Text) (t : ℕ)
    -- Opening a database that is there changes nothing of it.
    (opens : (conn : Database.Connection d)
      → Database.open_writable d (some content) ≡ Base.ok conn
      → Database.bytes d conn ≡ content) where
  -- The cache has its content, and the source its text and its time.
  abbrev Kept : World T → Type 0
  Kept w = ((time : ℕ) × (w.fs p ≡ file content time)) × (w.fs source ≡ file text t)

  reader-Kept : {A : Type 0} {m : Io T A} → IsReader m → Preserves Kept m
  reader-Kept h = record {
    at = λ w ((time, held), there).
        ((time, ap (λ fs. fs p) ((h.at w).fs) ∙ held), ap (λ fs. fs source) ((h.at w).fs) ∙ there);
  }

  create_parent-Kept : (above : Option FilePath) → Preserves Kept (create_parent above)
  unfolding create_parent
  create_parent-Kept none = pure-Preserves tt
  create_parent-Kept (some above) = map_err-Preserves _ (record {
    at = λ w ((time, held), there). (
      (time, create_dir_all-file p content time above w held),
      create_dir_all-file source text t above w there,
    );
  })

  after_statement-Kept :
      (r : Result (Database.Connection d))
      → ((conn : Database.Connection d) → r ≡ Base.ok conn → Database.bytes d conn ≡ content)
      → Preserves Kept (after_statement d p r)
  unfolding after_statement set_fs
  after_statement-Kept (Base.err e) same = record { at = λ w kept. kept }
  after_statement-Kept (Base.ok conn) same = record {
    at = λ w ((time, held), there). (
      (w.now, put-same w.fs p _ ∙ ap (λ bytes. file bytes w.now) (same conn refl)),
      put-other w.fs p source _ other ∙ there,
    );
  }

  statement-Kept :
      (what : Text) (r : Result (Database.Connection d))
      → ((conn : Database.Connection d) → r ≡ Base.ok conn → Database.bytes d conn ≡ content)
      → Preserves Kept (statement d p what r)
  unfolding statement after_statement
  statement-Kept what r same =
      map_err-Preserves _ (fallible-Preserves (λ w kept. kept) (after_statement-Kept r same))

  found-Kept :
      (node : Node)
      → ((time : ℕ) × (node ≡ file content time))
      → Preserves Kept (
          statement d p (txt "open " ++ display p) (open_node d node) >>= λ conn.
          map_err
            (λ e. txt "set busy timeout on " ++ (display p ++ (txt ": " ++ e)))
            (lift (Database.set_busy_timeout d conn write_busy_timeout)))
  unfolding open_node
  found-Kept node (time, held) =
      bind-Preserves
        (statement-Kept _ (open_node d node)
          (λ conn opened. opens conn (sym (ap (open_node d) held) ∙ opened)))
        (λ conn. map_err-Preserves _ (lift-Preserves _))

  open_writable_cache-Kept : Preserves Kept (open_writable_cache d p)
  unfolding open_writable_cache open_node
  open_writable_cache-Kept = record {
    at = λ w kept.
        rw (open_writable_steps d p source other w) ((found-Kept (w.fs p) kept.0).at w kept);
  }

  -- The metadata of the cache name the source and its time.
  module _ (opened ready : Database.Connection d)
      (opening : Database.open_writable d (some content) ≡ Base.ok opened)
      (waiting : Database.set_busy_timeout d opened write_busy_timeout ≡ Base.ok ready)
      (recorded : Database.select_metadata d ready ≡ prepared (row (display source, t))) where
    open_writable_cache-Leads :
        Leads Kept (open_writable_cache d p) (λ conn w. Kept w × (conn ≡ ready))
    unfolding open_node
    open_writable_cache-Leads = record {
      at = λ w conn kept good.
          let ((opened', opening', waiting'), _) =
            open_writable-eq-ok d p source other conn w good in
          let first : Base.ok opened ≡ Base.ok opened' =
            sym opening ∙ (sym (ap (open_node d) kept.0.1) ∙ opening') in
          (open_writable_cache-Kept.at w kept, cc (first, waiting, waiting'));
    }

    cache_is_fresh-Leads :
        (conn : Database.Connection d)
        → conn ≡ ready
        → Leads Kept (cache_is_fresh d conn source) (λ fresh w. Kept w × (fresh ≡ true))
    unfolding cache_is_fresh
    cache_is_fresh-Leads conn same = record {
      at = λ w fresh kept good. (
        (reader-Kept (metadata_is_fresh-IsReader source (Database.select_metadata d conn))).at w
            kept,
        metadata_is_fresh-recorded source text t fresh w kept.1 (
            ap (λ m. (metadata_is_fresh source m w).0)
              (sym recorded ∙ ap (Database.select_metadata d) (sym same))
            ∙ good),
      );
    }

    rebuild_unless-Guards :
        (fresh : Bool) (conn : Database.Connection d)
        → Guards (λ w. Kept w × (fresh ≡ true)) (rebuild_unless d fresh p conn source) Kept
    unfolding rebuild_unless
    rebuild_unless-Guards true conn = keep-Guards (λ w h. h.0) (pure-Preserves p)
    rebuild_unless-Guards false conn = record { at = λ w h. absurd (cc h.1) }

    ensure_open-Guards :
        (there : Bool) (conn : Database.Connection d)
        → Guards
            (λ w. (Kept w × (conn ≡ ready)) × (there ≡ true))
            (ensure_open d there p conn source)
            Kept
    unfolding ensure_open rebuild_unless metadata_is_fresh cache_is_fresh
    ensure_open-Guards false conn = record { at = λ w h. absurd (cc h.1) }
    ensure_open-Guards true conn = record {
      at = λ w ((kept, same), _).
          (bind-Guards (λ fresh. rebuild_unless d fresh p conn source)
              (keep-Guards (λ w h. h) (reader-Kept (metadata_is_fresh-IsReader source _)))
              (cache_is_fresh-Leads conn same) (λ fresh. rebuild_unless-Guards fresh conn)).at
            w kept;
    }

    exists-Leads :
        {P : World T → Type 0}
        → Leads (λ w. Kept w × P w) (exists source) (λ there w. (Kept w × P w) × (there ≡ true))
    unfolding io_steps
    exists-Leads = record { at = λ w there h good. (h, cc (good, ap node_exists h.0.1)) }

    ensure_cache-Guards : Guards Kept (ensure_cache d p source) Kept
    unfolding ensure_cache create_parent ensure_open
    ensure_cache-Guards =
        then-Guards (create_parent (parent p))
          (keep-Guards (λ w h. h) (create_parent-Kept (parent p)))
          (bind-Guards _ (keep-Guards (λ w h. h) open_writable_cache-Kept) open_writable_cache-Leads
            (λ conn.
              bind-Guards _ (keep-Guards (λ w h. h.0) (exists-Preserves source)) exists-Leads
                (λ there. ensure_open-Guards there conn)))

    open_local_cache-Kept : (at : FilePath) → Preserves Kept (open_local_cache d at)
    unfolding open_local_cache read_only_node
    open_local_cache-Kept at =
        bind-Preserves (gets-Preserves _)
          (λ node. map_err-Preserves _ (fallible-Preserves (λ w kept. kept) (lift-Preserves _)))

    lookup_fdid-Kept : (fdid : ℕ) → Preserves Kept (lookup_fdid d p source fdid)
    unfolding lookup_fdid open_community_cache
    lookup_fdid-Kept fdid =
        bind-Preserves
          (bind-Preserves (record { at = ensure_cache-Guards.at })
            (λ at. bind-Preserves (open_local_cache-Kept at) (λ conn. pure-Preserves _)))
          (λ cache. lift-Preserves _)

-- A lookup in the cache of a community listfile that is fresh, as its metadata name the path and the time
-- of the source, does not rebuild it: the database keeps its content, whatever the system refuses. Opening
-- a database leaves its content.
pub lookup_fdid-reuses :
    {T : Type 0} (d : Database) (p source : FilePath) (content text : Text) (t time fdid : ℕ)
    (w : World T)
    → source ≢ p
    → ((conn : Database.Connection d)
        → Database.open_writable d (some content) ≡ Base.ok conn
        → Database.bytes d conn ≡ content)
    → w.fs p ≡ file content time
    → w.fs source ≡ file text t
    → Names d source t (file content time)
    → (later : ℕ) × ((lookup_fdid d p source fdid w).1.fs p ≡ file content later)
unfolding open_node
lookup_fdid-reuses d p source content text t time fdid w other opens held there
      (opened, ready, opening, waiting, recorded) =
    ((lookup_fdid-Kept d p source other content text t opens opened ready opening waiting recorded
        fdid).at
      w ((time, held), there)).0
