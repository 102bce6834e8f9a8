-- ===== src/CascCache/Fresh.antt =====
-- src/casc_cache.rs: what a resolution cache that is taken for fresh contains, and when a namespace is
-- built again.
use asset_resolver.Base.{
  ℕ, ◌≡◌, refl, sym, ap, ◌∙◌, ◌⊎◌, inl, inr, arith, Text, txt, FilePath, Option, none, some, Bool,
  Bool-cases, true, false, ◌&&◌, ◌||◌, not, and_true, List, [], ◌∷◌, ◌++◌, ◌==◌, nat_eq, Result,
  if◌then◌else◌,
}
use asset_resolver.Base
use asset_resolver.Paths.{resolution_schema_version}
use asset_resolver.World.Fs.{FileSystem, Node, absent, dir, file, node_exists}
use asset_resolver.World.Io.{World, Io, ok, pure}
use asset_resolver.World.Laws.{IsReader, if-IsReader, reader_rules}
use asset_resolver.World.Chains.{>>=-ok, pure_step, exists_step, gets_step}
use asset_resolver.World.Inversion.{
  >>=-next, map_err-eq-ok, lift-eq-ok, attempt-eq-ok, mtime-eq-ok, node_mtime,
}
use asset_resolver.Casc.{Cascette}
use asset_resolver.Sqlite.{Sqlite, MetadataQuery, no_table, corrupt, no_row, stored, failed}
use asset_resolver.CascCache.{
  cache_file, root_file, encoding_file, journal_file, wal_file, file_mtime, file_mtimes,
  fresh_at_times, fresh_node, metadata_is_fresh, cache_is_fresh, resolution_cache_is_fresh,
}

module _ (c : Cascette) (q : Sqlite) where
  file_mtime-IsReader : {T : Type 0} (p : FilePath) → IsReader (file_mtime {T = T} p)
  unfolding file_mtime
  file_mtime-IsReader p = search reader_rules

  file_mtimes-IsReader :
      {T : Type 0} (casc_dir : FilePath) → IsReader (file_mtimes c q {T = T} casc_dir)
  unfolding file_mtimes
  file_mtimes-IsReader casc_dir = search (reader_rules, file_mtime-IsReader) depth 10

  cache_is_fresh-IsReader :
      {T : Type 0} (p : FilePath) (root enc : ℕ) → IsReader (cache_is_fresh c q {T = T} p root enc)
  unfolding cache_is_fresh
  cache_is_fresh-IsReader p root enc = search reader_rules depth 10

  fresh_at_times-IsReader :
      {T : Type 0} (casc_dir : FilePath) (times : Result (ℕ × ℕ))
      → IsReader (fresh_at_times c q {T = T} casc_dir times)
  unfolding fresh_at_times
  fresh_at_times-IsReader casc_dir (Base.err e) = search reader_rules
  fresh_at_times-IsReader casc_dir (Base.ok (root, enc)) = search cache_is_fresh-IsReader

  -- Looking whether a resolution cache is fresh changes no file and no state.
  pub resolution_cache_is_fresh-IsReader :
      {T : Type 0} (casc_dir : FilePath) → IsReader (resolution_cache_is_fresh c q {T = T} casc_dir)
  unfolding resolution_cache_is_fresh
  resolution_cache_is_fresh-IsReader casc_dir =
      search (reader_rules, if-IsReader, file_mtimes-IsReader, fresh_at_times-IsReader) depth 14

  metadata-eq-true :
      (m : MetadataQuery) (root enc : ℕ)
      → metadata_is_fresh c q m root enc ≡ Base.ok true
      → m ≡ stored root enc resolution_schema_version
  unfolding metadata_is_fresh
  metadata-eq-true no_table root enc h = absurd (cc h)
  metadata-eq-true corrupt root enc h = absurd (cc h)
  metadata-eq-true no_row root enc h = absurd (cc h)
  metadata-eq-true (failed e) root enc h = absurd (cc h)
  metadata-eq-true (stored r e v) root enc h = ground arith

  fresh_node-eq-true :
      (n : Node) (root enc : ℕ)
      → fresh_node c q n root enc ≡ Base.ok true
      → (content : Text) × (t : ℕ) × (n ≡ file content t)
        × (Sqlite.read_metadata q content ≡ stored root enc resolution_schema_version)
  unfolding fresh_node
  fresh_node-eq-true absent root enc h = absurd (cc h)
  fresh_node-eq-true dir root enc h = absurd (cc h)
  fresh_node-eq-true (file content t) root enc h = (content, t, refl, metadata-eq-true _ root enc h)

  cache_is_fresh-eq-true :
      {T : Type 0} (p : FilePath) (root enc : ℕ) (w : World T)
      → (cache_is_fresh c q p root enc w).0 ≡ ok true
      → (content : Text) × (t : ℕ) × (w.fs p ≡ file content t)
        × (Sqlite.read_metadata q content ≡ stored root enc resolution_schema_version)
  unfolding cache_is_fresh
  cache_is_fresh-eq-true p root enc w h = fresh_node-eq-true (w.fs p) root enc (
      lift-eq-ok _ w true (
        map_err-eq-ok _ _ w true
          (ap (λ r. r.0) (sym (>>=-ok _ _ (gets_step (λ v. v.fs p) w))) ∙ h)))

  file_mtime-eq-ok :
      {T : Type 0} (p : FilePath) (w : World T) (t : ℕ)
      → (file_mtime p w).0 ≡ ok t
      → node_mtime (w.fs p) ≡ some t
  unfolding file_mtime
  file_mtime-eq-ok p w t h = mtime-eq-ok p w t (map_err-eq-ok _ _ w t h)

  file_mtimes-eq-ok :
      {T : Type 0} (casc_dir : FilePath) (w : World T) (root enc : ℕ)
      → (file_mtimes c q casc_dir w).0 ≡ ok (Base.ok (root, enc))
      → (node_mtime (w.fs (root_file casc_dir)) ≡ some root)
        × (node_mtime (w.fs (encoding_file casc_dir)) ≡ some enc)
  unfolding file_mtimes
  file_mtimes-eq-ok casc_dir w root enc h =
      let (r, first, good1, _) = >>=-next _ _ w (root, enc) (attempt-eq-ok _ w (root, enc) h) in
      let w1 = (file_mtime (root_file casc_dir) w).1 in
      let (e, second, good2, _) = >>=-next _ _ w1 (root, enc) good1 in
      let pair : ok (r, e) ≡ ok (root, enc) = ap (λ a. a.0) (sym (pure_step (r, e) _)) ∙ good2 in
      let kept = ((file_mtime-IsReader (root_file casc_dir)).at w).fs in
      (
        file_mtime-eq-ok _ w r first ∙ cc pair,
        rw (← kept) (file_mtime-eq-ok _ w1 e second ∙ cc pair),
      )

  gate :
      {T : Type 0} (cached journal wal : Bool) (k : Io T Bool) (w : World T)
      → ((if not cached || (journal || wal) then pure false else k) w).0 ≡ ok true
      → (cached ≡ true) × (journal ≡ false) × (wal ≡ false) × ((k w).0 ≡ ok true)
  unfolding pure
  gate false journal wal k w h = absurd (cc h)
  gate true true wal k w h = absurd (cc h)
  gate true false true k w h = absurd (cc h)
  gate true false false k w h = (refl, refl, refl, h)

  fresh_at_times-eq-true :
      {T : Type 0} (casc_dir : FilePath) (times : Result (ℕ × ℕ)) (w : World T)
      → (fresh_at_times c q casc_dir times w).0 ≡ ok true
      → (root : ℕ) × (enc : ℕ) × (times ≡ Base.ok (root, enc))
        × ((cache_is_fresh c q (cache_file casc_dir) root enc w).0 ≡ ok true)
  unfolding fresh_at_times pure
  fresh_at_times-eq-true casc_dir (Base.err e) w h = absurd (cc h)
  fresh_at_times-eq-true casc_dir (Base.ok (root, enc)) w h = (root, enc, refl, h)

  -- A namespace whose database records the times of the two inputs and the version of the schema, and
  -- has no journal of an open transaction beside it.
  pub record IsFresh (fs : FileSystem) (casc_dir : FilePath) : Type 0 where
    pub content : Text
    pub root_mtime : ℕ
    pub enc_mtime : ℕ
    pub changed : ℕ
    pub is_cached : fs (cache_file casc_dir) ≡ file content changed
    pub no_journal : node_exists (fs (journal_file casc_dir)) ≡ false
    pub no_wal : node_exists (fs (wal_file casc_dir)) ≡ false
    pub root_time : node_mtime (fs (root_file casc_dir)) ≡ some root_mtime
    pub enc_time : node_mtime (fs (encoding_file casc_dir)) ≡ some enc_mtime
    pub metadata :
        Sqlite.read_metadata q content ≡ stored root_mtime enc_mtime resolution_schema_version

  -- A resolution cache is taken for fresh only if its database records the present times of `root.bin`
  -- and `encoding.bin` and the version of the schema, and neither a journal nor a write-ahead log says
  -- that a transaction was interrupted.
  pub resolution_cache_is_fresh-eq-true :
      {T : Type 0} (casc_dir : FilePath) (w : World T)
      → (resolution_cache_is_fresh c q casc_dir w).0 ≡ ok true
      → IsFresh w.fs casc_dir
  unfolding resolution_cache_is_fresh
  resolution_cache_is_fresh-eq-true casc_dir w h =
      let start =
        >>=-ok _ _ (exists_step (cache_file casc_dir) w)
        ∙ >>=-ok _ _ (exists_step (journal_file casc_dir) w)
        ∙ >>=-ok _ _ (exists_step (wal_file casc_dir) w) in
      let (_, no_journal, no_wal, rest) = gate _ _ _ _ w (ap (λ r. r.0) (sym start) ∙ h) in
      let (times, got, last, _) = >>=-next _ _ w true rest in
      let (root, enc, are, fresh) = fresh_at_times-eq-true casc_dir times _ last in
      let (root_time, enc_time) = file_mtimes-eq-ok casc_dir w root enc (got ∙ ap ok are) in
      let (content, t, there, metadata) =
        cache_is_fresh-eq-true (cache_file casc_dir) root enc _ fresh in
      let kept = ((file_mtimes-IsReader casc_dir).at w).fs in
      record {
        content = content;
        root_mtime = root;
        enc_mtime = enc;
        changed = t;
        is_cached = ap (λ fs. fs (cache_file casc_dir)) (sym kept) ∙ there;
        no_journal = no_journal;
        no_wal = no_wal;
        root_time = root_time;
        enc_time = enc_time;
        metadata = metadata;
      }
