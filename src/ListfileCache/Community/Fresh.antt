-- ===== src/ListfileCache/Community/Fresh.antt =====
-- src/listfile_cache.rs: what a community cache records that passes for fresh.
use asset_resolver.Base.{
  eq_refl, txt, ◌++◌, ℕ, ◌≡◌, ◌≢◌, refl, sym, ◌∙◌, ap, ◌⊎◌, inl, inr, Text, FilePath, display,
  parent, Option, none, some, Bool, true, false, List, Result, list_eq, nat_eq, ◌==◌, eq→≡,
  Bool-cases, not, if◌then◌else◌, arith,
}
use asset_resolver.Base
use asset_resolver.World.Fs.{Node, file, node_exists}
use asset_resolver.World.Io.{World, Io, ok, pure, io_steps, exists}
use asset_resolver.World.Laws.{IsReader, reader_rules, if-IsReader}
use asset_resolver.World.Inversion.{>>=-next, map_err-eq-ok, pure-eq-ok, mtime-eq-ok, node_mtime}
use asset_resolver.ListfileCache.{source_mtime, open_node, write_busy_timeout}
use asset_resolver.ListfileCache.Sql.{
  Database, row, no_rows, no_table, failed, Prepared, prepared, no_metadata, not_prepared,
}
use asset_resolver.ListfileCache.Community.{metadata_is_fresh}

pub is_there :
    {T : Type 0} (seen : Bool) (source : FilePath) (content : Text) (t : ℕ) (w : World T)
    → (exists source w).0 ≡ ok seen
    → w.fs source ≡ file content t
    → seen ≡ true
unfolding io_steps
is_there seen source content t w h there = cc (h, ap node_exists there)

fresh_if :
    {T : Type 0} (b : Bool) (m : Io T Bool) (w : World T)
    → ((if not b then pure false else m) w).0 ≡ ok true
    → (b ≡ true) × ((m w).0 ≡ ok true)
unfolding io_steps
fresh_if true m w h = (refl, h)
fresh_if false m w h = absurd (cc h)

pub time_of : (content : Text) (t time : ℕ) → node_mtime (file content t) ≡ some time → time ≡ t
time_of content t time h = sym (cc h)

recorded_is_fresh :
    {T : Type 0} (source : FilePath) (recorded : Text) (time : ℕ) (w : World T)
    → (metadata_is_fresh source (prepared (row (recorded, time))) w).0 ≡ ok true
    → (recorded ≡ display source) × (node_mtime (w.fs source) ≡ some time)
unfolding metadata_is_fresh source_mtime
recorded_is_fresh source recorded time w h =
    let (same, timed) = fresh_if (recorded == display source) _ w h in
    let (now, measured, last, _) =
      >>=-next (source_mtime source) (λ now. pure (time == now)) w true timed in
    let equal : now ≡ time = sym (eq→≡ time now (pure-eq-ok _ true _ last)) in
    (
      eq→≡ recorded (display source) same,
      mtime-eq-ok source w now (map_err-eq-ok _ _ w now measured) ∙ ap some equal,
    )

-- Metadata that passes for fresh names the source and its time.
pub metadata_is_fresh-eq-true :
    {T : Type 0} (source : FilePath) (m : Prepared) (w : World T)
    → (metadata_is_fresh source m w).0 ≡ ok true
    → (time : ℕ) × (m ≡ prepared (row (display source, time)))
      × (node_mtime (w.fs source) ≡ some time)
unfolding metadata_is_fresh io_steps
metadata_is_fresh-eq-true source no_metadata w h = absurd (cc h)
metadata_is_fresh-eq-true source (not_prepared e) w h = absurd (cc h)
metadata_is_fresh-eq-true source (prepared no_rows) w h = absurd (cc h)
metadata_is_fresh-eq-true source (prepared (no_table e)) w h = absurd (cc h)
metadata_is_fresh-eq-true source (prepared (failed e)) w h = absurd (cc h)
metadata_is_fresh-eq-true source (prepared (row (recorded, time))) w h =
    let (same, timed) = recorded_is_fresh source recorded time w h in
    (time, ap (λ x. prepared (row (x, time))) same, timed)

pub metadata_is_fresh-IsReader :
    {T : Type 0} (source : FilePath) (m : Prepared) → IsReader {T = T} (metadata_is_fresh source m)
unfolding metadata_is_fresh source_mtime
metadata_is_fresh-IsReader source no_metadata = search reader_rules
metadata_is_fresh-IsReader source (not_prepared e) = search reader_rules
metadata_is_fresh-IsReader source (prepared no_rows) = search reader_rules
metadata_is_fresh-IsReader source (prepared (no_table e)) = search reader_rules
metadata_is_fresh-IsReader source (prepared (failed e)) = search reader_rules
metadata_is_fresh-IsReader source (prepared (row r)) = search (reader_rules, if-IsReader)

past_guard :
    {T : Type 0} (b : Bool) (m : Io T Bool) (w : World T) (x : Bool)
    → b ≡ true
    → ((if not b then pure false else m) w).0 ≡ ok x
    → (m w).0 ≡ ok x
past_guard true m w x is h = h
past_guard false m w x is h = absurd (cc is)

-- Metadata that names the source and its time passes for fresh, if the time can be read.
pub metadata_is_fresh-recorded :
    {T : Type 0} (source : FilePath) (content : Text) (t : ℕ) (fresh : Bool) (w : World T)
    → w.fs source ≡ file content t
    → (metadata_is_fresh source (prepared (row (display source, t))) w).0 ≡ ok fresh
    → fresh ≡ true
unfolding metadata_is_fresh source_mtime
metadata_is_fresh-recorded source content t fresh w there h =
    let timed =
      past_guard (display source == display source) _ w fresh (eq_refl (display source)) h in
    let (now, measured, last, _) =
      >>=-next (source_mtime source) (λ now. pure (t == now)) w fresh timed in
    let at = mtime-eq-ok source w now (map_err-eq-ok _ _ w now measured) in
    let same : now ≡ t = time_of content t now (sym (ap node_mtime there) ∙ at) in
    sym (pure-eq-ok (t == now) fresh _ last) ∙ (ap (λ x. t == x) same ∙ eq_refl t)

-- A database file whose metadata names the source and this time.
abbrev pub Names : (d : Database) → FilePath → ℕ → Node → Type 0
Names d source t n =
    (opened : Database.Connection d) × (ready : Database.Connection d) × (open_node d n
      ≡ Base.ok opened)
    × (Database.set_busy_timeout d opened write_busy_timeout ≡ Base.ok ready)
    × (Database.select_metadata d ready ≡ prepared (row (display source, t)))
