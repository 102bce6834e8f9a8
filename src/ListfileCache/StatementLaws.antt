-- ===== src/ListfileCache/StatementLaws.antt =====
-- src/listfile_cache.rs: what a statement that succeeded has given, and what it leaves of other files.
use asset_resolver.Base.{ℕ, ap, ◌∙◌, ◌≡◌, ◌≢◌, refl, Text, FilePath, Option, none, some, Result}
use asset_resolver.Base
use asset_resolver.World.Fs.{file}
use asset_resolver.World.Io.{
  World, Answer, ok, err, panicked, map_err, fallible, set_fs, io_steps, next_fault, later_faults,
}
use asset_resolver.World.Inversion.{map_err-eq-ok, fallible-eq-ok}
use asset_resolver.World.Effects.{put-other, put-same}
use asset_resolver.ListfileCache.Sql.{Database}
use asset_resolver.ListfileCache.{statement, after_statement}

module _ (d : Database) {T : Type 0} (p : FilePath) where
  after_statement-eq-ok :
      (r : Result (Database.Connection d)) (w : World T) (conn : Database.Connection d)
      → (after_statement d p r w).0 ≡ ok conn
      → r ≡ Base.ok conn
  unfolding after_statement
  after_statement-eq-ok (Base.err e) w conn h = absurd (cc h)
  after_statement-eq-ok (Base.ok c) w conn h = cc h

  pub statement-eq-ok :
      (what : Text) (r : Result (Database.Connection d)) (w : World T)
      (conn : Database.Connection d)
      → (statement d p what r w).0 ≡ ok conn
      → r ≡ Base.ok conn
  unfolding statement
  statement-eq-ok what r w conn h = after_statement-eq-ok r _ conn (
      fallible-eq-ok (after_statement d p r) w conn
        (map_err-eq-ok _ (fallible (λ w. after_statement d p r w)) w conn h))

  module _ (q : FilePath) (other : q ≢ p) where
    after_statement-other :
        (r : Result (Database.Connection d)) (w : World T)
        → (after_statement d p r w).1.fs q ≡ w.fs q
    unfolding after_statement set_fs
    after_statement-other (Base.err e) w = refl
    after_statement-other (Base.ok conn) w = put-other w.fs p q _ other

    prefixed_other :
        (f : Text → Text) (r : Answer (Database.Connection d) × World T) (w : World T)
        → r.1.fs q ≡ w.fs q
        → (map_err f (λ _. r) w).1.fs q ≡ w.fs q
    unfolding io_steps
    prefixed_other f (ok c, w') w h = h
    prefixed_other f (err e, w') w h = h
    prefixed_other f (panicked, w') w h = h

    fault_other :
        (fault : Option Text) (r : Result (Database.Connection d)) (w : World T)
        → (let step : Answer (Database.Connection d) × World T = elim fault [
          | some e ↦ (err e, w)
          | none ↦ after_statement d p r w
        ] in
            step.1.fs q)
          ≡ w.fs q
    fault_other none r w = after_statement-other r w
    fault_other (some e) r w = refl

    pub statement-other :
        (what : Text) (r : Result (Database.Connection d)) (w : World T)
        → (statement d p what r w).1.fs q ≡ w.fs q
    unfolding statement fallible io_steps
    statement-other what r w =
        prefixed_other _ (fallible (λ v. after_statement d p r v) w) w
          (fault_other (next_fault w.faults) r (record w { faults = later_faults w.faults }))

  -- The file then holds what the database commits.
  written :
      (r : Result (Database.Connection d)) (w : World T) (conn : Database.Connection d)
      → (after_statement d p r w).0 ≡ ok conn
      → (t : ℕ) × ((after_statement d p r w).1.fs p ≡ file (Database.bytes d conn) t)
  unfolding after_statement set_fs
  written (Base.err e) w conn h = absurd (cc h)
  written (Base.ok c) w conn h =
      (w.now, put-same w.fs p _ ∙ ap (λ x. file (Database.bytes d x) w.now) (cc h))

  fault_written :
      (fault : Option Text) (r : Result (Database.Connection d)) (w : World T)
      (conn : Database.Connection d)
      → let step : Answer (Database.Connection d) × World T = elim fault [
        | some e ↦ (err e, w)
        | none ↦ after_statement d p r w
      ] in
        step.0 ≡ ok conn → (t : ℕ) × (step.1.fs p ≡ file (Database.bytes d conn) t)
  fault_written none r w conn h = written r w conn h
  fault_written (some e) r w conn h = absurd (cc h)

  prefixed_written :
      (f : Text → Text) (r : Answer (Database.Connection d) × World T) (w : World T)
      (conn : Database.Connection d)
      → (r.0 ≡ ok conn → (t : ℕ) × (r.1.fs p ≡ file (Database.bytes d conn) t))
      → (map_err f (λ _. r) w).0 ≡ ok conn
      → (t : ℕ) × ((map_err f (λ _. r) w).1.fs p ≡ file (Database.bytes d conn) t)
  unfolding io_steps
  prefixed_written f (ok c, w') w conn k h = k h
  prefixed_written f (err e, w') w conn k h = absurd (cc h)
  prefixed_written f (panicked, w') w conn k h = absurd (cc h)

  pub statement-file :
      (what : Text) (r : Result (Database.Connection d)) (w : World T)
      (conn : Database.Connection d)
      → (statement d p what r w).0 ≡ ok conn
      → (t : ℕ) × ((statement d p what r w).1.fs p ≡ file (Database.bytes d conn) t)
  unfolding statement fallible io_steps
  statement-file what r w conn h =
      prefixed_written _ (fallible (λ v. after_statement d p r v) w) w conn
        (fault_written (next_fault w.faults) r (record w { faults = later_faults w.faults }) conn) h
