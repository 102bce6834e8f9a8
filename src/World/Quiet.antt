-- ===== src/World/Quiet.antt =====
-- Steps in a world where the system refuses nothing.
use asset_resolver.Base.{◌≡◌, sym, ◌∙◌, ap, ℕ, Text, FilePath, Option, none, some, List, []}
use asset_resolver.World.Fs.{Node, absent, dir, file}
use asset_resolver.World.Io.{
  World, Io, Answer, ok, err, fallible, next_fault, later_faults, mtime, mtime_of, io_steps,
}
use asset_resolver.World.Inversion.{node_mtime}

module _ {T : Type 0} where
  spent_nothing : (w : World T) → w.faults ≡ [] → record w { faults = later_faults w.faults } ≡ w
  spent_nothing w h =
      ap (λ (f : List (Option Text)). record w { faults = f }) (ap later_faults h ∙ sym h)

  fault_free :
      {A : Type 0} (fault : Option Text) (m : Io T A) (w v : World T)
      → fault ≡ none
      → v ≡ w
      → (let step : Answer A × World T = elim fault [ some e ↦ (err e, v) | none ↦ m v ] in step)
        ≡ m w
  fault_free none m w v h same = ap m same
  fault_free (some e) m w v h same = absurd (cc h)

  fallible-quiet : {A : Type 0} (m : Io T A) (w : World T) → w.faults ≡ [] → fallible m w ≡ m w
  unfolding fallible
  fallible-quiet m w h =
      fault_free (next_fault w.faults) m w _ (ap next_fault h) (spent_nothing w h)

  mtime_of_step :
      (n : Node) (t : ℕ) (w : World T) → node_mtime n ≡ some t → mtime_of n w ≡ (ok t, w)
  unfolding mtime_of io_steps
  mtime_of_step absent t w h = absurd (cc h)
  mtime_of_step dir t w h = cc h
  mtime_of_step (file content s) t w h = cc h

  pub mtime-quiet :
      (p : FilePath) (t : ℕ) (w : World T)
      → w.faults ≡ []
      → node_mtime (w.fs p) ≡ some t
      → mtime p w ≡ (ok t, w)
  unfolding mtime
  mtime-quiet p t w h timed = fallible-quiet _ w h ∙ mtime_of_step (w.fs p) t w timed
