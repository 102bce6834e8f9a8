-- ===== src/Bin/CascLocal/Counts.antt =====
-- src/bin/casc_local.rs: every file is counted once, and the exit status tells of the failures.
use asset_resolver.Base.{
  ℕ, ◌+◌, ◌^◌, ◌<◌, ◌≡◌, ap, arith, FilePath, Option, Bool, true, false, List, [], ◌∷◌, length,
}
use asset_resolver.Base
use asset_resolver.Resolver.Extract.{ExtractedFile}
use asset_resolver.Paths.{ResolverPaths}
use asset_resolver.World.Fs.{FileSystem}
use asset_resolver.World.Io.{World, ok, attempt, ◌>>=◌}
use asset_resolver.World.Inversion.{>>=-next, pure-eq-ok}
use asset_resolver.Casc.{Cascette}
use asset_resolver.Sqlite.{Sqlite}
use asset_resolver.ListfileCache.Sql.{Database}
use asset_resolver.Bin.CascLocal.{Globals, report, extract_fdid, count, extract_from, extract_all}

-- The files counted so far
abbrev total : ℕ × ℕ → ℕ
total counts = counts.0 + counts.1

total-count :
    (b : Bool) (counts : ℕ × ℕ)
    → total counts + 1 < 2 ^ 32
    → total (count b counts) ≡ total counts + 1
total-count true counts h = omega arith
total-count false counts h = omega arith

module _ (c : Cascette) (q : Sqlite) (d : Database)
    (canonicalize : FileSystem → FilePath → Option FilePath) (paths : ResolverPaths) where
  extract_from-total :
      (fdids : List ℕ) (counts result : ℕ × ℕ) (output_dir : FilePath)
      (w : World (Globals c q d canonicalize paths))
      → total counts + length fdids < 2 ^ 32
      → (extract_from c q d canonicalize paths counts fdids output_dir w).0 ≡ ok result
      → total result ≡ total counts + length fdids
  unfolding extract_from
  extract_from-total [] counts result output_dir w h good =
      omega (arith, ap total (pure-eq-ok counts result w good))
  extract_from-total (fdid ∷ fdids) counts result output_dir w h good =
      let (answer, _, reported, _) = >>=-next _ _ w result good in
      let (extracted, _, behind, _) = >>=-next _ _ _ result reported in
      omega (
        arith,
        total-count extracted counts (omega arith),
        extract_from-total fdids (count extracted counts) result output_dir _
            (omega (arith, total-count extracted counts (omega arith))) behind,
      )

  -- Of fewer than 2 ^ 32 files each is counted once: those that were extracted or were there, and those
  -- that failed, are as many as were asked for. A failure does not end the loop.
  pub extract_all-total :
      (fdids : List ℕ) (output_dir : FilePath) (good fail : ℕ)
      (w : World (Globals c q d canonicalize paths))
      → length fdids < 2 ^ 32
      → (extract_all c q d canonicalize paths fdids output_dir w).0 ≡ ok (good, fail)
      → good + fail ≡ length fdids
  unfolding extract_all
  extract_all-total fdids output_dir good fail w h answered =
      omega
        (arith, extract_from-total fdids (0, 0) (good, fail) output_dir w (omega arith) answered)

  -- Every file of the loop is extracted, or its output is there: each from the world that the one
  -- before has left.
  abbrev pub Extracted : List ℕ → FilePath → World (Globals c q d canonicalize paths) → Type 0
  Extracted [] output_dir w = Unit {0}
  Extracted (fdid ∷ fdids) output_dir w =
      ((outcome : Option ExtractedFile) × ((extract_fdid c q d canonicalize paths fdid output_dir
            w).0
          ≡ ok outcome))
      × Extracted fdids output_dir
          ((attempt (extract_fdid c q d canonicalize paths fdid output_dir)
              >>= report c q d canonicalize paths fdid)
            w).1
