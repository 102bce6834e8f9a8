-- ===== src/Bin/CascLocal.antt =====
-- src/bin/casc_local.rs: the extraction of files by their FDIDs.
pub mod Counts
use asset_resolver.Base.{
  ℕ, ◌+◌, ◌%◌, ◌^◌, Text, txt, FilePath, path, join, display, decimal, Option, none, some, Bool,
  true, false, List, [], ◌∷◌, ◌++◌, Result, if◌then◌else◌, ◌==◌, ltb, nat_eq, list_eq,
}
use asset_resolver.Base
use asset_resolver.Paths.{ResolverPaths}
use asset_resolver.World.Fs.{FileSystem}
use asset_resolver.World.Io.{
  World, Io, Answer, ok, err, panicked, ◌>>=◌, ◌>>◌, pure, attempt, gets, eprintln, exists,
  with_statics,
}
use asset_resolver.Casc.{Cascette, MissingKeyChunk}
use asset_resolver.Sqlite.{Sqlite}
use asset_resolver.ListfileCache.Sql.{Database}
use asset_resolver.ListfileCache.Lines.{parse_u32}
use asset_resolver.Listfile.{Listfile}
use asset_resolver.Listfile.Cell.{lookup_fdid}
use asset_resolver.Resolver.Extract.{ExtractedFile, describe_missing_keys}
use asset_resolver.Resolver.States.{Statics}
use asset_resolver.Resolver.Installs.{extract_fdid_to_path}

-- An argument that is an FDID is one more of them.
abbrev with_fdid : List ℕ → Text → List ℕ
with_fdid fdids arg = elim (parse_u32 arg) [ none ↦ fdids | some fdid ↦ fdids ++ (fdid ∷ []) ]

-- The loop of `parse_args`, from some argument on.
unfoldable pub parse_from : List ℕ → FilePath → List Text → List ℕ × FilePath
parse_from fdids output_dir [] = (fdids, output_dir)
parse_from fdids output_dir (arg ∷ []) = (with_fdid fdids arg, output_dir)
parse_from fdids output_dir (arg ∷ next ∷ args) = elim (arg == txt "-o") [
  | true ↦ parse_from fdids (path next) args
  | false ↦ parse_from (with_fdid fdids arg) output_dir (next ∷ args)
]

unfoldable pub parse_args : List Text → List ℕ × FilePath
parse_args args = parse_from [] (path (txt ".")) args

-- str::rsplit_once on a character of one byte
unfoldable pub rsplit_once : ℕ → Text → Option (Text × Text)
rsplit_once separator [] = none
rsplit_once separator (c ∷ t) = elim (rsplit_once separator t) [
  | some (before, behind) ↦ some (c ∷ before, behind)
  | none ↦ if c == separator then some ([], t) else none
]

unfoldable pub extension_from_listfile_path : Text → Option Text
extension_from_listfile_path p = elim (rsplit_once b'.' p) [
  | none ↦ none
  | some parts ↦ some parts.1
]

-- The extension of the output, by what the listfile says.
unfoldable pub extension_or_dat : Option Text → Text
extension_or_dat none = txt "dat"
extension_or_dat (some p) = elim (extension_from_listfile_path p) [
  | none ↦ txt "dat"
  | some ext ↦ ext
]

-- The two counters, of 32 bits, behind one more file.
abbrev count : Bool → ℕ × ℕ → ℕ × ℕ
count true (good, fail) = ((good + 1) % 2 ^ 32, fail)
count false (good, fail) = (good, (fail + 1) % 2 ^ 32)

-- The exit status by the counters
abbrev status : ℕ × ℕ → ℕ
status (good, fail) = if ltb 0 fail then 1 else 0

-- `paths` are `default_paths()`.
module _ (c : Cascette) (q : Sqlite) (d : Database)
    (canonicalize : FileSystem → FilePath → Option FilePath) (paths : ResolverPaths) where
  -- The static LISTFILE and the static CASC
  abbrev pub Globals : Type 0
  Globals = Option (Listfile d) × Statics c q

  unfoldable pub resolve_filename : ℕ → Io Globals Text
  resolve_filename fdid = do
    found ← lookup_fdid d canonicalize paths fdid
    pure (decimal fdid ++ (txt "." ++ extension_or_dat found))

  value_of : {A : Type 0} → Answer (Option A) → Option A
  value_of (ok o) = o
  value_of _ = none

  -- What the listfile would answer now. The extraction asks it only for a state with no identity.
  listfile_now : World Globals → ℕ → Option Text
  unfolding value_of
  listfile_now w fdid = value_of (lookup_fdid d canonicalize paths fdid w).0

  -- A computation on the static CASC
  on_states : {A : Type 0} → Io (Statics c q) A → Io Globals A
  on_states m w =
      let (a, w') = m (with_statics w w.statics.1) in (a, with_statics w' (w.statics.0, w'.statics))

  unfoldable pub extract_fdid : ℕ → FilePath → Io Globals (Option ExtractedFile)
  unfolding listfile_now on_states
  extract_fdid fdid output_dir = do
    name ← resolve_filename fdid
    let out_path = join output_dir (path name)
    there ← exists out_path
    if there then pure none else do
      listfile ← gets listfile_now
      extracted ← on_states (extract_fdid_to_path c q paths listfile fdid out_path)
      pure (some extracted)

  report_missing_keys : ℕ → List MissingKeyChunk → Io Globals (Unit {0})
  report_missing_keys fdid [] = pure tt
  report_missing_keys fdid (k ∷ ks) = eprintln (
      txt "FDID "
      ++ (decimal fdid
          ++ (txt " missing TACT keys (zero-filled): " ++ describe_missing_keys (k ∷ ks))))

  -- The line of one file; whether it counts as extracted.
  unfoldable pub report : ℕ → Result (Option ExtractedFile) → Io Globals Bool
  unfolding report_missing_keys
  report fdid (Base.ok (some extracted)) = do
    eprintln (
        txt "Extracted FDID "
        ++ (decimal fdid ++ (txt " -> " ++ display (ExtractedFile.path extracted))))
    report_missing_keys fdid (ExtractedFile.missing_keys extracted)
    pure true
  report fdid (Base.ok none) = do
    eprintln (txt "FDID " ++ (decimal fdid ++ txt " already extracted, skipped"))
    pure true
  report fdid (Base.err e) = do
    eprintln (txt "Failed FDID " ++ (decimal fdid ++ (txt ": " ++ e)))
    pure false

  -- The loop of `extract_all`, from some file on
  unfoldable pub extract_from : ℕ × ℕ → List ℕ → FilePath → Io Globals (ℕ × ℕ)
  unfolding report
  extract_from counts [] output_dir = pure counts
  extract_from counts (fdid ∷ fdids) output_dir = do
    answer ← attempt (extract_fdid fdid output_dir)
    extracted ← report fdid answer
    extract_from (count extracted counts) fdids output_dir

  unfoldable pub extract_all : List ℕ → FilePath → Io Globals (ℕ × ℕ)
  extract_all fdids output_dir = extract_from (0, 0) fdids output_dir

  -- The exit status, for given FDIDs
  run_fdids : List ℕ → FilePath → Io Globals ℕ
  run_fdids [] output_dir = do
    eprintln (txt "Usage: casc-local <fdid> [fdid2 ...] [-o output_dir]")
    pure 1
  run_fdids (fdid ∷ fdids) output_dir = do
    counts ← extract_all (fdid ∷ fdids) output_dir
    eprintln (decimal counts.0 ++ (txt " extracted, " ++ (decimal counts.1 ++ txt " failed")))
    pure (status counts)

  -- The exit status
  unfoldable pub main : List Text → Io Globals ℕ
  unfolding run_fdids
  main args = let parsed = parse_args args in run_fdids parsed.0 parsed.1
