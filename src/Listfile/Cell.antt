-- ===== src/Listfile/Cell.antt =====
-- src/listfile.rs: the default listfile, and the cell that a listfile is in. Its first use makes it from
-- the paths.
use asset_resolver.Base.{ℕ, Text, FilePath, Option, none, some}
use asset_resolver.Paths.{ResolverPaths}
use asset_resolver.World.Fs.{FileSystem}
use asset_resolver.World.Io.{Io, with_statics}
use asset_resolver.ListfileCache.Sql.{Database}
use asset_resolver.Listfile.{Listfile, Lookup, from_paths}
use asset_resolver.Listfile

module _ (d : Database) (canonicalize : FileSystem → FilePath → Option FilePath) where
  -- OnceLock::get_or_init
  listfile_of : FileSystem → ResolverPaths → Option (Listfile d) → Listfile d
  listfile_of fs paths none = from_paths d canonicalize fs paths
  listfile_of fs paths (some listfile) = listfile

module _ (d : Database) (canonicalize : FileSystem → FilePath → Option FilePath) {S : Type 0} where
  -- A method on the listfile of a cell, which stands before the other statics.
  unfoldable pub on_listfile :
      {A : Type 0} → ResolverPaths → Lookup d A → Io (Option (Listfile d) × S) A
  unfolding listfile_of
  on_listfile paths method w =
      let (a, w') = method (with_statics w (listfile_of d canonicalize w.fs paths w.statics.0)) in
      (a, with_statics w' (some w'.statics, w.statics.1))

  -- lookup_fdid, on the default listfile; `paths` are the default paths.
  unfoldable pub lookup_fdid : ResolverPaths → ℕ → Io (Option (Listfile d) × S) (Option Text)
  lookup_fdid paths fdid = on_listfile paths (Listfile.lookup_fdid d fdid)

  -- lookup_path, on the default listfile
  unfoldable pub lookup_path : ResolverPaths → Text → Io (Option (Listfile d) × S) (Option ℕ)
  lookup_path paths p = on_listfile paths (Listfile.lookup_path d p)
