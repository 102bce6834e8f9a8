-- ===== src/Resolver/Lookups.antt =====
-- src/lib.rs: `CascListfileResolver` with its paths and its listfile, and the two lookups in that.
use asset_resolver.Base.{ℕ, Text, FilePath, Option, none}
use asset_resolver.RuntimeMode.{AssetRuntimeMode, effective_runtime_mode}
use asset_resolver.Paths.{AssetResolverConfig, ResolverPaths}
use asset_resolver.Paths.Defaults.{Environment, from_config}
use asset_resolver.World.Fs.{FileSystem}
use asset_resolver.World.Io.{Io, run}
use asset_resolver.ListfileCache.Sql.{Database}
use asset_resolver.Listfile.{Listfile, lookup_fdid}
use asset_resolver.Listfile
use asset_resolver.Listfile.Cell.{on_listfile}

module _ (d : Database) where
  pub record CascListfileResolver : Type 0 where
    pub paths : ResolverPaths
    pub listfile : Option (Listfile d)

  -- CascListfileResolver::new
  unfoldable pub new_resolver : Environment → AssetResolverConfig → CascListfileResolver
  new_resolver e config = record { paths = from_config e config; listfile = none }

-- CascListfileResolver::runtime_mode
unfoldable pub runtime_mode : {T : Type 0} → ResolverPaths → Io T AssetRuntimeMode
runtime_mode paths = run (effective_runtime_mode paths.runtime_mode)

-- The methods on the paths of a resolver and the cell with its listfile.
module _ (d : Database) (canonicalize : FileSystem → FilePath → Option FilePath) {S : Type 0} where
  -- CascListfileResolver::resolve_path
  unfoldable pub resolve_path : ResolverPaths → ℕ → Io (Option (Listfile d) × S) (Option Text)
  resolve_path paths fdid = on_listfile d canonicalize paths (lookup_fdid d fdid)

  -- CascListfileResolver::lookup_path
  unfoldable pub lookup_path : ResolverPaths → Text → Io (Option (Listfile d) × S) (Option ℕ)
  lookup_path paths p = on_listfile d canonicalize paths (Listfile.lookup_path d p)
