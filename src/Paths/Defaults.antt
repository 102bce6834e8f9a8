-- ===== src/Paths/Defaults.antt =====
-- src/paths.rs: the roots that the environment gives where the configuration names none.
use asset_resolver.Base.{
  Text, txt, FilePath, path, join, parent, Option, none, some, Bool, find, List, [], ◌∷◌, ◌++◌,
}
use asset_resolver.Paths.{AssetResolverConfig, ResolverPaths}

-- What the process sees of its environment: `var_os`, `current_dir`, `current_exe`, `temp_dir`, the
-- manifest's directory at build time, and whether a path exists.
pub record Environment : Type 0 where
  pub var_os : Text → Option Text
  pub current_dir : Option FilePath
  pub current_exe : Option FilePath
  pub temp_dir : FilePath
  pub manifest_dir : FilePath
  pub exists : FilePath → Bool

abbrev pub or_else {ℓ} : {A : Type ℓ} → Option A → Option A → Option A
or_else (some a) b = some a
or_else none b = b

abbrev pub unwrap_or {ℓ} : {A : Type ℓ} → Option A → A → A
unwrap_or (some a) b = a
unwrap_or none b = b

abbrev env_path : Environment → Text → Option FilePath
env_path e name = elim (e.var_os name) [ none ↦ none | some v ↦ some (path v) ]

unfoldable pub env_source_data_root : Environment → Option FilePath
env_source_data_root e = env_path e (txt "ASSET_RESOLVER_DATA_DIR")

unfoldable pub env_shared_data_root : Environment → Option FilePath
env_shared_data_root e = env_path e (txt "ASSET_RESOLVER_SHARED_DATA_DIR")

unfoldable pub env_cache_root : Environment → Option FilePath
env_cache_root e = env_path e (txt "ASSET_RESOLVER_CACHE_DIR")

data_below : Option FilePath → List FilePath
data_below none = []
data_below (some p) = join p (path (txt "data")) ∷ []

exe_dir : Option FilePath → Option FilePath
exe_dir none = none
exe_dir (some exe) = parent exe

unfoldable pub runtime_data_candidates : Environment → List FilePath
unfolding data_below exe_dir
runtime_data_candidates e =
    data_below e.current_dir
    ++ (data_below (exe_dir e.current_exe) ++ (join e.manifest_dir (path (txt "data")) ∷ []))

unfoldable pub default_source_data_root : Environment → FilePath
default_source_data_root e =
    unwrap_or (find e.exists (runtime_data_candidates e)) (path (txt "data"))

unfoldable pub default_cache_root : Environment → FilePath
default_cache_root e =
    let home : Option FilePath = elim (env_path e (txt "HOME")) [
      | none ↦ none
      | some h ↦ some (join h (path (txt ".cache")))
    ] in
    unwrap_or
      (or_else (env_path e (txt "LOCALAPPDATA")) (or_else (env_path e (txt "XDG_CACHE_HOME")) home))
      e.temp_dir

-- ResolverPaths::from_config
unfoldable pub from_config : Environment → AssetResolverConfig → ResolverPaths
from_config e config =
    let cache_root =
      unwrap_or (or_else config.cache_root (env_cache_root e))
        (join (default_cache_root e) (path (txt "asset-resolver"))) in
    record {
      source_data_root =
          unwrap_or (or_else config.source_data_root (env_source_data_root e))
            (default_source_data_root e);
      shared_data_root =
          unwrap_or (or_else config.shared_data_root (env_shared_data_root e))
            (join cache_root (path (txt "data")));
      cache_root = cache_root;
      identity = config.identity;
      runtime_mode = config.runtime_mode;
    }
