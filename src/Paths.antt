-- ===== src/Paths.antt =====
-- src/paths.rs: the configured roots, and where an asset and a resolution cache lie below them.
pub mod Defaults
pub mod Laws
use asset_resolver.Base.{
  ℕ, Text, txt, decimal, FilePath, Component, is_normal, path, join, strip_prefix, path_starts_with,
  display, Option, none, some, Bool, true, false, not, any, List, [], ◌∷◌, ◌++◌, Result, ok, err,
  ◌>>=◌, ok_or, if◌then◌else◌,
}
use asset_resolver.Identity.{AssetIdentity, asset_root, asset_path}
use asset_resolver.RuntimeMode.{AssetRuntimeMode, local_casc}

pub record AssetResolverConfig : Type 0 where
  pub source_data_root : Option FilePath
  pub shared_data_root : Option FilePath
  pub cache_root : Option FilePath
  pub identity : Option AssetIdentity
  pub runtime_mode : AssetRuntimeMode

-- AssetResolverConfig::new, the derived default
abbrev pub new_config : AssetResolverConfig
new_config = record {
  source_data_root = none;
  shared_data_root = none;
  cache_root = none;
  identity = none;
  runtime_mode = local_casc;
}

abbrev pub with_runtime_mode : AssetResolverConfig → AssetRuntimeMode → AssetResolverConfig
with_runtime_mode c mode = record c { runtime_mode = mode }

abbrev pub with_identity : AssetResolverConfig → AssetIdentity → AssetResolverConfig
with_identity c i = record c { identity = some i }

abbrev pub with_data_root : AssetResolverConfig → FilePath → AssetResolverConfig
with_data_root c p = record c { source_data_root = some p }

abbrev pub with_shared_data_root : AssetResolverConfig → FilePath → AssetResolverConfig
with_shared_data_root c p = record c { shared_data_root = some p }

abbrev pub with_cache_root : AssetResolverConfig → FilePath → AssetResolverConfig
with_cache_root c p = record c { cache_root = some p }

pub record ResolverPaths : Type 0 where
  pub source_data_root : FilePath
  pub shared_data_root : FilePath
  pub cache_root : FilePath
  pub identity : Option AssetIdentity
  pub runtime_mode : AssetRuntimeMode

-- RESOLUTION_SCHEMA_VERSION
abbrev pub resolution_schema_version : ℕ
resolution_schema_version = 2

unfoldable pub shared_data_path : ResolverPaths → FilePath → FilePath
shared_data_path paths relative = join paths.shared_data_root relative

-- `exists` is the file system's answer.
unfoldable pub resolve_data_path : (FilePath → Bool) → ResolverPaths → FilePath → FilePath
resolve_data_path exists paths relative =
    let source_path = join paths.source_data_root relative in
    if exists source_path then source_path else shared_data_path paths relative

schema_dir : Text
schema_dir = txt "schema-" ++ decimal resolution_schema_version

unfoldable pub casc_cache_path : ResolverPaths → Text → Text → FilePath
unfolding schema_dir
casc_cache_path paths product build_key =
    join (join (join (join paths.cache_root (path (txt "casc"))) (path product)) (path build_key))
      (path schema_dir)

identity_text : Option AssetIdentity → Text
identity_text none = []
identity_text (some i) = txt " product " ++ (i.product ++ (txt " build " ++ i.build_key))

unfoldable pub missing_extracted_asset : ResolverPaths → ℕ → FilePath → Text
unfolding identity_text
missing_extracted_asset paths fdid expected =
    txt "missing extracted-only asset FDID "
    ++ (decimal fdid ++ (identity_text paths.identity ++ (txt " at " ++ display expected)))

abbrev or_strip : Option FilePath → FilePath → FilePath → Option FilePath
or_strip none p base = strip_prefix p base
or_strip (some r) p base = some r

unfoldable pub relative_data_path : ResolverPaths → FilePath → Result FilePath
relative_data_path paths p =
    ok_or (txt "asset path " ++ (display p ++ txt " is outside configured data roots")) (
      or_strip (or_strip (strip_prefix p paths.source_data_root) p paths.shared_data_root) p
        (path (txt "data")))

unfoldable pub remap_to_shared_data_path : ResolverPaths → FilePath → FilePath
remap_to_shared_data_path paths p = elim (strip_prefix p paths.source_data_root) [
  | some stripped ↦ shared_data_path paths stripped
  | none ↦ elim (strip_prefix p (path (txt "data"))) [
    | some stripped ↦ shared_data_path paths stripped
    | none ↦ p
  ]
]

-- The body of `scoped_cache_path` behind the two early returns.
scope_relative : ResolverPaths → AssetIdentity → FilePath → FilePath → Result FilePath
scope_relative paths i p relative =
    if any (λ part. not (is_normal part)) relative
    then err (txt "invalid relative asset path " ++ display relative)
    else if path_starts_with relative (path (txt "products"))
    then (do
      asset ←
          ok_or
            (txt "asset path "
              ++ (display p
                  ++ (txt " does not belong to " ++ (i.product ++ (txt " build " ++ i.build_key)))))
            (strip_prefix relative (asset_root i []))
      ok (asset_path i paths.shared_data_root asset))
    else ok (asset_path i paths.shared_data_root relative)

unfoldable pub scoped_cache_path : ResolverPaths → FilePath → Result FilePath
unfolding scope_relative
scoped_cache_path paths p = elim paths.identity [
  | none ↦ ok (remap_to_shared_data_path paths p)
  | some i ↦ do relative ← relative_data_path paths p; scope_relative paths i p relative
]
