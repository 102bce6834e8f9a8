-- ===== src/Tests/Cache.antt =====
-- The theorems on the resolver and its caches, applied.
use asset_resolver.Base.{
  ℕ, ◌≡◌, refl, ap, inl, arith, Text, txt, FilePath, normal, root_dir, path, join, same_list,
  parent, length, strip_prefix, if◌then◌else◌, ◌==◌, list_eq, nat_eq, Option, none, some, true,
  List, [], ◌∷◌, ◌++◌,
}
use asset_resolver.Base.Assoc.{lookup}
use asset_resolver.RuntimeMode.{local_casc, extracted_only, EnvVar, value, not_present}
use asset_resolver.Paths.{ResolverPaths, scoped_cache_path}
use asset_resolver.World.Fs.{dir, file, moved, removed}
use asset_resolver.World.Io.{
  World, io_steps, fallible, mtime, mtime_of, remove_dir_all, rename, set_fs,
}
use asset_resolver.Install.{is_valid_wow_install, discover_wow_install_path}
use asset_resolver.Install.Laws.{discover_wow_install_path-valid}
use asset_resolver.Casc.{RootBlock, EncodingEntry}
use asset_resolver.CascCache.{
  resolution_cache_is_fresh, file_mtimes, fresh_at_times, cache_is_fresh, file_mtime, fresh_node,
  metadata_is_fresh,
}
use asset_resolver.CascCache.Maps.{
  collect_fdid_to_content_keys, collect_content_to_encoding_keys, resolution_rows,
}
use asset_resolver.CascCache.MapLaws.{
  resolution_rows-lookup, row_of, keyed, last_record, client_records, last_encoding, all_entries,
}
use asset_resolver.CascCache.Fresh.{IsFresh, resolution_cache_is_fresh-eq-true}
use asset_resolver.CascCache.Publish.{publish_complete_namespace}
use asset_resolver.CascCache.PublishLaws.{publish_complete_namespace-IsFresh}
use asset_resolver.CascState.{CascState, InitState, LocalAccessState, ensure_initialized}
use asset_resolver.CascState.Laws.{ensure_initialized_again}
use asset_resolver.Resolver.Extract.{write_to_path}
use asset_resolver.Resolver.WriteLaws.{Replaces, write_to_path-Replaces}
use asset_resolver.Resolver.States.{Statics}
use asset_resolver.Resolver.Api.{ensure_cached_checked}
use asset_resolver.Resolver.Modes.{answer_cached, ensure_cached_checked-extracted_only}
use asset_resolver.Tests.{
  retail, shared_root, install_root, paths_of, model, process_of, fs_of, world_of, cascette, sqlite,
}

abbrev no_listfile : ℕ → Option Text
no_listfile _ = none

abbrev locked : World (Statics cascette sqlite)
locked = world_of (process_of (some extracted_only)) ((model, file (1 ∷ []) 8) ∷ []) []

abbrev plain : ResolverPaths
plain = paths_of none local_casc

abbrev scoped : ResolverPaths
scoped = paths_of (some retail) extracted_only

ensure_cached_checked-extracted_only_example :
    ensure_cached_checked cascette sqlite no_listfile scoped 7 model locked
    ≡ (answer_cached scoped 7 locked (scoped_cache_path scoped model), locked)
ensure_cached_checked-extracted_only_example =
    ensure_cached_checked-extracted_only cascette sqlite no_listfile scoped 7 model locked
      (inl refl)

write_to_path-Replaces_example :
    Replaces
      (shared_root ++ (normal (txt "7.m2") ∷ []))
      (file (1 ∷ 2 ∷ []) 9)
      locked
      (write_to_path (shared_root ++ (normal (txt "7.m2") ∷ [])) (1 ∷ 2 ∷ []) locked)
unfolding txt
write_to_path-Replaces_example =
    write_to_path-Replaces shared_root (txt "7.m2") (1 ∷ 2 ∷ []) locked
      (refl, (refl, (refl, (refl, tt))))

abbrev opened : CascState cascette
opened = record {
  identity = some retail;
  install = tt;
  keys = tt;
  cache = 5 ∷ [];
  init = InitState.uninitialized;
  local_access = LocalAccessState.uninitialized;
}

abbrev in_state : World (CascState cascette × Unit {0})
in_state = world_of (process_of (some local_casc)) [] (opened, tt)

ensure_initialized_again_example :
    let (answer, w') = ensure_initialized cascette in_state in
    ensure_initialized cascette w' ≡ (answer, w')
ensure_initialized_again_example = ensure_initialized_again cascette in_state

abbrev blocks : List RootBlock
blocks =
    record {
      has_client_locale = true;
      records = record { file_data_id = 7; content_key = 1 ∷ [] } ∷ [];
    }
    ∷ []

abbrev pages : List (List EncodingEntry)
pages = (record { content_key = 1 ∷ []; encoding_keys = (2 ∷ []) ∷ [] } ∷ []) ∷ []

resolution_rows-lookup_example :
    row_of 7 (
      resolution_rows
        (collect_fdid_to_content_keys blocks)
        (collect_content_to_encoding_keys pages))
    ≡ keyed
        (last_record 7 (client_records blocks) none)
        (λ ck. last_encoding ck (all_entries pages) none)
resolution_rows-lookup_example = resolution_rows-lookup 7 blocks pages

abbrev builds : FilePath
builds = root_dir ∷ normal (txt "cache") ∷ []

abbrev staging_name : Text
staging_name = txt ".build.partial"

abbrev build_name : Text
build_name = txt "build"

abbrev staging : FilePath
staging = builds ++ (normal staging_name ∷ [])

-- A complete namespace in a staging directory, and an incomplete one in its place.
abbrev staged : World (Unit {0})
staged =
    world_of (process_of (some local_casc))
      ((builds, dir)
        ∷ (staging, dir)
        ∷ (staging ++ (normal (txt "root.bin") ∷ []), file [] 5)
        ∷ (staging ++ (normal (txt "encoding.bin") ∷ []), file [] 6)
        ∷ (staging ++ (normal (txt "resolution.sqlite") ∷ []), file (5 ∷ []) 7)
        ∷ (builds ++ (normal build_name ∷ []), dir)
        ∷ [])
      tt

resolution_cache_is_fresh-eq-true_example : IsFresh cascette sqlite staged.fs staging
unfolding resolution_cache_is_fresh file_mtimes fresh_at_times cache_is_fresh file_mtime fresh_node
    metadata_is_fresh mtime mtime_of fallible io_steps path txt join lookup same_list
resolution_cache_is_fresh-eq-true_example =
    resolution_cache_is_fresh-eq-true cascette sqlite staging staged refl

publish_complete_namespace-IsFresh_example :
    IsFresh cascette sqlite staged.fs staging
    × IsFresh cascette sqlite
        (publish_complete_namespace cascette sqlite staging
          (builds ++ (normal build_name ∷ []))
          staged).1.fs
        (builds ++ (normal build_name ∷ []))
unfolding publish_complete_namespace resolution_cache_is_fresh file_mtimes fresh_at_times
    cache_is_fresh file_mtime fresh_node metadata_is_fresh mtime mtime_of fallible io_steps
    remove_dir_all rename set_fs removed moved parent strip_prefix path txt join lookup same_list
publish_complete_namespace-IsFresh_example =
    publish_complete_namespace-IsFresh cascette sqlite builds build_name staging_name staged
      (λ same. omega (arith, ap length same)) refl refl

abbrev data_dir : FilePath
data_dir = install_root ++ (normal (txt "Data") ∷ normal (txt "data") ∷ [])

abbrev environment : Text → EnvVar
environment name = if name == txt "WOW_INSTALL_PATH" then value (txt "/wow") else not_present

discover_wow_install_path-valid_example :
    fs_of ((data_dir, dir) ∷ []) (install_root ++ (normal (txt "Data") ∷ normal (txt "data") ∷ []))
    ≡ dir
unfolding discover_wow_install_path is_valid_wow_install path txt join lookup same_list
discover_wow_install_path-valid_example =
    discover_wow_install_path-valid (fs_of ((data_dir, dir) ∷ [])) environment install_root refl
