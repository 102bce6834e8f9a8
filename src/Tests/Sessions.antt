-- ===== src/Tests/Sessions.antt =====
-- The theorems on the requests of a process, applied to an installation that its first request opens.
use asset_resolver.Base.{
  ℕ, ◌≡◌, refl, Text, txt, FilePath, normal, root_dir, path, join, parent, file_name, display,
  decimal, same_list, strip_prefix, split_slash, segments, to_ascii_lowercase, Option, none, some,
  List, [], ◌∷◌, ◌++◌, Result, decimal_from, ◌==◌, list_eq, nat_eq, if◌then◌else◌,
}
use asset_resolver.Base.Assoc.{lookup, insert}
use asset_resolver.RuntimeMode.{
  local_casc, effective_runtime_mode, process_runtime_mode, guard_casc_access,
}
use asset_resolver.Identity.{new, is_supported_product}
use asset_resolver.World.Fs.{dir, file, put, make_dirs, ancestors, moved, removed}
use asset_resolver.World.Strings.{read_to_string}
use asset_resolver.ListfileCache.Lines.{is_utf8}
use asset_resolver.World.Io.{
  write_all, write_byte, create_file, World, io_steps, fallible, read, read_node, write, rename,
  create_dir_all, set_fs, throw, ◌>>◌, mtime, mtime_of, remove_dir_all, create_dir, err,
}
use asset_resolver.Install.{wow_install_path}
use asset_resolver.Build.{
  selected_wow_product, read_requested_build, read_product_build, select_build_key, load_tact_keys,
  read_keyring_keys, keyring_keys_at, read_build_info,
}
use asset_resolver.Build.Hex.{parse_hex_16, data_config_path, hex_pairs, byte_from_hex, hex_digit}
use asset_resolver.Identity.{asset_path, asset_root}
use asset_resolver.Paths.{relative_data_path}
use asset_resolver.CascState.{
  ensure_local_access, open_local_access, CascState, InitState, LocalAccessState,
  ensure_initialized, get_state, put_state, read_file_by_encoding_key,
}
use asset_resolver.CascCache.{
  resolve_fdid, resolution_cache_is_fresh, file_mtimes, fresh_at_times, cache_is_fresh, file_mtime,
  fresh_node, metadata_is_fresh, open_cache,
}
use asset_resolver.Resolver.Extract.{
  write_to_path, rename_over, after_rename, next_serial, temporary_path, read_fdid_bytes,
  resolved_content, read_fdid_bytes_by_encoding_key,
}
use asset_resolver.Resolver.States.{
  Statics, get_casc, on_casc, refuse_partial, extract_fdid_to_path_with_paths,
  ensure_file_cached_checked_with_paths, extract_current, read_current_asset_path, namespace_eq,
  init_casc, init_state, get_cell, remember_state, run_method, back, initialize_with_paths,
  warm_local_access,
}
use asset_resolver.Paths.{
  ResolverPaths, scoped_cache_path, remap_to_shared_data_path, resolve_data_path, shared_data_path,
  casc_cache_path,
}
use asset_resolver.Resolver.Api.{ensure_cached_checked, cache_path, initialize, resolve_bytes}
use asset_resolver.Resolver.Sessions.{
  Session, starts, initializes, checks, meanwhile, Session-IsFiled,
}
use asset_resolver.Resolver.Listless.{Session-listfile}
use asset_resolver.Tests.{
  retail, build_text, cache_root, install_root, shared_root, paths_of, process_of, world_of,
  cascette, sqlite,
}
use asset_resolver.Casc.{Cascette}
use asset_resolver.CascCache.Publish.{
  publish_resolution_namespace, acquire_namespace_lock, parent_of, name_of, open_lock,
  create_namespace_staging, publish_complete_namespace, clean_staging,
}
use asset_resolver.CascCache.Lock.{child}
use asset_resolver.CascCache.Maps.{
  add_blocks, collect_fdid_to_content_keys, collect_content_to_encoding_keys, resolution_rows,
}
use asset_resolver.CascCache.Tables.{
  build_resolution_cache, build_resolution_maps, read_cache_file, open_resolution_cache, open_node,
  init_resolution_schema, insert_resolution_rows, insert_rows, insert_resolution_metadata,
  commit_resolution_cache, log_resolution_cache_build, statement, after_statement,
}
use asset_resolver.Resolver.Refresh.{
  ensure_resolution_cache, bootstrap, initialize_shared, unshare, rebuild_resolution_cache,
  write_metadata, read_refresh_file_by_encoding_key, content_or_local,
  resolve_content_key_from_encoding, find_encoding, find_in_pages, validate_metadata_content,
}
use asset_resolver.Base

abbrev online : Cascette
online = record cascette { initialize = λ _ install. (Base.ok tt, install) }

abbrev paths : ResolverPaths
paths = paths_of (some retail) local_casc

abbrev config_dir : FilePath
config_dir =
    install_root
    ++ (normal (txt "Data") ∷ normal (txt "config") ∷ normal (txt "01") ∷ normal (txt "23") ∷ [])

abbrev casc_dir : FilePath
casc_dir = casc_cache_path paths (txt "wow") build_text

-- An installation whose resolution cache is there, and no state is open yet
abbrev unopened : World (Statics online sqlite)
unopened =
    record (world_of (process_of (some local_casc))
      ((install_root ++ (normal (txt ".build.info") ∷ []), file [] 1)
        ∷ (install_root ++ (normal (txt "Data") ∷ []), dir)
        ∷ (config_dir ++ (normal build_text ∷ []), file [] 1)
        ∷ (casc_dir, dir)
        ∷ (child casc_dir (txt "root.bin"), file [] 5)
        ∷ (child casc_dir (txt "encoding.bin"), file [] 6)
        ∷ (child casc_dir (txt "resolution.sqlite"), file (5 ∷ []) 7)
        ∷ (shared_root, dir)
        ∷ [])
      []) { install_path = some (some install_root) }

abbrev out_path : FilePath
out_path = shared_root ++ (normal (txt "7.m2") ∷ [])

-- The process initializes the resolver, the log is emptied, and an FDID is extracted.
abbrev initialized : World (Statics online sqlite)
initialized = record (initialize online sqlite paths unopened).1 { log = [] }

abbrev used : World (Statics online sqlite)
used = (ensure_cached_checked online sqlite (λ _. none) paths 7 out_path initialized).1

session : Session online sqlite used
session = checks (λ _. none) paths 7 out_path (meanwhile refl (initializes paths (starts refl)))

abbrev filed : CascState online
filed = record {
  identity = some retail;
  install = tt;
  keys = tt;
  cache = 5 ∷ [];
  init = InitState.initialized;
  local_access = LocalAccessState.initialized (record { indices = tt; archives = tt });
}

Session-IsFiled_example : CascState.identity filed ≡ some retail
unfolding txt path join parent file_name display decimal same_list strip_prefix split_slash segments
    to_ascii_lowercase decimal_from lookup insert effective_runtime_mode process_runtime_mode
    guard_casc_access new is_supported_product put make_dirs ancestors moved removed write_all
    write_byte create_file io_steps fallible read read_node write rename create_dir_all set_fs throw
    ◌>>◌ mtime mtime_of remove_dir_all create_dir wow_install_path selected_wow_product
    read_requested_build read_product_build select_build_key load_tact_keys read_keyring_keys
    keyring_keys_at read_build_info parse_hex_16 data_config_path hex_pairs byte_from_hex hex_digit
    asset_path asset_root relative_data_path ensure_local_access open_local_access
    ensure_initialized get_state put_state read_file_by_encoding_key resolve_fdid
    resolution_cache_is_fresh file_mtimes fresh_at_times cache_is_fresh file_mtime fresh_node
    metadata_is_fresh open_cache write_to_path rename_over after_rename next_serial temporary_path
    read_fdid_bytes resolved_content read_fdid_bytes_by_encoding_key get_casc on_casc refuse_partial
    extract_fdid_to_path_with_paths ensure_file_cached_checked_with_paths extract_current
    read_current_asset_path init_casc init_state get_cell remember_state run_method back
    initialize_with_paths warm_local_access scoped_cache_path remap_to_shared_data_path
    resolve_data_path shared_data_path casc_cache_path ensure_cached_checked cache_path initialize
    resolve_bytes publish_resolution_namespace acquire_namespace_lock parent_of name_of open_lock
    create_namespace_staging publish_complete_namespace clean_staging add_blocks
    collect_fdid_to_content_keys collect_content_to_encoding_keys resolution_rows
    build_resolution_cache build_resolution_maps read_cache_file open_resolution_cache open_node
    init_resolution_schema insert_resolution_rows insert_rows insert_resolution_metadata
    commit_resolution_cache log_resolution_cache_build statement after_statement
    ensure_resolution_cache bootstrap initialize_shared unshare rebuild_resolution_cache
    write_metadata read_refresh_file_by_encoding_key content_or_local
    resolve_content_key_from_encoding find_encoding find_in_pages validate_metadata_content
    read_to_string is_utf8
Session-IsFiled_example = Session-IsFiled online sqlite used session (cache_root, retail) filed refl

-- A listfile that knows every FDID
abbrev known : ℕ → Option Text
known fdid = some (txt "world/a.m2")

-- The state has no row for this FDID, and knows its build.
absent_8 :
    (on_casc online sqlite (cache_root, retail) (read_fdid_bytes online known sqlite 8) used).0
    ≡ err (txt "FDID 8 absent from wow build 0123456789abcdef0123456789abcdef")
unfolding txt path join parent file_name display decimal same_list strip_prefix split_slash segments
    to_ascii_lowercase decimal_from lookup insert effective_runtime_mode process_runtime_mode
    guard_casc_access new is_supported_product put make_dirs ancestors moved removed write_all
    write_byte create_file io_steps fallible read read_node write rename create_dir_all set_fs throw
    ◌>>◌ mtime mtime_of remove_dir_all create_dir wow_install_path selected_wow_product
    read_requested_build read_product_build select_build_key load_tact_keys read_keyring_keys
    keyring_keys_at read_build_info parse_hex_16 data_config_path hex_pairs byte_from_hex hex_digit
    asset_path asset_root relative_data_path ensure_local_access open_local_access
    ensure_initialized get_state put_state read_file_by_encoding_key resolve_fdid
    resolution_cache_is_fresh file_mtimes fresh_at_times cache_is_fresh file_mtime fresh_node
    metadata_is_fresh open_cache write_to_path rename_over after_rename next_serial temporary_path
    read_fdid_bytes resolved_content read_fdid_bytes_by_encoding_key get_casc on_casc refuse_partial
    extract_fdid_to_path_with_paths ensure_file_cached_checked_with_paths extract_current
    read_current_asset_path init_casc init_state get_cell remember_state run_method back
    initialize_with_paths warm_local_access scoped_cache_path remap_to_shared_data_path
    resolve_data_path shared_data_path casc_cache_path ensure_cached_checked cache_path initialize
    resolve_bytes publish_resolution_namespace acquire_namespace_lock parent_of name_of open_lock
    create_namespace_staging publish_complete_namespace clean_staging add_blocks
    collect_fdid_to_content_keys collect_content_to_encoding_keys resolution_rows
    build_resolution_cache build_resolution_maps read_cache_file open_resolution_cache open_node
    init_resolution_schema insert_resolution_rows insert_rows insert_resolution_metadata
    commit_resolution_cache log_resolution_cache_build statement after_statement
    ensure_resolution_cache bootstrap initialize_shared unshare rebuild_resolution_cache
    write_metadata read_refresh_file_by_encoding_key content_or_local
    resolve_content_key_from_encoding find_encoding find_in_pages validate_metadata_content
    read_to_string is_utf8
absent_8 = refl

Session-listfile_example :
    (ensure_cached_checked online sqlite
        (λ _. none)
        paths
        8
        (shared_root ++ (normal (txt "8.m2") ∷ []))
        used
      ≡ ensure_cached_checked online sqlite known paths 8
          (shared_root ++ (normal (txt "8.m2") ∷ []))
          used)
    × (resolve_bytes online sqlite (λ _. none) paths 8 used
        ≡ resolve_bytes online sqlite known paths 8 used)
Session-listfile_example =
    Session-listfile online sqlite (λ _. none) known used paths 8
      (shared_root ++ (normal (txt "8.m2") ∷ [])) session
