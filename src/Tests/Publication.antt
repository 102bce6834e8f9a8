-- ===== src/Tests/Publication.antt =====
-- The theorems on the publication of a namespace, applied.
use asset_resolver.Base.{
  refl, Text, txt, FilePath, normal, path, join, parent, file_name, strip_prefix, same_list,
  decimal, decimal_from, display, to_ascii_lowercase, split_slash, segments, some, [], ◌∷◌, ◌++◌,
  ◌==◌, list_eq, nat_eq, if◌then◌else◌, ok,
}
use asset_resolver.Base.Assoc.{lookup, insert}
use asset_resolver.RuntimeMode.{local_casc}
use asset_resolver.World.Fs.{dir, file, put, make_dirs, ancestors, moved, removed}
use asset_resolver.World.Strings.{read_to_string}
use asset_resolver.ListfileCache.Lines.{is_utf8}
use asset_resolver.World.Io.{
  write_all, write_byte, create_file, World, Io, io_steps, fallible, mtime, mtime_of,
  remove_dir_all, set_fs, read, read_node, write, create_dir, create_dir_all, rename,
}
use asset_resolver.Casc.{Cascette}
use asset_resolver.Sqlite.{Sqlite, stored, no_row}
use asset_resolver.CascCache.{
  resolution_cache_is_fresh, file_mtimes, fresh_at_times, cache_is_fresh, file_mtime, fresh_node,
  metadata_is_fresh,
}
use asset_resolver.CascCache.Fresh.{IsFresh, resolution_cache_is_fresh-eq-true}
use asset_resolver.CascCache.Publish.{
  publish_resolution_namespace, acquire_namespace_lock, parent_of, name_of, open_lock,
  create_namespace_staging, publish_complete_namespace, clean_staging,
}
use asset_resolver.CascCache.Lock.{child, Unchanged}
use asset_resolver.CascCache.Turns.{publishes, passes, Turns, here, next, Turns-Unchanged}
use asset_resolver.Tests.{
  process_of, world_of, cascette, sqlite, cache_root, install_root, paths_of, retail, build_text,
  classic_text,
}
use asset_resolver.Build.{
  ActiveBuild, load_tact_keys, read_keyring_keys, keyring_keys_at, read_build_info,
}
use asset_resolver.Build.Hex.{parse_hex_16, hex_pairs, byte_from_hex, hex_digit}
use asset_resolver.Paths.{resolve_data_path, shared_data_path}
use asset_resolver.CascCache.Maps.{
  add_blocks, collect_fdid_to_content_keys, collect_content_to_encoding_keys, resolution_rows,
}
use asset_resolver.CascCache.Tables.{
  build_resolution_cache, build_resolution_maps, read_cache_file, open_resolution_cache, open_node,
  init_resolution_schema, insert_resolution_rows, insert_rows, insert_resolution_metadata,
  commit_resolution_cache, log_resolution_cache_build, statement, after_statement,
}
use asset_resolver.Resolver.Refresh.{
  ensure_resolution_cache, bootstrap, initialize_shared, unshare, rebuild_resolution_cache,
  write_metadata, read_refresh_file_by_encoding_key, content_or_local,
  resolve_content_key_from_encoding, find_encoding, find_in_pages, validate_metadata_content,
}
use asset_resolver.Resolver.Bootstrap.{ensure_resolution_cache-IsFresh}

abbrev build : FilePath
build = child cache_root (txt "build")

-- A complete namespace
abbrev complete : World (Unit {0})
complete =
    world_of (process_of (some local_casc))
      ((cache_root, dir)
        ∷ (build, dir)
        ∷ (child build (txt "root.bin"), file [] 5)
        ∷ (child build (txt "encoding.bin"), file [] 6)
        ∷ (child build (txt "resolution.sqlite"), file (5 ∷ []) 7)
        ∷ [])
      tt

complete-IsFresh : IsFresh cascette sqlite complete.fs build
unfolding resolution_cache_is_fresh file_mtimes fresh_at_times cache_is_fresh file_mtime fresh_node
    metadata_is_fresh mtime mtime_of fallible io_steps path txt join lookup same_list
complete-IsFresh = resolution_cache_is_fresh-eq-true cascette sqlite build complete refl

-- A builder that would remove the namespace
vandal : FilePath → Io (Unit {0}) (Unit {0})
vandal staging = remove_dir_all build

-- The world after the vandal's turn, and another process in it
abbrev second : World (Unit {0})
second = (publish_resolution_namespace cascette sqlite build vandal complete).1

abbrev third : World (Unit {0})
third = record second { process_id = 43; now = 10; faults = [] }

turns :
    Turns cascette sqlite build complete
      (publish_resolution_namespace cascette sqlite build vandal third).1
turns =
    next (next (next here (publishes vandal complete)) (passes refl refl)) (publishes vandal third)

Turns-Unchanged_example :
    let last = (publish_resolution_namespace cascette sqlite build vandal third).1 in
    Unchanged complete.fs build last.fs × IsFresh cascette sqlite last.fs build
unfolding txt
Turns-Unchanged_example =
    Turns-Unchanged cascette sqlite cache_root (txt "build")
      (refl, (refl, (refl, (refl, (refl, tt))))) complete
      (publish_resolution_namespace cascette sqlite build vandal third).1 refl complete-IsFresh
      turns

-- The bytes of `classic_text`
abbrev root_key : Text
root_key =
    0xfe ∷ 0xdc ∷ 0xba ∷ 0x98 ∷ 0x76 ∷ 0x54 ∷ 0x32 ∷ 0x10 ∷ 0x01 ∷ 0x23 ∷ 0x45 ∷ 0x67 ∷ 0x89 ∷ 0xab
    ∷ 0xcd ∷ 0xef ∷ []

-- An installation that reads each file as its key, where the encoding table knows of the root file.
abbrev bootable : Cascette
bootable = record cascette {
  initialize = λ _ install. (ok tt, install);
  parse_encoding =
      λ _. ok ((record { content_key = root_key; encoding_keys = root_key ∷ [] } ∷ []) ∷ []);
}

-- A database that records the clock of the test when it is committed.
abbrev recording : Sqlite
recording = record sqlite {
  commit = λ conn. ok (5 ∷ []);
  read_metadata = λ content. if content == 5 ∷ [] then stored 9 9 2 else no_row;
}

abbrev active : ActiveBuild
active = record {
  product = txt "wow";
  build_key = build_text;
  config = record {
    root = some classic_text;
    encoding = some (record { content_key = build_text; encoding_key = some build_text });
  };
}

abbrev bare : World (Unit {0})
bare =
    record (world_of (process_of (some local_casc))
      ((install_root ++ (normal (txt ".build.info") ∷ []), file [] 1) ∷ (build, dir) ∷ []) tt) {
        install_path = some (some install_root);
      }

ensure_resolution_cache-IsFresh_example :
    IsFresh bootable recording
      (ensure_resolution_cache bootable recording
        (paths_of (some retail) local_casc)
        install_root
        tt
        build
        active
        bare).1.fs
      build
unfolding txt ensure_resolution_cache publish_resolution_namespace bootstrap initialize_shared
    unshare rebuild_resolution_cache write_metadata read_refresh_file_by_encoding_key
    content_or_local resolve_content_key_from_encoding find_encoding find_in_pages
    validate_metadata_content build_resolution_cache build_resolution_maps read_cache_file
    open_resolution_cache open_node init_resolution_schema insert_resolution_rows insert_rows
    insert_resolution_metadata commit_resolution_cache log_resolution_cache_build statement
    after_statement acquire_namespace_lock parent_of name_of open_lock create_namespace_staging
    publish_complete_namespace clean_staging resolution_cache_is_fresh file_mtimes fresh_at_times
    cache_is_fresh file_mtime fresh_node metadata_is_fresh load_tact_keys read_keyring_keys
    keyring_keys_at read_build_info parse_hex_16 hex_pairs byte_from_hex hex_digit
    collect_fdid_to_content_keys collect_content_to_encoding_keys resolution_rows insert fallible
    io_steps read read_node write create_dir create_dir_all remove_dir_all rename mtime mtime_of
    set_fs put make_dirs ancestors moved removed path join parent file_name strip_prefix display
    decimal decimal_from same_list lookup to_ascii_lowercase split_slash segments resolve_data_path
    shared_data_path add_blocks read_to_string is_utf8 create_file write_all write_byte
ensure_resolution_cache-IsFresh_example =
    ensure_resolution_cache-IsFresh bootable recording (paths_of (some retail) local_casc)
      install_root tt tt cache_root (txt "build") active bare
      (refl, (refl, (refl, (refl, (refl, tt))))) refl
