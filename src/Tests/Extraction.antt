-- ===== src/Tests/Extraction.antt =====
-- The theorems on extraction, applied to an installation that is already opened.
use asset_resolver.Base.{
  ℕ, ◌≡◌, refl, Text, txt, FilePath, normal, root_dir, path, join, parent, file_name, display,
  decimal, same_list, strip_prefix, split_slash, segments, to_ascii_lowercase, Option, none, some,
  List, [], ◌∷◌, ◌++◌, Result,
}
use asset_resolver.Base
use asset_resolver.Base.Assoc.{lookup, insert}
use asset_resolver.RuntimeMode.{
  AssetRuntimeMode, local_casc, extracted_only, effective_runtime_mode, process_runtime_mode,
  guard_casc_access,
}
use asset_resolver.Identity.{new, is_supported_product}
use asset_resolver.World.Fs.{dir, file, put, make_dirs, ancestors}
use asset_resolver.World.Strings.{read_to_string}
use asset_resolver.ListfileCache.Lines.{is_utf8}
use asset_resolver.World.Io.{
  write_all, write_byte, create_file, World, ok, io_steps, fallible, read, read_node, write, rename,
  create_dir_all, set_fs,
}
use asset_resolver.Install.{wow_install_path}
use asset_resolver.Build.{
  selected_wow_product, read_requested_build, read_product_build, select_build_key,
}
use asset_resolver.Build.Hex.{parse_hex_16, data_config_path, hex_pairs, byte_from_hex, hex_digit}
use asset_resolver.CascState.{
  CascState, InitState, LocalAccessState, ensure_initialized, get_state, put_state,
  read_file_by_encoding_key,
}
use asset_resolver.CascCache.{resolve_fdid}
use asset_resolver.Resolver.Extract.{
  ExtractedFile, write_to_path, rename_over, after_rename, next_serial, temporary_path,
  read_fdid_bytes, resolved_content, read_fdid_bytes_by_encoding_key,
}
use asset_resolver.Resolver.States.{
  Statics, get_casc, on_casc, refuse_partial, extract_fdid_to_path_with_paths,
  ensure_file_cached_checked_with_paths, extract_current, read_current_asset_path,
}
use asset_resolver.Paths.{ResolverPaths, scoped_cache_path, remap_to_shared_data_path}
use asset_resolver.Resolver.Api.{ensure_cached_checked, cache_path}
use asset_resolver.Resolver.Shared.{ensure_cached_checked-shared}
use asset_resolver.Resolver.ReadLaws.{IsExtracted, extract_fdid_to_path_with_paths-eq-ok}
use asset_resolver.Tests.{
  retail, build_text, cache_root, install_root, shared_root, paths_of, process_of, world_of,
  cascette, sqlite,
}

abbrev opened : CascState cascette
opened = record {
  identity = some retail;
  install = tt;
  keys = tt;
  cache = 5 ∷ [];
  init = InitState.initialized;
  local_access = LocalAccessState.uninitialized;
}

abbrev config_dir : FilePath
config_dir =
    install_root
    ++ (normal (txt "Data") ∷ normal (txt "config") ∷ normal (txt "01") ∷ normal (txt "23") ∷ [])

abbrev installed : World (Statics cascette sqlite)
installed =
    record (world_of (process_of (some local_casc))
      ((install_root ++ (normal (txt ".build.info") ∷ []), file [] 1)
        ∷ (config_dir ++ (normal build_text ∷ []), file [] 1)
        ∷ (shared_root, dir)
        ∷ [])
      (((cache_root, retail), Base.ok opened) ∷ [])) { install_path = some (some install_root) }

abbrev out_path : FilePath
out_path = shared_root ++ (normal (txt "7.m2") ∷ [])

abbrev extracted : ExtractedFile
extracted = record { path = out_path; missing_keys = [] }

extract_fdid_to_path_with_paths-eq-ok_example :
    (ExtractedFile.path extracted ≡ out_path)
    × (ExtractedFile.missing_keys extracted ≡ [])
    × IsExtracted cascette sqlite
        (λ _. none)
        (paths_of (some retail) local_casc)
        7
        installed
        (extract_fdid_to_path_with_paths cascette sqlite
          (λ _. none)
          (paths_of (some retail) local_casc)
          7
          out_path
          installed).1.fs
        out_path
unfolding extract_fdid_to_path_with_paths get_casc on_casc refuse_partial ensure_initialized
    get_state put_state io_steps effective_runtime_mode process_runtime_mode guard_casc_access
    wow_install_path read_requested_build read_product_build select_build_key parse_hex_16
    data_config_path hex_pairs byte_from_hex hex_digit read read_node fallible new
    is_supported_product read_fdid_bytes resolved_content read_fdid_bytes_by_encoding_key
    read_file_by_encoding_key resolve_fdid write_to_path rename_over after_rename next_serial
    temporary_path write write_all write_byte create_file rename create_dir_all set_fs put make_dirs
    ancestors lookup insert path txt join parent file_name display decimal same_list strip_prefix
    split_slash segments to_ascii_lowercase read_to_string is_utf8
extract_fdid_to_path_with_paths-eq-ok_example =
    extract_fdid_to_path_with_paths-eq-ok cascette sqlite (λ _. none)
      (paths_of (some retail) local_casc) retail 7 shared_root (txt "7.m2") installed extracted refl
      (refl, (refl, (refl, (refl, tt)))) refl

abbrev unscoped : AssetRuntimeMode → ResolverPaths
unscoped = paths_of none

-- Another process, in extracted-only mode, behind the extraction
abbrev elsewhere : World (Statics cascette sqlite)
elsewhere = record installed {
  fs =
      (ensure_cached_checked cascette sqlite (λ _. none) (unscoped local_casc) 7 out_path
        installed).1.fs;
  process = process_of (some extracted_only);
  statics = [];
}

ensure_cached_checked-shared_example :
    ensure_cached_checked cascette sqlite (λ _. none) (unscoped extracted_only) 8 out_path elsewhere
    ≡ (ok out_path, elsewhere)
unfolding extract_fdid_to_path_with_paths get_casc on_casc refuse_partial ensure_initialized
    get_state put_state io_steps effective_runtime_mode process_runtime_mode guard_casc_access
    wow_install_path read_requested_build read_product_build select_build_key parse_hex_16
    data_config_path hex_pairs byte_from_hex hex_digit read read_node fallible new
    is_supported_product read_fdid_bytes resolved_content read_fdid_bytes_by_encoding_key
    read_file_by_encoding_key resolve_fdid write_to_path rename_over after_rename next_serial
    temporary_path write write_all write_byte create_file rename create_dir_all set_fs put make_dirs
    ancestors lookup insert path txt join parent file_name display decimal same_list strip_prefix
    split_slash segments to_ascii_lowercase ensure_cached_checked
    ensure_file_cached_checked_with_paths extract_current read_current_asset_path scoped_cache_path
    remap_to_shared_data_path cache_path selected_wow_product read_to_string is_utf8
ensure_cached_checked-shared_example =
    ensure_cached_checked-shared cascette sqlite (λ _. none) shared_root (txt "7.m2")
      (refl, (refl, (refl, (refl, tt)))) (unscoped local_casc) (unscoped extracted_only) 7 8
      out_path out_path installed elsewhere refl refl refl
