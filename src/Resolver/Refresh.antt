-- ===== src/Resolver/Refresh.antt =====
-- src/casc_resolver.rs: building the resolution cache of the active build.
use asset_resolver.Base.{
  ℕ, Text, txt, FilePath, path, join, display, Option, none, some, Bool, true, false, not, List, [],
  ◌∷◌, ◌++◌, Result, ok_or, if◌then◌else◌, ◌==◌, list_eq, nat_eq,
}
use asset_resolver.Base
use asset_resolver.Paths.{ResolverPaths}
use asset_resolver.World.Io.{
  World, Io, Answer, ◌>>=◌, ◌>>◌, pure, lift, map_err, gets, create_dir_all, write, with_statics,
  ok, err, panicked,
}
use asset_resolver.Install.{wow_install_path}
use asset_resolver.Casc.{Cascette, BuildConfig, EncodingInfo, EncodingEntry}
use asset_resolver.Sqlite.{Sqlite}
use asset_resolver.Build.{ActiveBuild, load_tact_keys}
use asset_resolver.Build.Hex.{parse_hex_16}
use asset_resolver.CascState.{archive_dir, open_local_access, read_local_blte}
use asset_resolver.CascCache.Tables.{build_resolution_cache}
use asset_resolver.CascCache.Publish.{publish_resolution_namespace}

-- A key parsed from its digits, in any world.
abbrev pub parse_key : {T : Type 0} → Text → Io T Text
parse_key value w = (parse_hex_16 value, w)

-- The first entry of the content key that has an encoding key.
unfoldable pub find_encoding : Text → List EncodingEntry → Option Text
find_encoding ck [] = none
find_encoding ck (e ∷ es) =
    let rest = find_encoding ck es in
    if e.content_key == ck then (elim e.encoding_keys [ [] ↦ rest | k ∷ _ ↦ some k ]) else rest

unfoldable pub find_in_pages : Text → List (List EncodingEntry) → Option Text
find_in_pages ck [] = none
find_in_pages ck (p ∷ ps) = elim (find_encoding ck p) [
  | some k ↦ some k
  | none ↦ find_in_pages ck ps
]

module _ (c : Cascette) (q : Sqlite) where
  open c use {Installation, Keys}

  unfoldable pub resolve_content_key_from_encoding : Text → Text → Result Text
  unfolding find_in_pages
  resolve_content_key_from_encoding encoding_data content_key =
      elim (Cascette.parse_encoding c encoding_data) [
        | Base.err e ↦ Base.err (txt "parse encoding.bin: " ++ e)
        | Base.ok pages ↦
            ok_or
              (txt "encoding.bin does not map root content key "
                ++ Cascette.display_key c content_key)
              (find_in_pages content_key pages)
      ]

  unfoldable pub validate_metadata_content : Text → Text → Text → Result (Unit {0})
  validate_metadata_content name content expected =
      let actual = Cascette.content_key_of c content in
      if not (actual == expected)
      then Base.err (
          name
          ++ (txt " metadata content key mismatch: expected "
              ++ (Cascette.display_key c expected
                  ++ (txt ", got "
                      ++ (Cascette.display_key c actual ++ txt "; install may be mid-patch")))))
      else Base.ok tt

  unfoldable pub read_refresh_file_by_local_archive : {T : Type 0} → Keys → Text → Io T Text
  read_refresh_file_by_local_archive keys encoding_key = do
    found ← wow_install_path
    root ← lift (ok_or (txt "WoW install not found for local archive access") found)
    access ← open_local_access c (archive_dir c root)
    blte ← read_local_blte c access encoding_key
    map_err (λ e. txt "decrypt/decompress BLTE container: " ++ e)
        (lift (Cascette.decompress_with_keys c blte keys))

  -- The content that the installation gives, or that of the local archives.
  unfoldable pub content_or_local : {T : Type 0} → Keys → Text → Result Text → Io T Text
  content_or_local keys encoding_key (Base.ok content) = pure content
  content_or_local keys encoding_key (Base.err primary_err) =
      map_err (λ e. primary_err ++ (txt "; key-aware local archive fallback also failed: " ++ e))
        (read_refresh_file_by_local_archive keys encoding_key)

  unfoldable pub read_refresh_file_by_encoding_key :
      {T : Type 0} → Keys → Installation → Text → Io T Text
  read_refresh_file_by_encoding_key keys install encoding_key = do
    fs ← gets (λ w. w.fs)
    content_or_local keys encoding_key (Cascette.read_by_encoding_key c fs install encoding_key)

  unfoldable pub write_metadata : {T : Type 0} → FilePath → Text → Io T (Unit {0})
  write_metadata p content =
      map_err (λ e. txt "write " ++ (display p ++ (txt ": " ++ e))) (write p content)

  unfoldable pub rebuild_resolution_cache :
      {T : Type 0} → Keys → Installation → FilePath → BuildConfig → Io T (Unit {0})
  unfolding write_metadata
  rebuild_resolution_cache keys install casc_dir build_config = do
    map_err (λ e. txt "create CASC cache dir " ++ (display casc_dir ++ (txt ": " ++ e)))
        (create_dir_all casc_dir)
    encoding_info ←
        lift (ok_or (txt "active WoW build config has no encoding entry") build_config.encoding)
    encoding_text ← lift (
        ok_or (txt "active WoW build config encoding entry has no encoding key")
          (EncodingInfo.encoding_key encoding_info))
    encoding_key ← parse_key encoding_text
    encoding_data ←
        map_err
          (λ e.
            txt "read encoding file " ++ (Cascette.display_key c encoding_key ++ (txt ": " ++ e)))
          (read_refresh_file_by_encoding_key keys install encoding_key)
    encoding_content_key ← parse_key (EncodingInfo.content_key encoding_info)
    lift (validate_metadata_content (txt "encoding") encoding_data encoding_content_key)
    write_metadata (join casc_dir (path (txt "encoding.bin"))) encoding_data
    root_text ← lift (ok_or (txt "active WoW build config has no root entry") build_config.root)
    root_content_key ← parse_key root_text
    root_encoding_key ← lift (resolve_content_key_from_encoding encoding_data root_content_key)
    root_data ←
        map_err
          (λ e.
            txt "read root file " ++ (Cascette.display_key c root_encoding_key ++ (txt ": " ++ e)))
          (read_refresh_file_by_encoding_key keys install root_encoding_key)
    lift (validate_metadata_content (txt "root") root_data root_content_key)
    write_metadata (join casc_dir (path (txt "root.bin"))) root_data
    build_resolution_cache c q casc_dir

  -- `install.initialize()`, where the shared installation is the first part of the statics.
  unfoldable pub initialize_shared : {T : Type 0} → Io (Installation × T) (Unit {0})
  initialize_shared w =
      let (result, ready) = Cascette.initialize c w.fs w.statics.0 in
      map_err (λ e. txt "CASC init for cache bootstrap: " ++ e) (lift result)
        (record w { statics = (ready, w.statics.1) })

  -- The builder that `publish_resolution_namespace` calls.
  unfoldable pub bootstrap :
      {T : Type 0}
      → ResolverPaths
      → FilePath
      → ActiveBuild
      → FilePath
      → Io (Installation × T) (Unit {0})
  bootstrap paths install_root active_build staging = do
    initialize_shared
    ready ← gets (λ w. w.statics.0)
    keys ← load_tact_keys c paths install_root active_build
    rebuild_resolution_cache keys ready staging (ActiveBuild.config active_build)

  unfoldable pub unshare :
      {T : Type 0} → Answer (Unit {0}) × World (Installation × T) → Answer Installation × World T
  unshare (ok _, w) = (ok w.statics.0, with_statics w w.statics.1)
  unshare (err e, w) = (err e, with_statics w w.statics.1)
  unshare (panicked, w) = (panicked, with_statics w w.statics.1)

  -- Its answer is the installation as the builder has left it.
  unfoldable pub ensure_resolution_cache :
      {T : Type 0}
      → ResolverPaths
      → FilePath
      → Installation
      → FilePath
      → ActiveBuild
      → Io T Installation
  unfolding bootstrap initialize_shared unshare
  ensure_resolution_cache paths install_root install casc_dir active_build w = unshare (
      publish_resolution_namespace c q casc_dir (bootstrap paths install_root active_build)
        (with_statics w (install, w.statics)))
