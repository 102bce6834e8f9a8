-- ===== src/Build/Laws.antt =====
-- The selection of a build reads the disk and changes nothing.
use asset_resolver.Base.{
  ℕ, Text, txt, FilePath, display, decimal, Option, none, some, Result, ◌++◌, ltb, if◌then◌else◌,
}
use asset_resolver.Base
use asset_resolver.Paths.{ResolverPaths}
use asset_resolver.World.Strings.{read_to_string-IsReader}
use asset_resolver.World.Laws.{
  IsReader, reader_rules, bind-IsReader, then-IsReader, if-IsReader, pure-IsReader,
  eprintln-IsReader, attempt-IsReader, gets-IsReader,
}
use asset_resolver.Casc.{Cascette}
use asset_resolver.Build.{
  read_build_info, read_product_build, read_requested_build, read_keyring_keys, keyring_keys_at,
  ActiveBuild, external_keys, load_external, load_tact_keys,
}

module _ (c : Cascette) where
  read_build_info-IsReader : {T : Type 0} (p : FilePath) → IsReader (read_build_info c {T = T} p)
  unfolding read_build_info
  read_build_info-IsReader p = search (reader_rules, read_to_string-IsReader)

  pub read_product_build-IsReader :
      {T : Type 0} (install_root : FilePath) (product : Text)
      → IsReader (read_product_build c {T = T} install_root product)
  unfolding read_product_build
  read_product_build-IsReader install_root product =
      search (reader_rules, read_build_info-IsReader) depth 14

  -- Reading the build of the requested product changes at most the log and the faults still to come.
  pub read_requested_build-IsReader :
      {T : Type 0} (paths : ResolverPaths) (install_root : FilePath)
      → IsReader (read_requested_build c {T = T} paths install_root)
  unfolding read_requested_build
  read_requested_build-IsReader paths install_root = record {
    at = λ w. (read_product_build-IsReader install_root _).at w;
  }

  keyring_keys_at-IsReader :
      {T : Type 0} (install_root : FilePath) (key : Option Text)
      → IsReader (keyring_keys_at c {T = T} install_root key)
  unfolding keyring_keys_at
  keyring_keys_at-IsReader install_root none = search reader_rules
  keyring_keys_at-IsReader install_root (some key) = search reader_rules depth 10

  read_keyring_keys-IsReader :
      {T : Type 0} (install_root : FilePath) (product build_key : Text)
      → IsReader (read_keyring_keys c {T = T} install_root product build_key)
  unfolding read_keyring_keys
  read_keyring_keys-IsReader install_root product build_key =
      search (reader_rules, read_build_info-IsReader, keyring_keys_at-IsReader) depth 10

  external_keys-IsReader :
      {T : Type 0} (key_path : FilePath) (content : Result Text)
      → IsReader (external_keys c {T = T} key_path content)
  unfolding external_keys
  external_keys-IsReader key_path (Base.err e) = search reader_rules
  external_keys-IsReader key_path (Base.ok text) = search (reader_rules, if-IsReader)

  load_external-IsReader :
      {T : Type 0} (key_path : FilePath) → IsReader (load_external c {T = T} key_path)
  unfolding load_external
  load_external-IsReader key_path =
      bind-IsReader (attempt-IsReader (read_to_string-IsReader key_path))
        (external_keys-IsReader key_path)

  pub load_tact_keys-IsReader :
      {T : Type 0} (paths : ResolverPaths) (install_root : FilePath) (active : ActiveBuild)
      → IsReader (load_tact_keys c {T = T} paths install_root active)
  unfolding load_tact_keys load_external
  load_tact_keys-IsReader paths install_root active = bind-IsReader (gets-IsReader _) (λ key_path.
      bind-IsReader (load_external-IsReader key_path) (λ keys.
        bind-IsReader (read_keyring_keys-IsReader install_root _ _) (λ more.
          then-IsReader (if-IsReader _ (pure-IsReader tt) (eprintln-IsReader _))
            (pure-IsReader _))))
