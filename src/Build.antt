-- ===== src/Build.antt =====
-- src/casc_resolver.rs: the installed build that a product selects, its keys and its keyring.
pub mod Hex
pub mod Laws
pub mod Active
pub mod Selection
pub mod HexLaws
use asset_resolver.Base.{
  ℕ, ◌+◌, Text, txt, decimal, FilePath, path, join, display, Option, none, some, Bool, true, false,
  ◌&&◌, ◌||◌, not, List, [], ◌∷◌, ◌++◌, find, keep, length, leb, ltb, ok_or, Result, if◌then◌else◌,
  ◌==◌, option_eq, list_eq, nat_eq,
}
use asset_resolver.Base
use asset_resolver.RuntimeMode.{EnvVar, value, not_present, not_unicode}
use asset_resolver.Identity.{AssetIdentity}
use asset_resolver.Paths.{ResolverPaths, resolve_data_path}
use asset_resolver.World.Fs.{node_exists}
use asset_resolver.World.Strings.{read_to_string}
use asset_resolver.World.Io.{
  World, Io, ◌>>=◌, ◌>>◌, pure, throw, lift, attempt, map_err, gets, eprintln, read, ok, err,
  panicked,
}
use asset_resolver.Casc.{Cascette, BuildInfoRow, BuildConfig}
use Hex.{parse_hex_16, data_config_path}

pub record ActiveBuild : Type 0 where
  pub product : Text
  pub build_key : Text
  pub config : BuildConfig

-- DEFAULT_WOW_PRODUCT
default_wow_product : Text
default_wow_product = txt "wow"

selected : EnvVar → Text
selected (value product) = product
selected _ = default_wow_product

unfoldable pub selected_wow_product : (Text → EnvVar) → Text
unfolding selected default_wow_product
selected_wow_product env = selected (env (txt "WOW_PRODUCT"))

-- The rows that `read_product_build` and `read_keyring_keys` look for.
abbrev pub is_active_row : Text → BuildInfoRow → Bool
is_active_row product row = row.is_active && row.product == some product

abbrev pub is_build_row : Text → Text → BuildInfoRow → Bool
is_build_row product build_key row =
    row.is_active && (row.product == some product && row.build_key == some build_key)

-- `active.next()`, and the check that nothing follows.
only_build_key : FilePath → Text → List BuildInfoRow → Result Text
only_build_key info_path product [] =
    Base.err (display info_path ++ (txt " has no active row for " ++ product))
only_build_key info_path product (row ∷ []) =
    ok_or (txt "active build row has no build key") row.build_key
only_build_key info_path product (row ∷ _ ∷ _) =
    Base.err (display info_path ++ (txt " has multiple active rows for " ++ product))

-- The one active row of the product, and its build key.
unfoldable pub select_build_key : FilePath → Text → List BuildInfoRow → Result Text
unfolding only_build_key
select_build_key info_path product rows =
    only_build_key info_path product (keep (is_active_row product) rows)

module _ (c : Cascette) where
  open c use {
    Keys, TactKey, parse_build_info, parse_build_config, parse_keyring, load_from_txt, add_key,
    empty_keys,
  }

  unfoldable pub read_build_info : {T : Type 0} → FilePath → Io T (List BuildInfoRow)
  read_build_info info_path = do
    content ←
        map_err (λ e. txt "read " ++ (display info_path ++ (txt ": " ++ e)))
          (read_to_string info_path)
    map_err (λ e. txt "parse " ++ (display info_path ++ (txt ": " ++ e)))
        (lift (parse_build_info content))

  unfoldable pub read_product_build : {T : Type 0} → FilePath → Text → Io T ActiveBuild
  unfolding read_build_info
  read_product_build install_root product = do
    let info_path = join install_root (path (txt ".build.info"))
    rows ← read_build_info info_path
    build_key ← lift (select_build_key info_path product rows)
    _ ← (λ w. (parse_hex_16 build_key, w))
    build_config_path ← (λ w. (data_config_path install_root build_key, w))
    build_config ←
        map_err (λ e. txt "open " ++ (display build_config_path ++ (txt ": " ++ e)))
          (read build_config_path)
    config ←
        map_err (λ e. txt "parse " ++ (display build_config_path ++ (txt ": " ++ e)))
          (lift (parse_build_config build_config))
    pure (record { product = product; build_key = build_key; config = config })

  unfoldable pub read_active_build : {T : Type 0} → FilePath → Io T ActiveBuild
  read_active_build install_root w = read_product_build install_root (selected_wow_product w.env) w

  abbrev pub requested_product : ResolverPaths → (Text → EnvVar) → Text
  requested_product paths env = elim paths.identity [
    | some i ↦ AssetIdentity.product i
    | none ↦ selected_wow_product env
  ]

  unfoldable pub read_requested_build : {T : Type 0} → ResolverPaths → FilePath → Io T ActiveBuild
  read_requested_build paths install_root w =
      read_product_build install_root (requested_product paths w.env) w

  unfoldable pub keyring_keys_at : {T : Type 0} → FilePath → Option Text → Io T (List TactKey)
  keyring_keys_at install_root none = pure []
  keyring_keys_at install_root (some keyring_key) = do
    keyring_path ← (λ w. (data_config_path install_root keyring_key, w))
    keyring ←
        map_err (λ e. txt "open keyring " ++ (display keyring_path ++ (txt ": " ++ e)))
          (read keyring_path)
    parsed ←
        map_err (λ e. txt "parse keyring " ++ (display keyring_path ++ (txt ": " ++ e)))
          (lift (parse_keyring keyring))
    map_err (λ e. txt "invalid keyring " ++ (display keyring_path ++ (txt ": " ++ e))) (lift parsed)

  unfoldable pub read_keyring_keys : {T : Type 0} → FilePath → Text → Text → Io T (List TactKey)
  unfolding read_build_info keyring_keys_at
  read_keyring_keys install_root product build_key = do
    let info_path = join install_root (path (txt ".build.info"))
    rows ← read_build_info info_path
    entry ← lift (
        ok_or
          (display info_path
            ++ (txt " has no row for " ++ (product ++ (txt " build " ++ build_key))))
          (find (is_build_row product build_key) rows))
    keyring_keys_at install_root (BuildInfoRow.keyring entry)

  add_all : Keys → List TactKey → Keys
  add_all keys [] = keys
  add_all keys (k ∷ ks) = add_all (add_key keys k) ks

  -- The external list is optional: a file that cannot be read gives no keys.
  external_keys : {T : Type 0} → FilePath → Result Text → Io T Keys
  external_keys key_path (Base.err _) = pure empty_keys
  external_keys key_path (Base.ok text) =
      let (loaded, keys) = load_from_txt empty_keys text in
      if ltb 0 loaded
      then (do
        eprintln (
            txt "CASC: loaded "
            ++ (decimal loaded ++ (txt " external TACT keys from " ++ display key_path)))
        pure keys)
      else pure keys

  load_external : {T : Type 0} → FilePath → Io T Keys
  unfolding external_keys
  load_external key_path = do
    content ← attempt (read_to_string key_path)
    external_keys key_path content

  unfoldable pub load_tact_keys : {T : Type 0} → ResolverPaths → FilePath → ActiveBuild → Io T Keys
  unfolding load_external add_all
  load_tact_keys paths install_root active_build = do
    key_path ←
        gets
          (λ w. resolve_data_path (λ p. node_exists (w.fs p)) paths (path (txt "tactkeys/WoW.txt")))
    keys ← load_external key_path
    keyring_keys ← read_keyring_keys install_root active_build.product active_build.build_key
    if length keyring_keys == 0
        then pure tt
        else eprintln (
            txt "CASC: loaded "
            ++ (decimal (length keyring_keys)
                ++ (txt " keyring TACT keys for "
                    ++ (active_build.product ++ (txt " build " ++ active_build.build_key)))))
    pure (add_all keys keyring_keys)
