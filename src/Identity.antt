-- ===== src/Identity.antt =====
-- src/identity.rs: the authored asset namespace.
pub mod Laws
pub mod Namespace
use asset_resolver.Base.{
  Eq, ◌≡◌, ◌↔◌, ◌&&◌, true, arith, same_list_iff, Text, txt, FilePath, path, join, Result, ok, err,
  Bool, ◌||◌, not, ◌++◌, ◌==◌, nat_eq, list_eq, if◌then◌else◌, length, all, is_ascii_hexdigit,
  to_ascii_lowercase, same_list,
}

pub record AssetIdentity : Type 0 where
  pub product : Text
  pub build_key : Text

abbrev pub identity_eqb : AssetIdentity → AssetIdentity → Bool
identity_eqb i j = i.product == j.product && i.build_key == j.build_key

pub identity_eqb_iff : (i j : AssetIdentity) → (identity_eqb i j ≡ true) ↔ (i ≡ j)
identity_eqb_iff i j =
    ground (arith, same_list_iff i.product j.product, same_list_iff i.build_key j.build_key)

-- `matches!(product, "wow" | "wow_classic_beta")`
unfoldable pub is_supported_product : Text → Bool
is_supported_product product = product == txt "wow" || product == txt "wow_classic_beta"

-- AssetIdentity::new
unfoldable pub new : Text → Text → Result AssetIdentity
new product build_key =
    if not (is_supported_product product)
    then err (txt "unsupported authored asset product: " ++ product)
    else if not (length build_key == 32) || not (all is_ascii_hexdigit build_key)
    then err (txt "invalid authored asset build key: " ++ build_key)
    else ok (record { product = product; build_key = to_ascii_lowercase build_key })

instance abbrev pub identity_eq : Eq AssetIdentity
identity_eq = record { equals = identity_eqb; equals_iff = identity_eqb_iff }

-- AssetIdentity::asset_root
unfoldable pub asset_root : AssetIdentity → FilePath → FilePath
asset_root identity data_root =
    join (join (join data_root (path (txt "products"))) (path identity.product))
      (path identity.build_key)

-- AssetIdentity::asset_path
unfoldable pub asset_path : AssetIdentity → FilePath → FilePath → FilePath
asset_path identity data_root relative = join (asset_root identity data_root) relative
