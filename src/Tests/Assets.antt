-- ===== src/Tests/Assets.antt =====
-- The theorems on identities, paths, builds and the resolver, applied.
use asset_resolver.Base.{
  ℕ, ◌≡◌, ◌≢◌, refl, sym, ap, ◌↔◌, ◌⊎◌, inl, inr, arith, Text, txt, FilePath, normal, path, join,
  strip_prefix, Option, none, some, Bool, true, false, List, [], ◌∷◌, ◌++◌, All, IsPlain, length,
  all, ◌<◌, same_list, is_ascii_hexdigit, to_ascii_lowercase, Result,
}
use asset_resolver.Base
use asset_resolver.Identity.{AssetIdentity, new, is_supported_product, asset_root, asset_path}
use asset_resolver.Identity.Laws.{IsValid, new-eq-ok}
use asset_resolver.Identity.Namespace.{namespace, asset_path_injective}
use asset_resolver.RuntimeMode.{local_casc}
use asset_resolver.Paths.{ResolverPaths, scoped_cache_path, relative_data_path}
use asset_resolver.Paths.Laws.{
  scoped_cache_path-confined, scoped_cache_path_foreign, scoped_cache_path_again,
}
use asset_resolver.World.Io.{ok}
use asset_resolver.Casc.{BuildInfoRow}
use asset_resolver.Build.{select_build_key}
use asset_resolver.Build.Hex.{parse_hex_16}
use asset_resolver.Build.HexLaws.{hex_text, parse_hex_16-hex_text, parse_hex_16_plus}
use asset_resolver.Build.Selection.{IsOnlyFor, select_build_key-eq-ok}
use asset_resolver.Tests.{retail, classic, build_text, classic_text, paths_of, model, shared_root}

IsValid-retail : IsValid retail
unfolding txt is_supported_product same_list
IsValid-retail = record { supported = refl; digits = refl; sized = refl }

IsValid-classic : IsValid classic
unfolding txt is_supported_product same_list
IsValid-classic = record { supported = refl; digits = refl; sized = refl }

abbrev scoped : ResolverPaths
scoped = paths_of (some retail) local_casc

abbrev scoped_model : FilePath
scoped_model = asset_path retail shared_root (normal (txt "models") ∷ normal (txt "7.m2") ∷ [])

scoped_model_lem : scoped_cache_path scoped model ≡ Base.ok scoped_model
unfolding scoped_cache_path relative_data_path strip_prefix asset_path path txt
scoped_model_lem = refl

new-eq-ok_example : (new (txt "wow") build_text ≡ Base.ok retail) ↔ (
    (is_supported_product (txt "wow") ≡ true)
    × (length build_text ≡ 32)
    × (all is_ascii_hexdigit build_text ≡ true)
    × (retail.product ≡ txt "wow")
    × (retail.build_key ≡ to_ascii_lowercase build_text))
new-eq-ok_example = new-eq-ok (txt "wow") build_text retail

scoped_cache_path-confined_example :
    (asset : FilePath) × IsPlain asset × (scoped_model ≡ (shared_root ++ namespace retail) ++ asset)
scoped_cache_path-confined_example =
    scoped_cache_path-confined scoped retail IsValid-retail refl model scoped_model scoped_model_lem

scoped_cache_path_again_example : scoped_cache_path scoped scoped_model ≡ Base.ok scoped_model
unfolding strip_prefix asset_path path txt same_list join asset_root
scoped_cache_path_again_example =
    scoped_cache_path_again scoped retail IsValid-retail refl model scoped_model scoped_model_lem
      refl

classic_model : FilePath
classic_model = namespace classic ++ (normal (txt "7.m2") ∷ [])

scoped_cache_path_foreign_example :
    (e : Text) × (scoped_cache_path scoped (shared_root ++ classic_model) ≡ Base.err e)
unfolding relative_data_path strip_prefix namespace path txt same_list classic_model
scoped_cache_path_foreign_example =
    scoped_cache_path_foreign scoped retail IsValid-retail refl classic (normal (txt "7.m2") ∷ [])
      IsValid-classic (λ same. omega (arith, ap (λ i. length (AssetIdentity.product i)) same)) refl

IsPlain-model : IsPlain (normal (txt "7.m2") ∷ [])
IsPlain-model = (refl, tt)

asset_path_injective_example :
    (retail ≡ retail) × ((normal (txt "7.m2") ∷ []) ≡ (normal (txt "7.m2") ∷ []))
asset_path_injective_example =
    asset_path_injective retail retail shared_root (normal (txt "7.m2") ∷ [])
      (normal (txt "7.m2") ∷ []) IsValid-retail IsValid-retail IsPlain-model IsPlain-model refl

abbrev sixteen : Text
sixteen = 0 ∷ 1 ∷ 2 ∷ 3 ∷ 4 ∷ 5 ∷ 6 ∷ 7 ∷ 8 ∷ 9 ∷ 10 ∷ 11 ∷ 12 ∷ 13 ∷ 14 ∷ 255 ∷ []

All-bytes : All (λ b. b < 256) sixteen
All-bytes = ground arith

parse_hex_16-hex_text_example : parse_hex_16 (hex_text sixteen) ≡ ok sixteen
parse_hex_16-hex_text_example = parse_hex_16-hex_text sixteen All-bytes refl

abbrev thirty : Text
thirty = txt "23456789abcdef0123456789abcdef"

parse_hex_16_plus_example :
    ((out : Text) × (parse_hex_16 (b'+' ∷ b'7' ∷ thirty) ≡ ok out))
    × ((i : AssetIdentity) → new (txt "wow") (b'+' ∷ b'7' ∷ thirty) ≢ Base.ok i)
unfolding txt
parse_hex_16_plus_example = parse_hex_16_plus (txt "wow") b'7' thirty refl refl refl

abbrev rows : List BuildInfoRow
rows =
    record {
      is_active = false;
      product = some (txt "wow");
      build_key = some classic_text;
      keyring = none;
    }
    ∷ record {
      is_active = true;
      product = some (txt "wow");
      build_key = some build_text;
      keyring = none;
    }
    ∷ []

select_build_key-eq-ok_example :
    (select_build_key [] (txt "wow") rows ≡ Base.ok build_text)
    ↔ ((row : BuildInfoRow) × IsOnlyFor (txt "wow") rows row × (row.build_key ≡ some build_text))
select_build_key-eq-ok_example = select_build_key-eq-ok [] (txt "wow") rows build_text
