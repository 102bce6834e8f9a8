-- ===== src/Identity/Namespace.antt =====
-- Where the files of an identity lie: below `products/<product>/<build key>`, apart from all others.
use mathlib.Core.List.{append_assoc, append_cancel_left}
use asset_resolver.Base.{
  ◌≡◌, refl, ◌⊎◌, inl, inr, sym, ◌∙◌, arith, Text, txt, FilePath, normal, path, join, strip_prefix,
  strip_prefix-append, some, true, false, ◌++◌, [], ◌∷◌, ◌==◌, nat_eq, list_eq, all, All,
  is_lower_hexdigit, and_true, IsPlain, IsName, path-IsName, join-IsPlain, same_list_iff,
}
use asset_resolver.Identity.{AssetIdentity, is_supported_product, asset_root, asset_path}
use asset_resolver.Identity.Laws.{IsValid}

no_slash_of_hex : (t : Text) → all is_lower_hexdigit t ≡ true → All (λ c. (c == b'/') ≡ false) t
no_slash_of_hex [] h = tt
no_slash_of_hex (c ∷ t) h =
    let (digit, rest) = and_true (is_lower_hexdigit c) (all is_lower_hexdigit t) h in
    (ground arith, no_slash_of_hex t rest)

build_key-IsName : (i : AssetIdentity) → IsValid i → IsName i.build_key
build_key-IsName i v = record {
  no_slash = no_slash_of_hex _ v.digits;
  long = omega (arith, v.sized);
}

literal-IsName : IsName (txt "products") × IsName (txt "wow") × IsName (txt "wow_classic_beta")
unfolding txt
literal-IsName = (
  record {
    no_slash = (refl, (refl, (refl, (refl, (refl, (refl, (refl, (refl, tt))))))));
    long = omega arith;
  },
  record { no_slash = (refl, (refl, (refl, tt))); long = omega arith },
  record {
    no_slash = (
      refl,
      (
        refl,
        (
          refl,
          (
            refl,
            (
              refl,
              (
                refl,
                (refl, (refl, (refl, (refl, (refl, (refl, (refl, (refl, (refl, (refl, tt)))))))))),
              ),
            ),
          ),
        ),
      ),
    );
    long = omega arith;
  },
)

product_cases :
    (t : Text) → is_supported_product t ≡ true → (t ≡ txt "wow") ⊎ (t ≡ txt "wow_classic_beta")
unfolding is_supported_product
product_cases t h =
    ground (arith, same_list_iff t (txt "wow"), same_list_iff t (txt "wow_classic_beta"))

product-IsName : (t : Text) → is_supported_product t ≡ true → IsName t
product-IsName t h = elim (product_cases t h) [
  | inl wow ↦ rw wow (literal-IsName.1)
  | inr beta ↦ rw beta (literal-IsName.2)
]

join_name : (root : FilePath) (t : Text) → join root (normal t ∷ []) ≡ root ++ (normal t ∷ [])
join_name root t = join-IsPlain root (normal t ∷ []) (refl, tt)

pub path-products : path (txt "products") ≡ normal (txt "products") ∷ []
path-products = path-IsName _ literal-IsName.0

-- The components of a namespace behind its data root.
unfoldable pub namespace : AssetIdentity → FilePath
namespace i = normal (txt "products") ∷ normal i.product ∷ normal i.build_key ∷ []

pub namespace-IsPlain : (i : AssetIdentity) → IsPlain (namespace i)
unfolding namespace
namespace-IsPlain i = (refl, (refl, (refl, tt)))

pub asset_root-namespace :
    (i : AssetIdentity) (root : FilePath) → IsValid i → asset_root i root ≡ root ++ namespace i
unfolding asset_root namespace
asset_root-namespace i root v =
    rw
      (
        path-IsName _ literal-IsName.0,
        path-IsName _ (product-IsName _ v.supported),
        path-IsName _ (build_key-IsName i v),
      )
      (simp (join_name, append_assoc))

pub asset_path-namespace :
    (i : AssetIdentity) (root rel : FilePath)
    → IsValid i
    → IsPlain rel
    → asset_path i root rel ≡ (root ++ namespace i) ++ rel
unfolding asset_path
asset_path-namespace i root rel v plain =
    rw (asset_root-namespace i root v) (join-IsPlain (root ++ namespace i) rel plain)

pub namespace_injective :
    (i j : AssetIdentity) (r s : FilePath) → namespace i ++ r ≡ namespace j ++ s → (i ≡ j) × (r ≡ s)
unfolding namespace
namespace_injective i j r s e = ground arith

pub strip_prefix-products :
    (i : AssetIdentity) (r : FilePath)
    → strip_prefix (namespace i ++ r) (path (txt "products"))
      ≡ some (normal i.product ∷ normal i.build_key ∷ r)
unfolding namespace
strip_prefix-products i r = rw path-products (strip_prefix-append (normal (txt "products") ∷ []) _)

-- Two identities never share a file, and one identity has each file once.
pub asset_path_injective :
    (i j : AssetIdentity) (root r s : FilePath)
    → IsValid i
    → IsValid j
    → IsPlain r
    → IsPlain s
    → asset_path i root r ≡ asset_path j root s
    → (i ≡ j) × (r ≡ s)
asset_path_injective i j root r s vi vj pr ps h =
    let e : root ++ (namespace i ++ r) ≡ root ++ (namespace j ++ s) =
      sym (append_assoc root (namespace i) r)
      ∙ sym (asset_path-namespace i root r vi pr)
      ∙ h
      ∙ asset_path-namespace j root s vj ps
      ∙ append_assoc root (namespace j) s in
    namespace_injective i j r s (append_cancel_left root (namespace i ++ r) (namespace j ++ s) e)
