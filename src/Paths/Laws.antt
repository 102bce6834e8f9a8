-- ===== src/Paths/Laws.antt =====
-- Where `scoped_cache_path` puts an asset.
use mathlib.Core.List.{append_assoc}
use asset_resolver.Base.{
  ◌≡◌, ◌≢◌, refl, ◌⊎◌, inl, inr, sym, ap, ◌∙◌, arith, Text, txt, FilePath, is_normal, path,
  strip_prefix, strip_prefix-append, none, some, false, not, any, [], ◌∷◌, ◌++◌, ok, err, ◌>>=◌,
  >>=-eq-ok, Result-cases, Option-cases, All-append, IsPlain, strip_prefix-append,
  strip_prefix-eq-some,
}
use asset_resolver.Identity.{AssetIdentity, asset_root, asset_path}
use asset_resolver.Identity.Laws.{IsValid}
use asset_resolver.Identity.Namespace.{
  namespace, namespace-IsPlain, asset_root-namespace, asset_path-namespace, namespace_injective,
  strip_prefix-products,
}
use asset_resolver.Paths.{ResolverPaths, relative_data_path, scope_relative, scoped_cache_path}

any-not-IsPlain : (p : FilePath) → any (λ part. not (is_normal part)) p ≡ false → IsPlain p
any-not-IsPlain [] h = tt
any-not-IsPlain (c ∷ p) h = ground (arith, any-not-IsPlain p)

IsPlain-any-not : (p : FilePath) → IsPlain p → any (λ part. not (is_normal part)) p ≡ false
IsPlain-any-not [] h = refl
IsPlain-any-not (c ∷ p) h = ground (arith, IsPlain-any-not p)

IsPlain-behind : (p q : FilePath) → IsPlain (p ++ q) → IsPlain q
IsPlain-behind [] q h = h
IsPlain-behind (c ∷ p) q h = IsPlain-behind p q h.1

module _ (paths : ResolverPaths) (i : AssetIdentity) where
  scope_relative-eq-ok :
      (p relative q : FilePath)
      → scope_relative paths i p relative ≡ ok q
      → IsPlain relative
        × (asset : FilePath) × (((asset ≡ relative)
              × (strip_prefix relative (path (txt "products")) ≡ none))
            ⊎ (relative ≡ asset_root i [] ++ asset))
        × (q ≡ asset_path i paths.shared_data_root asset)
  unfolding scope_relative
  scope_relative-eq-ok p relative q h =
      elim (Option-cases (strip_prefix relative (path (txt "products")))) [
        | inl elsewhere ↦
            (any-not-IsPlain relative (ground arith), relative, inl (refl, elsewhere), ground arith)
        | inr (rest, below) ↦ elim (Option-cases (strip_prefix relative (asset_root i []))) [
          | inl foreign ↦ absurd (ground arith)
          | inr (asset, own) ↦ (
            any-not-IsPlain relative (ground arith),
            asset,
            inr (strip_prefix-eq-some _ _ _ own),
            ground arith,
          )
        ]
      ]

  scope_relative_own :
      (p asset : FilePath)
      → IsValid i
      → IsPlain asset
      → scope_relative paths i p (namespace i ++ asset)
        ≡ ok ((paths.shared_data_root ++ namespace i) ++ asset)
  unfolding scope_relative
  scope_relative_own p asset valid plain = ground (
    arith,
    IsPlain-any-not (namespace i ++ asset)
        (All-append _ (namespace i) asset (namespace-IsPlain i) plain),
    strip_prefix-products i asset,
    asset_root-namespace i [] valid,
    strip_prefix-append (namespace i) asset,
    asset_path-namespace i paths.shared_data_root asset valid plain,
  )

  scoped-own :
      (p : FilePath)
      → paths.identity ≡ some i
      → scoped_cache_path paths p ≡ (relative_data_path paths p >>= scope_relative paths i p)
  unfolding scoped_cache_path
  scoped-own p own = rw own

  module _ (valid : IsValid i) (own : paths.identity ≡ some i) where
    -- With an identity, whatever path is asked for, the answer lies below the identity's namespace
    -- of the shared data root, and only plain names lead down from there.
    pub scoped_cache_path-confined :
        (p q : FilePath)
        → scoped_cache_path paths p ≡ ok q
        → (asset : FilePath) × IsPlain asset
          × (q ≡ (paths.shared_data_root ++ namespace i) ++ asset)
    scoped_cache_path-confined p q h =
        let (relative, _, scoped) =
          >>=-eq-ok (relative_data_path paths p) (scope_relative paths i p)
            (sym (scoped-own p own) ∙ h) in
        let (plain, asset, how, e) = scope_relative-eq-ok p relative q scoped in
        let plain' : IsPlain asset = elim how [
          | inl (same, _) ↦ rw same plain
          | inr behind ↦ IsPlain-behind (asset_root i []) asset (rw behind at plain)
        ] in
        (asset, plain', e ∙ asset_path-namespace i _ asset valid plain')

    foreign_relative :
        (j : AssetIdentity) (p relative : FilePath)
        → IsValid j
        → j ≢ i
        → relative_data_path paths p ≡ ok (namespace j ++ relative)
        → (e : Text) × (scoped_cache_path paths p ≡ err e)
    foreign_relative j p relative vj other h = elim (Result-cases (scoped_cache_path paths p)) [
      | inr refused ↦ refused
      | inl (q, scoped) ↦
          let scoped' : scope_relative paths i p (namespace j ++ relative) ≡ ok q =
            rw h at (sym (scoped-own p own) ∙ scoped) in
          let (plain, asset, how, e) = scope_relative-eq-ok p (namespace j ++ relative) q scoped' in
          let plain' = IsPlain-behind (namespace j) relative plain in
          elim how [
            | inl (_, elsewhere) ↦ absurd (ground (arith, strip_prefix-products j relative))
            | inr behind ↦ absurd (
                other
                  (namespace_injective j i relative asset
                    (behind ∙ ap (λ r. r ++ asset) (asset_root-namespace i [] valid))).0)
          ]
    ]

    behind_shared :
        (rest : FilePath)
        → strip_prefix (paths.shared_data_root ++ rest) paths.source_data_root ≡ none
        → relative_data_path paths (paths.shared_data_root ++ rest) ≡ ok rest
    unfolding relative_data_path
    behind_shared rest outside = rw (outside, strip_prefix-append paths.shared_data_root rest) refl

    -- A path below the shared data root that is in another identity's namespace is refused, unless it is
    -- below the source data root too.
    pub scoped_cache_path_foreign :
        (j : AssetIdentity) (relative : FilePath)
        → IsValid j
        → j ≢ i
        → strip_prefix (paths.shared_data_root ++ (namespace j ++ relative)) paths.source_data_root
          ≡ none
        → (e : Text) × (scoped_cache_path paths
              (paths.shared_data_root ++ (namespace j ++ relative))
            ≡ err e)
    scoped_cache_path_foreign j relative vj other outside =
        foreign_relative j (paths.shared_data_root ++ (namespace j ++ relative)) relative vj other
          (behind_shared (namespace j ++ relative) outside)

    -- An answer is its own answer, if it is not taken for a path below the source data root.
    pub scoped_cache_path_again :
        (p q : FilePath)
        → scoped_cache_path paths p ≡ ok q
        → strip_prefix q paths.source_data_root ≡ none
        → scoped_cache_path paths q ≡ ok q
    unfolding scoped_cache_path relative_data_path
    scoped_cache_path_again p q h outside =
        let (asset, plain, e) = scoped_cache_path-confined p q h in
        let q-eq : q ≡ paths.shared_data_root ++ (namespace i ++ asset) =
          e ∙ append_assoc paths.shared_data_root (namespace i) asset in
        let found : relative_data_path paths q ≡ ok (namespace i ++ asset) =
          ground (arith, q-eq, strip_prefix-append paths.shared_data_root (namespace i ++ asset)) in
        scoped-own q own ∙ rw found (scope_relative_own q asset valid plain ∙ ap ok (sym e))
