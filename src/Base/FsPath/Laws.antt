-- ===== src/Base/FsPath/Laws.antt =====
-- Laws of paths: joining, stripping and names that are one component.
use Prim.Native.Nat.{◌<◌}
use mathlib.Core.Path.{◌≡◌, refl}
use mathlib.Core.Bool.{true, false}
use mathlib.Core.List.{[], ◌∷◌, ◌++◌}
use mathlib.Core.Option.{some}
use native.Mathlib.Omega.{arith}
use asset_resolver.Base.Equality.{◌==◌, eq_refl, nat_eq, list_eq}
use asset_resolver.Base.Lists.{All, length}
use asset_resolver.Base.Bytes.{Text}
use asset_resolver.Base.FsPath.Defs.{
  normal, root_dir, FilePath, component_eq, path, join, strip_prefix, is_normal, split_slash,
}

-- Every component is a plain name.
abbrev pub IsPlain : FilePath → Type 0
IsPlain = All (λ c. is_normal c ≡ true)

pub join-IsPlain : (p q : FilePath) → IsPlain q → join p q ≡ p ++ q
unfolding join
join-IsPlain [] q h = refl
join-IsPlain (c ∷ p) [] h = refl
join-IsPlain (c ∷ p) (normal t ∷ q) h = refl
join-IsPlain (c ∷ p) (root_dir ∷ q) h = cc
join-IsPlain (c ∷ p) (d ∷ q) h = cc

pub strip_prefix-append : (b r : FilePath) → strip_prefix (b ++ r) b ≡ some r
unfolding strip_prefix
strip_prefix-append [] r = refl
strip_prefix-append (c ∷ b) r = rw (eq_refl c) (strip_prefix-append b r)

pub strip_prefix_self : (p : FilePath) → strip_prefix p p ≡ some []
unfolding strip_prefix
strip_prefix_self [] = refl
strip_prefix_self (c ∷ p) = rw (eq_refl c) (strip_prefix_self p)

pub strip_prefix-eq-some : (p b r : FilePath) → strip_prefix p b ≡ some r → p ≡ b ++ r
unfolding strip_prefix
strip_prefix-eq-some p [] r h = cc
strip_prefix-eq-some [] (b ∷ bs) r h = cc
strip_prefix-eq-some (c ∷ p) (b ∷ bs) r h =
    ground (arith, component_eq.equals_iff c b, strip_prefix-eq-some p bs r)

-- A text that is one component: no separator, and longer than `..`.
pub record IsName (t : Text) : Type 0 where
  pub no_slash : All (λ c. (c == b'/') ≡ false) t
  pub long : 2 < length t

split_slash-IsName : (t : Text) → All (λ c. (c == b'/') ≡ false) t → split_slash t ≡ t ∷ []
unfolding split_slash
split_slash-IsName [] h = refl
split_slash-IsName (c ∷ t) h = rw (h.0, split_slash-IsName t h.1)

pub path-IsName : (t : Text) → IsName t → path t ≡ normal t ∷ []
unfolding path
path-IsName [] h = absurd (omega (arith, h.long))
path-IsName (c ∷ []) h = absurd (omega (arith, h.long))
path-IsName (c ∷ d ∷ []) h = absurd (omega (arith, h.long))
path-IsName (c ∷ d ∷ e ∷ t) h =
    rw (h.no_slash.0, split_slash-IsName (d ∷ e ∷ t) h.no_slash.1) (ground arith)

-- Siblings are the same only if their names are.
pub last_equal :
    (dir : FilePath) (s t : Text) → dir ++ (normal s ∷ []) ≡ dir ++ (normal t ∷ []) → s ≡ t
last_equal [] s t h = cc
last_equal (c ∷ dir) s t h = last_equal dir s t (cc h)
