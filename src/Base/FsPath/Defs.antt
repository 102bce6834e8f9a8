-- ===== src/Base/FsPath/Defs.antt =====
-- `std::path::Path` on Unix: what `components` yields, and the operations that the program calls.
-- A root stands only at the front, and so does a current directory; the repeated separators and the
-- later `.` that `components` skips are not kept.
use Prim.Native.Nat.{ℕ}
use mathlib.Core.Path.{◌≡◌, refl}
use mathlib.Core.Logic.{◌↔◌}
use mathlib.Core.Bool.{Bool, true, false}
use mathlib.Core.List.{List, [], ◌∷◌, ◌++◌}
use mathlib.Core.Option.{Option, none, some}
use native.Mathlib.Omega.{arith}
use asset_resolver.Base.Tests.{if◌then◌else◌}
use asset_resolver.Base.Equality.{Eq, ◌==◌, nat_eq, list_eq, same_list, same_list_iff}
use asset_resolver.Base.Bytes.{Text, txt}

-- std::path::Component, without the prefixes of Windows.
pub data Component : Type 0 where
  root_dir cur_dir parent_dir : Component
  normal : Text → Component

abbrev pub FilePath : Type 0
FilePath = List Component

abbrev pub component_eqb : Component → Component → Bool
component_eqb root_dir root_dir = true
component_eqb cur_dir cur_dir = true
component_eqb parent_dir parent_dir = true
component_eqb (normal s) (normal t) = s == t
component_eqb _ _ = false

pub component_eqb_iff : (a b : Component) → (component_eqb a b ≡ true) ↔ (a ≡ b)
component_eqb_iff (normal s) (normal t) = ground (arith, same_list_iff s t)
component_eqb_iff root_dir root_dir = (λ h. refl, λ h. refl)
component_eqb_iff cur_dir cur_dir = (λ h. refl, λ h. refl)
component_eqb_iff parent_dir parent_dir = (λ h. refl, λ h. refl)
component_eqb_iff _ _ = (λ h. cc, λ h. cc)

instance abbrev pub component_eq : Eq Component
component_eq = record { equals = component_eqb; equals_iff = component_eqb_iff }

abbrev cons_first : ℕ → List Text → List Text
cons_first c [] = (c ∷ []) ∷ []
cons_first c (w ∷ ws) = (c ∷ w) ∷ ws

unfoldable pub split_slash : Text → List Text
split_slash [] = [] ∷ []
split_slash (c ∷ s) = let rest = split_slash s in if c == b'/' then [] ∷ rest else cons_first c rest

abbrev component : Bool → Text → Option Component
component first w =
    if w == []
    then none
    else if w == txt "."
    then (if first then some cur_dir else none)
    else if w == txt ".."
    then some parent_dir
    else some (normal w)

unfoldable pub segments : Bool → List Text → FilePath
segments first [] = []
segments first (w ∷ ws) =
    let rest = segments false ws in elim (component first w) [ none ↦ rest | some c ↦ c ∷ rest ]

-- Path::new
unfoldable pub path : Text → FilePath
unfolding split_slash segments same_list txt
path [] = []
path (c ∷ s) =
    if c == b'/'
    then root_dir ∷ segments false (split_slash s)
    else segments true (split_slash (c ∷ s))

-- Path::is_absolute
abbrev pub is_absolute : FilePath → Bool
is_absolute [] = false
is_absolute (c ∷ p) = c == root_dir

-- A leading `.` is dropped where the path stands behind another.
abbrev pub behind : FilePath → FilePath
behind [] = []
behind (cur_dir ∷ p) = p
behind (c ∷ p) = c ∷ p

-- Path::join
unfoldable pub join : FilePath → FilePath → FilePath
join [] rel = rel
join (c ∷ p) rel = if is_absolute rel then rel else (c ∷ p) ++ behind rel

-- Path::strip_prefix; `none` is its error.
unfoldable pub strip_prefix : FilePath → FilePath → Option FilePath
strip_prefix p [] = some p
strip_prefix [] (b ∷ bs) = none
strip_prefix (c ∷ p) (b ∷ bs) = if c == b then strip_prefix p bs else none

-- Path::starts_with
abbrev pub path_starts_with : FilePath → FilePath → Bool
path_starts_with p base = elim (strip_prefix p base) [ none ↦ false | some _ ↦ true ]

abbrev pub is_normal : Component → Bool
is_normal (normal t) = true
is_normal root_dir = false
is_normal _ = false

-- Path::parent: a root has none, nor has the empty path.
unfoldable pub parent : FilePath → Option FilePath
parent [] = none
parent (root_dir ∷ []) = none
parent (c ∷ []) = some []
parent (c ∷ d ∷ p) = elim (parent (d ∷ p)) [ none ↦ none | some q ↦ some (c ∷ q) ]

-- Path::file_name
unfoldable pub file_name : FilePath → Option Text
file_name [] = none
file_name (normal t ∷ []) = some t
file_name (c ∷ []) = none
file_name (c ∷ d ∷ p) = file_name (d ∷ p)

abbrev component_text : Component → Text
component_text root_dir = []
component_text cur_dir = txt "."
component_text parent_dir = txt ".."
component_text (normal t) = t

-- Path::display
unfoldable pub display : FilePath → Text
display [] = []
display (root_dir ∷ []) = txt "/"
display (c ∷ []) = component_text c
display (c ∷ d ∷ p) = component_text c ++ (b'/' ∷ display (d ∷ p))
