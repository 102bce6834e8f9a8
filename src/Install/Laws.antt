-- ===== src/Install/Laws.antt =====
-- What discovery accepts, and what the guard keeps from it.
use asset_resolver.Base.{
  ◌≡◌, refl, sym, ◌∙◌, ap, ◌++◌, txt, normal, join, path, join-IsPlain, inl, inr, arith, Text,
  FilePath, some, Bool, true, List, [], ◌∷◌, find, Bool-cases,
}
use mathlib.Core.List.{append_assoc}
use asset_resolver.RuntimeMode.{EnvVar}
use asset_resolver.World.Fs.{FileSystem, Node, absent, dir, file, node_is_dir}
use asset_resolver.Install.{
  is_valid_wow_install, candidate_install_paths, discover_wow_install_path,
}

find-true : {A : Type 0} (p : A → Bool) (xs : List A) (x : A) → find p xs ≡ some x → p x ≡ true
find-true p [] x h = cc
find-true p (y ∷ ys) x h = elim (Bool-cases (p y)) [
  | inl t ↦ ground arith
  | inr f ↦ find-true p ys x (ground arith)
]

is_a_dir : (n : Node) → node_is_dir n ≡ true → n ≡ dir
is_a_dir dir h = refl
is_a_dir absent h = absurd (cc h)
is_a_dir (file content t) h = absurd (cc h)

data_dir :
    (fs : FileSystem) (root : FilePath)
    → is_valid_wow_install fs root ≡ true
    → fs (root ++ (normal (txt "Data") ∷ normal (txt "data") ∷ [])) ≡ dir
unfolding is_valid_wow_install path txt
data_dir fs root h =
    let above : FilePath = normal (txt "Data") ∷ [] in
    let inner : FilePath = normal (txt "data") ∷ [] in
    let at : join (join root above) inner ≡ root ++ (above ++ inner) =
      join-IsPlain (join root above) inner (refl, tt)
      ∙ ap (λ p. p ++ inner) (join-IsPlain root above (refl, tt))
      ∙ append_assoc root above inner in
    ap fs (sym at) ∙ is_a_dir _ h

-- Whatever the environment names, the directory `Data/data` lies below a discovered root.
pub discover_wow_install_path-valid :
    (fs : FileSystem) (env : Text → EnvVar) (root : FilePath)
    → discover_wow_install_path fs env ≡ some root
    → fs (root ++ (normal (txt "Data") ∷ normal (txt "data") ∷ [])) ≡ dir
unfolding discover_wow_install_path
discover_wow_install_path-valid fs env root h =
    data_dir fs root
      (ground (arith, find-true (is_valid_wow_install fs) (candidate_install_paths env) root))
