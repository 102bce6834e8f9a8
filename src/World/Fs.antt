-- ===== src/World/Fs.antt =====
-- The part of `std::fs` that the program uses, on a tree of directories and files. Symbolic links and
-- permissions are not modelled: an operation that fails for such a reason is a fault of the caller's
-- schedule (World/Io).
use asset_resolver.Base.{
  ℕ, Text, FilePath, strip_prefix, parent, Option, none, some, Bool, true, false, List, [], ◌∷◌,
  ◌++◌, ◌==◌, list_eq, if◌then◌else◌, component_eq,
}

pub data Node : Type 0 where
  absent : Node
  dir : Node
  file : Text → ℕ → Node

-- What lies at each path: a file has its bytes and the second of its last change.
abbrev pub FileSystem : Type 0
FileSystem = FilePath → Node

abbrev pub node_exists : Node → Bool
node_exists absent = false
node_exists dir = true
node_exists (file _ _) = true

abbrev pub node_is_dir : Node → Bool
node_is_dir dir = true
node_is_dir absent = false
node_is_dir _ = false

abbrev pub node_is_file : Node → Bool
node_is_file (file _ _) = true
node_is_file absent = false
node_is_file _ = false

-- The working directory is the empty path.
abbrev pub parent_is_dir : FileSystem → FilePath → Bool
parent_is_dir fs p = elim (parent p) [
  | none ↦ false
  | some [] ↦ true
  | some (c ∷ q) ↦ node_is_dir (fs (c ∷ q))
]

unfoldable pub put : FileSystem → FilePath → Node → FileSystem
put fs p n q = if q == p then n else fs q

-- A directory and all of its parents; `none` where a file is in the way.
unfoldable pub make_dirs : List FilePath → FileSystem → Option FileSystem
make_dirs [] fs = some fs
make_dirs (p ∷ ps) fs = elim (fs p) [
  | file _ _ ↦ none
  | dir ↦ make_dirs ps fs
  | absent ↦ make_dirs ps (put fs p dir)
]

-- The path and its proper prefixes, shortest first, without the empty one.
unfoldable pub ancestors : FilePath → FilePath → List FilePath
ancestors behind [] = []
ancestors behind (c ∷ p) = (behind ++ (c ∷ [])) ∷ ancestors (behind ++ (c ∷ [])) p

-- All that lies at `src` or below it moves to `dst`, in place of what was there.
unfoldable pub moved : FileSystem → FilePath → FilePath → FileSystem
moved fs src dst q = elim (strip_prefix q dst) [
  | some rest ↦ fs (src ++ rest)
  | none ↦ elim (strip_prefix q src) [ some _ ↦ absent | none ↦ fs q ]
]

unfoldable pub removed : FileSystem → FilePath → FileSystem
removed fs p q = elim (strip_prefix q p) [ some _ ↦ absent | none ↦ fs q ]
