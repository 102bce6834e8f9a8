-- ===== src/Tests/Tools.antt =====
-- The theorem on the command line tool, applied to a file that is there already.
use asset_resolver.Base.{
  ℕ, zero, suc, ◌≡◌, Text, txt, FilePath, cur_dir, normal, length, Option, none, some, List, [],
  ◌∷◌, strip_prefix, starts_with, split_slash, segments,
}
use asset_resolver.Base
use asset_resolver.RuntimeMode.{local_casc}
use asset_resolver.Paths.{ResolverPaths}
use asset_resolver.World.Fs.{FileSystem, file}
use asset_resolver.World.Io.{World}
use asset_resolver.ListfileCache
use asset_resolver.Listfile
use asset_resolver.Bin.CascLocal.{Globals}
use asset_resolver.Tests.{paths_of, process_of, world_of, cascette, sqlite}
use asset_resolver.Tests.Listfiles.{database}

abbrev no_links : FileSystem → FilePath → Option FilePath
no_links fs p = none

abbrev paths : ResolverPaths
paths = paths_of none local_casc

abbrev extracted : World (Globals cascette sqlite database no_links paths)
extracted =
    world_of (process_of (some local_casc))
      ((cur_dir ∷ normal (txt "7.dat") ∷ [], file (1 ∷ []) 5) ∷ []) (none, [])

abbrev asked : List ℕ
asked = 7 ∷ []
