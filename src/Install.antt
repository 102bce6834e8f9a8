-- ===== src/Install.antt =====
-- src/casc_resolver.rs: discovery of the WoW installation, on Unix.
pub mod Laws
pub mod Remembers
pub mod Foreign
use asset_resolver.Base.{
  Text, txt, FilePath, path, join, parent, Option, none, some, Bool, true, false, List, [], ◌∷◌,
  ◌++◌, find, if◌then◌else◌,
}
use asset_resolver.Base
use asset_resolver.RuntimeMode.{
  EnvVar, value, not_present, not_unicode, var_os, process_runtime_mode, guard_casc_access,
}
use asset_resolver.World.Fs.{FileSystem, node_is_dir}
use asset_resolver.World.Io.{World, Io, ◌>>=◌, ◌>>◌, pure, gets, run}

unfoldable pub is_valid_wow_install : FileSystem → FilePath → Bool
is_valid_wow_install fs root =
    node_is_dir (fs (join (join root (path (txt "Data"))) (path (txt "data"))))

home_candidates : Option Text → List FilePath
home_candidates none = []
home_candidates (some h) =
    let home = path h in
    join home (path (txt "Games/world-of-warcraft/drive_c/Program Files (x86)/World of Warcraft"))
    ∷ join home (path (txt ".wine/drive_c/Program Files (x86)/World of Warcraft"))
    ∷ join home (path (txt ".wine/drive_c/World of Warcraft"))
    ∷ join home (path (txt ".local/share/lutris/runners/wine/World of Warcraft"))
    ∷ []

-- candidate_install_paths, where `cfg!(windows)` is false
unfoldable pub candidate_install_paths : (Text → EnvVar) → List FilePath
unfolding home_candidates
candidate_install_paths env =
    path (txt "/syncthing/World of Warcraft")
    ∷ path (txt "/mnt/c/Program Files (x86)/World of Warcraft")
    ∷ path (txt "/mnt/c/World of Warcraft")
    ∷ path (txt "/Applications/World of Warcraft")
    ∷ home_candidates (var_os (env (txt "HOME")))

-- The root that WOW_INSTALL_PATH names.
install_root_of : EnvVar → Option FilePath
install_root_of (value install) = some (path install)
install_root_of _ = none

-- The parent of the directory that WOW_DATA_PATH names.
data_root_of : EnvVar → Option FilePath
data_root_of (value data_path) = parent (path data_path)
data_root_of _ = none

abbrev first_valid : FileSystem → Option FilePath → Option FilePath → Option FilePath
first_valid fs none rest = rest
first_valid fs (some root) rest = if is_valid_wow_install fs root then some root else rest

unfoldable pub discover_wow_install_path : FileSystem → (Text → EnvVar) → Option FilePath
unfolding install_root_of data_root_of
discover_wow_install_path fs env = first_valid fs (install_root_of (env (txt "WOW_INSTALL_PATH"))) (
    first_valid fs (data_root_of (env (txt "WOW_DATA_PATH")))
      (find (is_valid_wow_install fs) (candidate_install_paths env)))

-- `WOW_INSTALL_PATH.get_or_init(discover_wow_install_path)`
unfoldable pub init_install_path : {T : Type 0} → Io T (Option FilePath)
init_install_path w = elim w.install_path [
  | some found ↦ pure found w
  | none ↦
      let found = discover_wow_install_path w.fs w.env in
      pure found (record w { install_path = some found })
]

unfoldable pub wow_install_path : {T : Type 0} → Io T (Option FilePath)
unfolding init_install_path
wow_install_path = do
  mode ← run process_runtime_mode
  allowed ← run (guard_casc_access mode (txt "WoW install discovery"))
  elim allowed [ Base.err _ ↦ pure none | Base.ok _ ↦ init_install_path ]

unfoldable pub wow_data_path : {T : Type 0} → Io T (Option FilePath)
wow_data_path = do
  root ← wow_install_path
  pure (elim root [ none ↦ none | some r ↦ some (join r (path (txt "Data"))) ])
