-- ===== src/Bin/CascRefresh.antt =====
-- src/bin/casc_refresh.rs: the refresh of the resolution cache of the installation that is found.
use asset_resolver.Base.{ℕ, Text, txt, FilePath, display, ok_or, ◌++◌, Option}
use asset_resolver.Base
use asset_resolver.Paths.{ResolverPaths}
use asset_resolver.World.Io.{Io, ◌>>=◌, ◌>>◌, pure, lift, attempt, eprintln}
use asset_resolver.Casc.{Cascette}
use asset_resolver.Sqlite.{Sqlite}
use asset_resolver.Install.{wow_install_path}
use asset_resolver.Resolver.Installs.{refresh_resolution_cache_for_install}

module _ (c : Cascette) (q : Sqlite) (paths : ResolverPaths) {T : Type 0} where
  unfoldable pub run : Io T (Unit {0})
  run = do
    found ← wow_install_path
    install_root ← lift (
        ok_or
          (txt
            "WoW install not found (set WOW_INSTALL_PATH or WOW_DATA_PATH, or use a default install path)")
          found)
    cache_dir ← refresh_resolution_cache_for_install c q paths install_root
    eprintln (txt "Refreshed CASC resolution cache at " ++ display cache_dir)

  -- The exit status
  unfoldable pub main : Io T ℕ
  main = do
    answer ← attempt run
    elim answer [ Base.ok _ ↦ pure 0 | Base.err e ↦ do eprintln e; pure 1 ]
