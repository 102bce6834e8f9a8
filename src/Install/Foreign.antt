-- ===== src/Install/Foreign.antt =====
-- src/casc_resolver.rs: the look for the root of the installation leaves the statics of the client.
use asset_resolver.Base.{Text, txt, FilePath, Option, none, some, Result}
use asset_resolver.Base
use asset_resolver.World.Io.{World, Io, pure}
use asset_resolver.World.Statics.{Holds, bind-Holds, pure-Holds, run-Holds}
use asset_resolver.Install.{wow_install_path, init_install_path}

module _ {T : Type 0} (P : T → Type 0) where
  found_path-Holds :
      (known : Option (Option FilePath)) (w : World T)
      → P w.statics
      → P (init_install_path (record w { install_path = known })).1.statics
  unfolding init_install_path pure
  found_path-Holds none w h = h
  found_path-Holds (some found) w h = h

  allowed-Holds :
      (allowed : Result (Unit {0}))
      → Holds P (
          let step : Io T (Option FilePath) = elim allowed [
            | Base.err _ ↦ pure none
            | Base.ok _ ↦ init_install_path
          ] in
          step)
  allowed-Holds (Base.err e) = pure-Holds none
  allowed-Holds (Base.ok _) = record { at = λ w. found_path-Holds w.install_path w }

  pub wow_install_path-Holds : Holds P wow_install_path
  unfolding wow_install_path init_install_path
  wow_install_path-Holds = bind-Holds (run-Holds _) (λ mode. bind-Holds (run-Holds _) allowed-Holds)
