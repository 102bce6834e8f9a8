-- ===== src/Install/Remembers.antt =====
-- src/casc_resolver.rs: the root of the installation is found once, and kept.
use asset_resolver.Base.{◌≡◌, refl, sym, ap, ◌∙◌, Text, txt, FilePath, Option, none, some, Result}
use asset_resolver.Base
use asset_resolver.RuntimeMode.{Process, Run, process_runtime_mode, guard_casc_access}
use asset_resolver.World.Io.{World, Io, ok, run, pure}
use asset_resolver.World.Files.{Preserves}
use asset_resolver.World.Ensures.{Leads, bind-Leads, keep-Leads}
use asset_resolver.Install.{wow_install_path, init_install_path}

-- What the look for the root leaves as it was
abbrev Unmoved : {T : Type 0} → World T → World T → Type 0
Unmoved before w =
    (w.fs ≡ before.fs) × (w.env ≡ before.env) × (w.install_path ≡ before.install_path)

-- The answer is the root that is remembered, and one that was remembered stays.
pub record IsRemembered {T : Type 0} (before : World T) (found : Option FilePath) (w : World T)
    : Type 0 where
  pub same_fs : w.fs ≡ before.fs
  pub same_env : w.env ≡ before.env
  pub remembered : (r : FilePath) → found ≡ some r → w.install_path ≡ some (some r)
  pub stays : (x : Option FilePath) → before.install_path ≡ some x → w.install_path ≡ some x

module _ {T : Type 0} (before : World T) where
  ran :
      {A : Type 0} (r : Option A × Process) (w : World T)
      → Unmoved before w
      → Unmoved before (run (λ _. r) w).1
  unfolding run
  ran (none, p) w h = h
  ran (some a, p) w h = h

  run-Unmoved : {A : Type 0} (m : Run A) → Preserves (Unmoved before) (run m)
  unfolding run
  run-Unmoved m = record { at = λ w h. ran (m w.process) w h }

  known-IsRemembered :
      (known : Option (Option FilePath)) (w : World T) (found : Option FilePath)
      → Unmoved before (record w { install_path = known })
      → (init_install_path (record w { install_path = known })).0 ≡ ok found
      → IsRemembered before found (init_install_path (record w { install_path = known })).1
  unfolding init_install_path pure
  known-IsRemembered none w found (fs, env, path) good = record {
    same_fs = fs;
    same_env = env;
    remembered = λ r is. ap some (cc (good, is));
    stays = λ x was. absurd (cc (was, path));
  }
  known-IsRemembered (some root) w found (fs, env, path) good = record {
    same_fs = fs;
    same_env = env;
    remembered = λ r is. ap some (cc (good, is));
    stays = λ x was. path ∙ was;
  }

  allowed-IsRemembered :
      (allowed : Result (Unit {0}))
      → Leads
          (Unmoved before)
          (let step : Io T (Option FilePath) = elim allowed [
            | Base.err _ ↦ pure none
            | Base.ok _ ↦ init_install_path
          ] in
            step)
          (IsRemembered before)
  unfolding pure
  allowed-IsRemembered (Base.err e) = record {
    at = λ w found (fs, env, path) good. record {
      same_fs = fs;
      same_env = env;
      remembered = λ r is. absurd (cc (good, is));
      stays = λ x was. path ∙ was;
    };
  }
  allowed-IsRemembered (Base.ok _) = record {
    at = λ w found. known-IsRemembered w.install_path w found;
  }

  wow_install_path-Leads : Leads (Unmoved before) wow_install_path (IsRemembered before)
  unfolding wow_install_path init_install_path
  wow_install_path-Leads = bind-Leads _ (keep-Leads (run-Unmoved process_runtime_mode)) (λ mode.
      bind-Leads _ (keep-Leads (run-Unmoved (guard_casc_access mode (txt "WoW install discovery"))))
        allowed-IsRemembered)

pub wow_install_path-IsRemembered :
    {T : Type 0} (w : World T) (found : Option FilePath)
    → (wow_install_path w).0 ≡ ok found
    → IsRemembered w found (wow_install_path w).1
wow_install_path-IsRemembered w found good =
    (wow_install_path-Leads w).at w found (refl, refl, refl) good
