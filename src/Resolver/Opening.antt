-- ===== src/Resolver/Opening.antt =====
-- src/casc_resolver.rs: the build that an opened state is of.
use asset_resolver.Base.{
  ◌≡◌, refl, sym, ap, ◌∙◌, ◌⊎◌, inl, inr, Text, txt, FilePath, path, join, display, Option, none,
  some, Bool, Bool-cases, true, false, not, Result, ok_or, List, [], ◌∷◌, ◌++◌, ◌==◌, if◌then◌else◌,
  eq→≡,
}
use asset_resolver.Base
use asset_resolver.Identity.{AssetIdentity, new}
use asset_resolver.Paths.{ResolverPaths}
use asset_resolver.RuntimeMode.{EnvVar}
use asset_resolver.World.Fs.{FileSystem}
use asset_resolver.World.Io.{World, Io, ok, lift}
use asset_resolver.World.Files.{gets-Preserves, exists-Preserves, map_err-Preserves, lift-Preserves}
use asset_resolver.World.Ensures.{
  Ensures, Leads, bind-Leads, keep-Leads, throw-Leads, if-Leads, lift-Leads, fact-Leads,
  later-Ensures, next-Ensures, bind-Ensures,
}
use asset_resolver.World.Inversion.{lift-eq-ok, pure-eq-ok}
use asset_resolver.Install.{wow_install_path}
use asset_resolver.Install.Remembers.{wow_install_path-IsRemembered}
use asset_resolver.Casc.{Cascette}
use asset_resolver.Sqlite.{Sqlite}
use asset_resolver.Build.{ActiveBuild, read_requested_build}
use asset_resolver.CascState.{CascState}
use asset_resolver.Resolver.States.{namespace_eq, init_casc, init_state}

-- The files, the environment and the remembered root of the installation
abbrev Rooted : {T : Type 0} → FileSystem → (Text → EnvVar) → FilePath → World T → Type 0
Rooted fs env root w = (w.fs ≡ fs) × (w.env ≡ env) × (w.install_path ≡ some (some root))

pub found_root :
    (e : Text) (found : Option FilePath) (r : FilePath) → ok_or e found ≡ Base.ok r → found ≡ some r
found_root e none r h = absurd (cc h)
found_root e (some x) r h = cc h

again-Leads :
    {T : Type 0} (fs : FileSystem) (env : Text → EnvVar) (root : FilePath)
    → Leads {T = T}
        (Rooted fs env root)
        wow_install_path
        (λ found w. Rooted fs env root w × ((r : FilePath) → found ≡ some r → r ≡ root))
again-Leads fs env root = record {
  at = λ w found (files, same, known) good.
      let h = wow_install_path-IsRemembered w found good in
      let stays = h.stays (some root) known in
      ((h.same_fs ∙ files, h.same_env ∙ same, stays), λ r is. cc (h.remembered r is, stays));
}

module _ (c : Cascette) where
  -- A read of the requested build that gave a build
  abbrev pub IsRead :
      (T : Type 0) → ResolverPaths → FileSystem → (Text → EnvVar) → FilePath → ActiveBuild → Type 0
  IsRead T paths fs env root active =
      (v : World T) × (v.fs ≡ fs)
      × (v.env ≡ env)
      × ((read_requested_build c paths root v).0 ≡ ok active)

  -- A state of a build
  abbrev pub OfBuild : ActiveBuild → CascState c → Type 0
  OfBuild active s =
      (i : AssetIdentity) × (new (ActiveBuild.product active) (ActiveBuild.build_key active)
        ≡ Base.ok i)
      × (CascState.identity s ≡ some i)

lift-Ensures : {T A : Type 0} (r : Result A) → Ensures {T = T} (lift r) (λ a _. r ≡ Base.ok a)
lift-Ensures r = record { at = λ w a good. lift-eq-ok r w a good }

module _ (c : Cascette) (q : Sqlite) {T : Type 0} (paths : ResolverPaths) where
  because :
      {F : ActiveBuild → Type 0} (active : ActiveBuild) {m : Io T (CascState c)}
      → Leads (λ _. F active) m (λ s _. F active × OfBuild c active s)
      → Leads (λ _. F active) m (λ s _. (a : ActiveBuild) × F a × OfBuild c a s)
  because active h = record {
    at = λ w s fact good. let (kept, of_build) = h.at w s fact good in (active, kept, of_build);
  }

  pub init_casc-Leads :
      (fs : FileSystem) (env : Text → EnvVar) (root : FilePath)
      → Leads {T = T}
          (Rooted fs env root)
          (init_casc c q paths)
          (λ s _. (active : ActiveBuild) × IsRead c T paths fs env root active × OfBuild c active s)
  unfolding init_casc init_state
  init_casc-Leads fs env root = bind-Leads _ (again-Leads fs env root) (λ found.
      bind-Leads _ (lift-Leads _) (λ install_root.
        bind-Leads _ (keep-Leads (exists-Preserves _)) (λ there.
          if-Leads (not there) (throw-Leads _) (
            bind-Leads _ (keep-Leads (gets-Preserves _)) (λ files.
              bind-Leads _ (keep-Leads (map_err-Preserves _ (lift-Preserves _))) (λ install.
                bind-Leads {S = λ active _. IsRead c T paths fs env root active} _
                  (record {
                    at = λ w active (((same, env', _), is_root), has) good. (
                      w,
                      same,
                      env',
                      ap (λ r. (read_requested_build c paths r w).0)
                            (sym (is_root install_root (found_root _ found install_root has)))
                          ∙ good,
                    );
                  })
                  (λ active. because active (
                    fact-Leads (
                      later-Ensures _ (λ keys. later-Ensures _ (λ ready. later-Ensures _ (λ cache.
                        next-Ensures _ (
                          bind-Ensures _ (lift-Ensures _) (λ i w s is good. (
                            i,
                            is,
                            ap CascState.identity (sym (pure-eq-ok _ s w good)),
                          )))))))))))))))
