-- ===== src/Resolver/Requests.antt =====
-- src/casc_resolver.rs: which namespace a request is answered from.
use asset_resolver.Base.{
  ◌≡◌, refl, sym, ap, ◌∙◌, Text, txt, FilePath, Option, none, some, ok_or, Result,
}
use asset_resolver.Base
use asset_resolver.Identity.{new}
use asset_resolver.Paths.{ResolverPaths}
use asset_resolver.RuntimeMode.{effective_runtime_mode, guard_casc_access}
use asset_resolver.World.Fs.{FileSystem}
use asset_resolver.World.Io.{World, Io, ok, pure, throw}
use asset_resolver.World.Inversion.{>>=-next, >>-next, pure-eq-ok, lift-eq-ok}
use asset_resolver.World.Files.{run-Leaves}
use asset_resolver.World.Laws.{lift-IsReader}
use asset_resolver.Install.{wow_install_path}
use asset_resolver.Install.Remembers.{wow_install_path-IsRemembered}
use asset_resolver.Casc.{Cascette}
use asset_resolver.Sqlite.{Sqlite}
use asset_resolver.Build.{ActiveBuild, read_requested_build}
use asset_resolver.CascState.{CascState}
use asset_resolver.Resolver.States.{
  Statics, CascNamespace, namespace_eq, get_casc, get_cell, remember_state,
}

module _ (c : Cascette) (q : Sqlite) where
  -- The namespace of the build that is read from these files, below the cache root
  abbrev pub IsRequested : ResolverPaths → FileSystem → CascNamespace → Type 0
  IsRequested paths fs ns =
      (root : FilePath) × (v : World (Statics c q)) × (active : ActiveBuild) × (v.fs ≡ fs)
      × ((read_requested_build c paths root v).0 ≡ ok active)
      × (new (ActiveBuild.product active) (ActiveBuild.build_key active) ≡ Base.ok ns.1)
      × (ns.0 ≡ paths.cache_root)

  answered :
      (ns ns' : CascNamespace) (result : Result (CascState c)) (w : World (Statics c q))
      → (let step : Io (Statics c q) CascNamespace = elim result [
        | Base.ok _ ↦ pure ns
        | Base.err e ↦ throw e
      ] in
          (step w).0)
        ≡ ok ns'
      → ns ≡ ns'
  unfolding throw
  answered ns ns' (Base.ok s) w h = pure-eq-ok ns ns' w h
  answered ns ns' (Base.err e) w h = absurd (cc h)

  get_cell-eq-ok :
      (paths : ResolverPaths) (ns ns' : CascNamespace) (cell : Option (Result (CascState c)))
      (w : World (Statics c q))
      → (get_cell c q paths ns cell w).0 ≡ ok ns'
      → ns ≡ ns'
  unfolding get_cell remember_state throw
  get_cell-eq-ok paths ns ns' (some (Base.ok s)) w h = pure-eq-ok ns ns' w h
  get_cell-eq-ok paths ns ns' (some (Base.err e)) w h = absurd (cc h)
  get_cell-eq-ok paths ns ns' none w h =
      let (result, _, rest, _) = >>=-next _ _ w ns' h in
      let (_, last, _) = >>-next _ _ _ ns' rest in answered ns ns' result _ last

  found_root :
      (e : Text) (found : Option FilePath) (r : FilePath)
      → ok_or e found ≡ Base.ok r
      → found ≡ some r
  found_root e none r h = absurd (cc h)
  found_root e (some x) r h = cc h

  -- A request that is answered is answered from the namespace of the build that it reads.
  pub get_casc-IsRequested :
      (paths : ResolverPaths) (w : World (Statics c q)) (ns : CascNamespace)
      → (get_casc c q paths w).0 ≡ ok ns
      → IsRequested paths w.fs ns
  unfolding get_casc get_cell remember_state
  get_casc-IsRequested paths w ns h =
      let (mode, _, h1, _) = >>=-next _ _ w ns h in
      let (allowed, _, h2, _) = >>=-next _ _ _ ns h1 in
      let (_, h3, _) = >>-next _ _ _ ns h2 in
      let (found, looked, h4, _) = >>=-next wow_install_path _ _ ns h3 in
      let (root, rooted, h5, _) = >>=-next _ _ _ ns h4 in
      let (active, read, h6, _) = >>=-next (read_requested_build c paths root) _ _ ns h5 in
      let (i, named, h7, _) = >>=-next _ _ _ ns h6 in
      let (states, _, h8, _) = >>=-next _ _ _ ns h7 in
      let same = get_cell-eq-ok paths (paths.cache_root, i) ns _ _ h8 in
      let kept1 =
        (run-Leaves (λ fs. fs ≡ w.fs) (effective_runtime_mode paths.runtime_mode)).at w refl in
      let kept2 =
        (run-Leaves (λ fs. fs ≡ w.fs) (guard_casc_access mode (txt "open CASC state"))).at _
          kept1 in
      let kept3 = ((lift-IsReader allowed).at _).fs ∙ kept2 in
      let kept4 = (wow_install_path-IsRemembered _ found looked).same_fs ∙ kept3 in
      let kept5 = ((lift-IsReader (ok_or (txt "WoW install not found") found)).at _).fs ∙ kept4 in
      (
        root,
        _,
        active,
        kept5,
        read,
        lift-eq-ok _ _ i named ∙ ap (λ n. Base.ok n.1) same,
        ap (λ n. n.0) (sym same),
      )
