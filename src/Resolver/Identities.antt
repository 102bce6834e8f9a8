-- ===== src/Resolver/Identities.antt =====
-- src/casc_resolver.rs: the identity that an open state is filed under.
use asset_resolver.Base.{
  ◌≡◌, refl, sym, ap, ◌∙◌, ◌⊎◌, inl, inr, Text, txt, FilePath, path, join, display, Option, none,
  some, Bool, Bool-cases, true, false, not, Result, ok_or, List, [], ◌∷◌, ◌++◌, ◌==◌, if◌then◌else◌,
  eq→≡,
}
use asset_resolver.Base
use asset_resolver.Base.Assoc.{lookup, insert, lookup-insert}
use asset_resolver.Identity.{AssetIdentity, new}
use asset_resolver.Paths.{ResolverPaths}
use asset_resolver.RuntimeMode.{Run}
use asset_resolver.World.Io.{World, Io, ok, pure, throw, lift, attempt, run}
use asset_resolver.World.Files.{
  Preserves, gets-Preserves, lift-Preserves, throw-Preserves, pure-Preserves,
}
use asset_resolver.World.Ensures.{
  Guards, bind-Guards, keep-Guards, then-Guards, Leads, keep-Leads, lift-Leads,
}
use asset_resolver.World.Statics.{Holds, attempt-Holds, run-Holds}
use asset_resolver.World.Inversion.{attempt-eq-ok}
use asset_resolver.Install.{wow_install_path}
use asset_resolver.Install.Remembers.{wow_install_path-IsRemembered}
use asset_resolver.Casc.{Cascette}
use asset_resolver.Sqlite.{Sqlite}
use asset_resolver.Build.{ActiveBuild, read_requested_build}
use asset_resolver.Build.Laws.{read_requested_build-IsReader}
use asset_resolver.Build.Active.{read_requested_build_unique}
use asset_resolver.CascState.{CascState}
use asset_resolver.Resolver.Foreign.{init_casc-Holds, build-Holds}
use asset_resolver.Install.Foreign.{wow_install_path-Holds}
use asset_resolver.Resolver.States.{
  Statics, CascNamespace, namespace_eq, init_casc, get_casc, get_cell, remember_state,
}
use asset_resolver.Resolver.Opening.{IsRead, found_root, init_casc-Leads}

-- Every open state has the identity that it is filed under.
abbrev pub IsFiled : (c : Cascette) (q : Sqlite) → Statics c q → Type 0
IsFiled c q states =
    (ns : CascNamespace) (s : CascState c)
    → lookup ns states ≡ some (Base.ok s)
    → CascState.identity s ≡ some ns.1

found_at :
    {A : Type 0} {G : Type 0} (b : Bool) (new_one : Result A) (found : Option (Result A)) (s : A)
    → (b ≡ true → new_one ≡ Base.ok s → G)
    → (found ≡ some (Base.ok s) → G)
    → (if b then some new_one else found) ≡ some (Base.ok s)
    → G
found_at true new_one found s h k e = h refl (cc e)
found_at false new_one found s h k e = k e

module _ (c : Cascette) (q : Sqlite) where
  pub insert-IsFiled :
      (ns : CascNamespace) (result : Result (CascState c)) (states : Statics c q)
      → IsFiled c q states
      → ((s : CascState c) → result ≡ Base.ok s → CascState.identity s ≡ some ns.1)
      → IsFiled c q (insert ns result states)
  insert-IsFiled ns result states filed new_one other s h =
      found_at (ns == other) result (lookup other states) s
        (λ same is. new_one s is ∙ ap (λ x. some x.1) (eq→≡ ns other same)) (filed other s)
        (sym (lookup-insert other ns result states) ∙ h)

  -- The outcome that a cell remembers is that of a state with its identity.
  remember-Guards :
      (ns : CascNamespace) (result : Result (CascState c))
      → Guards
          (λ w.
            IsFiled c q w.statics
            × ((s : CascState c) → result ≡ Base.ok s → CascState.identity s ≡ some ns.1))
          (remember_state c q ns result)
          (λ w. IsFiled c q w.statics)
  unfolding remember_state
  remember-Guards ns result = record {
    at = λ w (filed, new_one). insert-IsFiled ns result w.statics filed new_one;
  }

  pub IsFiled-Preserves :
      {A : Type 0} {m : Io (Statics c q) A}
      → Holds (IsFiled c q) m
      → Preserves (λ w. IsFiled c q w.statics) m
  IsFiled-Preserves h = record { at = h.at }

  -- The world behind a read of the requested build
  abbrev IsKnown : ResolverPaths → FilePath → ActiveBuild → World (Statics c q) → Type 0
  IsKnown paths root active w =
      IsFiled c q w.statics
      × (w.install_path ≡ some (some root))
      × IsRead c (Statics c q) paths w.fs w.env root active

  first-Leads :
      Leads
        (λ w. IsFiled c q w.statics)
        wow_install_path
        (λ found w.
          IsFiled c q w.statics
          × ((r : FilePath) → found ≡ some r → w.install_path ≡ some (some r)))
  first-Leads = record {
    at = λ w found filed good. (
      (wow_install_path-Holds (IsFiled c q)).at w filed,
      (wow_install_path-IsRemembered w found good).remembered,
    );
  }

  runs :
      {A : Type 0} (m : Run A)
      → Guards (λ w. IsFiled c q w.statics) (run {T = Statics c q} m) (λ w. IsFiled c q w.statics)
  runs m = keep-Guards (λ w filed. filed) (IsFiled-Preserves (run-Holds m))

  lifts :
      {A : Type 0} (r : Result A)
      → Guards (λ w. IsFiled c q w.statics) (lift {T = Statics c q} r) (λ w. IsFiled c q w.statics)
  lifts r = keep-Guards (λ w filed. filed) (lift-Preserves r)

  opened-Leads :
      (paths : ResolverPaths) (root : FilePath) (active : ActiveBuild) (i : AssetIdentity)
      → new active.product active.build_key ≡ Base.ok i
      → Leads (IsKnown paths root active) (attempt (init_casc c q paths)) (λ result w.
        IsFiled c q w.statics
        × ((s : CascState c) → result ≡ Base.ok s → CascState.identity s ≡ some i))
  opened-Leads paths root active i is = record {
    at = λ w result (filed, known, (v, files, env, read)) good. (
      (attempt-Holds (init_casc-Holds c q (IsFiled c q) paths)).at w filed,
      λ s opened.
          let (again, (v', files', env', read'), (j, is', identity)) =
            (init_casc-Leads c q paths w.fs w.env root).at w s (refl, refl, known)
              (attempt-eq-ok (init_casc c q paths) w s (good ∙ ap ok opened)) in
          let (product, key) =
            read_requested_build_unique c paths root v v' active again (files ∙ sym files')
              (env ∙ sym env') read read' in
          let same : new active.product active.build_key ≡ new again.product again.build_key =
            ap (λ p. new p active.build_key) product ∙ ap (new again.product) key in
          identity ∙ cc (is, is', same),
    );
  }

  answer-Guards :
      (ns : CascNamespace) (result : Result (CascState c))
      → Preserves
          (λ w. IsFiled c q w.statics)
          (let step : Io (Statics c q) CascNamespace = elim result [
            | Base.ok _ ↦ pure ns
            | Base.err e ↦ throw e
          ] in
            step)
  answer-Guards ns (Base.ok s) = pure-Preserves ns
  answer-Guards ns (Base.err e) = throw-Preserves e

  get_cell-Guards :
      (paths : ResolverPaths) (root : FilePath) (active : ActiveBuild) (i : AssetIdentity)
      (cell : Option (Result (CascState c)))
      → new active.product active.build_key ≡ Base.ok i
      → Guards
          (IsKnown paths root active)
          (get_cell c q paths (paths.cache_root, i) cell)
          (λ w. IsFiled c q w.statics)
  unfolding get_cell remember_state
  get_cell-Guards paths root active i (some (Base.ok s)) is =
      keep-Guards (λ w known. known.0) (pure-Preserves _)
  get_cell-Guards paths root active i (some (Base.err e)) is =
      keep-Guards (λ w known. known.0) (throw-Preserves e)
  get_cell-Guards paths root active i none is =
      let ns : CascNamespace = (paths.cache_root, i) in
      bind-Guards _
        (keep-Guards (λ w known. known.0)
          (IsFiled-Preserves (attempt-Holds (init_casc-Holds c q (IsFiled c q) paths))))
        (opened-Leads paths root active i is)
        (λ result.
          then-Guards _ (remember-Guards ns result)
            (keep-Guards (λ w filed. filed) (answer-Guards ns result)))

  read-Leads :
      (paths : ResolverPaths) (found : Option FilePath) (root : FilePath) (e : Text)
      → Leads
          (λ w.
            (IsFiled c q w.statics
              × ((r : FilePath) → found ≡ some r → w.install_path ≡ some (some r)))
            × (ok_or e found ≡ Base.ok root))
          (read_requested_build c paths root)
          (IsKnown paths root)
  read-Leads paths found root e = record {
    at = λ w active ((filed, known), has) good.
        let h = (read_requested_build-IsReader c paths root).at w in
        (
          (build-Holds c q (IsFiled c q) paths root).at w filed,
          h.install_path ∙ known root (found_root e found root has),
          (w, sym h.fs, sym h.env, good),
        );
  }

  casc-Guards :
      (paths : ResolverPaths)
      → Guards (λ w. IsFiled c q w.statics) (get_casc c q paths) (λ w. IsFiled c q w.statics)
  unfolding get_casc get_cell remember_state
  casc-Guards paths = bind-Guards _ (runs _) (keep-Leads (IsFiled-Preserves (run-Holds _))) (λ mode.
      bind-Guards _ (runs _) (keep-Leads (IsFiled-Preserves (run-Holds _))) (λ allowed.
        then-Guards _ (lifts allowed) (
          bind-Guards _
            (keep-Guards (λ w filed. filed)
              (IsFiled-Preserves (wow_install_path-Holds (IsFiled c q))))
            first-Leads
            (λ found.
              bind-Guards _ (keep-Guards (λ w h. h.0) (lift-Preserves _)) (lift-Leads _) (λ root.
                bind-Guards _
                  (keep-Guards (λ w h. h.0.0)
                    (IsFiled-Preserves (build-Holds c q (IsFiled c q) paths root)))
                  (read-Leads paths found root _)
                  (λ active.
                    bind-Guards _ (keep-Guards (λ w h. h.0) (lift-Preserves _)) (lift-Leads _) (λ i.
                      bind-Guards _ (keep-Guards (λ w h. h.0.0) (gets-Preserves _))
                        (keep-Leads (gets-Preserves _))
                        (λ states. record {
                          at = λ w (known, is).
                              (get_cell-Guards paths root active i _ is).at w known;
                        }))))))))

  -- If every open state has the identity that it is filed under, this still holds after a state
  -- is looked up, and so opened if need be, whatever the answer is.
  pub get_casc-IsFiled :
      (paths : ResolverPaths) (w : World (Statics c q))
      → IsFiled c q w.statics
      → IsFiled c q (get_casc c q paths w).1.statics
  get_casc-IsFiled paths w filed = (casc-Guards paths).at w filed
