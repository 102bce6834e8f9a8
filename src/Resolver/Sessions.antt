-- ===== src/Resolver/Sessions.antt =====
-- src/casc_resolver.rs and src/lib.rs: a sequence of requests of one process, and the identities that its
-- open states are filed under.
use asset_resolver.Base.{
  ◌≡◌, refl, sym, ap, ◌∙◌, ℕ, Text, txt, FilePath, Option, none, some, Result, List, [], ◌∷◌, ◌++◌,
  ◌==◌, if◌then◌else◌,
}
use asset_resolver.Base
use asset_resolver.Base.Assoc.{lookup}
use asset_resolver.Paths.{ResolverPaths}
use asset_resolver.World.Io.{World, panicked, is_file}
use asset_resolver.World.Statics.{is_file-Holds, answer-Holds}
use asset_resolver.World.Files.{
  bind-Preserves, then-Preserves, map_err-Preserves, attempt-Preserves, pure-Preserves,
  throw-Preserves, lift-Preserves, if-Preserves, result-Preserves, option-Preserves,
}
use asset_resolver.Casc.{Cascette}
use asset_resolver.Sqlite.{Sqlite}
use asset_resolver.Install.Foreign.{wow_install_path-Holds}
use asset_resolver.Resolver.Foreign.{build-Holds}
use asset_resolver.Resolver.Identities.{IsFiled, IsFiled-Preserves}
use asset_resolver.Resolver.Filed.{
  Files, runs-Files, eprintln-Files, initialize_with_paths-Files,
  extract_fdid_to_path_with_paths-Files, resolve_bytes_with_paths-Files,
}
use asset_resolver.Resolver.States.{
  Statics, namespace_eq, extract_current, read_current_asset_path, published_relative,
  ensure_file_cached_checked_with_paths,
}
use asset_resolver.Resolver.Api.{
  initialize, resolve_bytes, ensure_cached_checked, ensure_cached, legacy_error, expect_allowed,
}

module _ (c : Cascette) (q : Sqlite) where
  pub is_file-Files : (p : FilePath) → Files c q (is_file p)
  is_file-Files p = IsFiled-Preserves c q (is_file-Holds p)

  initialize-Files : (paths : ResolverPaths) → Files c q (initialize c q paths)
  unfolding initialize
  initialize-Files paths =
      bind-Preserves (runs-Files c q _)
        (λ mode. if-Preserves _ (pure-Preserves tt) (initialize_with_paths-Files c q paths))

  module _ (listfile : ℕ → Option Text) where
    pub read_current_asset_path-Files :
        (paths : ResolverPaths) (p : FilePath)
        → Files c q (read_current_asset_path c q listfile paths p)
    unfolding read_current_asset_path published_relative
    read_current_asset_path-Files paths p =
        option-Preserves paths.identity
          (λ published.
            bind-Preserves (IsFiled-Preserves c q (wow_install_path-Holds (IsFiled c q))) (λ found.
              bind-Preserves (lift-Preserves _) (λ root.
                bind-Preserves (IsFiled-Preserves c q (build-Holds c q (IsFiled c q) paths root))
                  (λ active. bind-Preserves (lift-Preserves _) (λ current.
                    bind-Preserves (lift-Preserves _) (λ relative. pure-Preserves _))))))
          (pure-Preserves p)

    extract_current-Files :
        (paths : ResolverPaths) (fdid : ℕ) (p : FilePath)
        → Files c q (extract_current c q listfile paths fdid p)
    unfolding extract_current
    extract_current-Files paths fdid p = then-Preserves (eprintln-Files c q _) (
        bind-Preserves
          (map_err-Preserves _ (extract_fdid_to_path_with_paths-Files c q listfile paths fdid p))
          (λ extracted. pure-Preserves _))

    current-Files :
        (paths : ResolverPaths) (fdid : ℕ) (p : FilePath)
        → Files c q (ensure_file_cached_checked_with_paths c q listfile paths fdid p)
    unfolding ensure_file_cached_checked_with_paths extract_current
    current-Files paths fdid p = bind-Preserves (lift-Preserves _) (λ shared.
        bind-Preserves (is_file-Files shared) (λ cached.
          if-Preserves cached (pure-Preserves shared) (
            bind-Preserves (runs-Files c q _) (λ mode. if-Preserves _ (throw-Preserves _) (
              bind-Preserves (read_current_asset_path-Files paths shared) (λ current.
                bind-Preserves (is_file-Files current) (λ there.
                  if-Preserves there (pure-Preserves current)
                    (extract_current-Files paths fdid current))))))))

    ensure_cached_checked-Files :
        (paths : ResolverPaths) (fdid : ℕ) (p : FilePath)
        → Files c q (ensure_cached_checked c q listfile paths fdid p)
    unfolding ensure_cached_checked
    ensure_cached_checked-Files paths fdid p = bind-Preserves (lift-Preserves _) (λ expected.
        bind-Preserves (is_file-Files expected) (λ cached.
          if-Preserves cached (pure-Preserves expected) (
            bind-Preserves (runs-Files c q _)
              (λ mode. if-Preserves _ (throw-Preserves _) (current-Files paths fdid p)))))

    legacy_error-Files :
        (paths : ResolverPaths) (e : Text) → Files c q (legacy_error c q listfile paths e)
    unfolding legacy_error
    legacy_error-Files paths e = bind-Preserves (runs-Files c q _) (λ mode.
        if-Preserves _ (throw-Preserves e)
          (then-Preserves (eprintln-Files c q _) (pure-Preserves none)))

    ensure_cached-Files :
        (paths : ResolverPaths) (fdid : ℕ) (p : FilePath)
        → Files c q (ensure_cached c q listfile paths fdid p)
    unfolding ensure_cached legacy_error
    ensure_cached-Files paths fdid p =
        bind-Preserves (attempt-Preserves (ensure_cached_checked-Files paths fdid p))
          (λ answer. result-Preserves answer (λ found. pure-Preserves _) (legacy_error-Files paths))

    pub expect_allowed-Files : (r : Result (Unit {0})) → Files c q (expect_allowed c q listfile r)
    unfolding expect_allowed
    expect_allowed-Files (Base.ok _) = pure-Preserves tt
    expect_allowed-Files (Base.err _) = IsFiled-Preserves c q (answer-Holds panicked)

    resolve_bytes-Files :
        (paths : ResolverPaths) (fdid : ℕ) → Files c q (resolve_bytes c q listfile paths fdid)
    unfolding resolve_bytes expect_allowed
    resolve_bytes-Files paths fdid = bind-Preserves (runs-Files c q _) (λ mode.
        if-Preserves _
          (bind-Preserves (runs-Files c q _) (λ allowed.
            then-Preserves (expect_allowed-Files allowed)
              (resolve_bytes_with_paths-Files c q listfile paths fdid)))
          (resolve_bytes_with_paths-Files c q listfile paths fdid))

  -- The worlds that a process comes to: it starts with no state open, and asks the resolver in any order,
  -- with any paths and any listfile. In between, the files, the clock, the environment and the policy may
  -- change in any way.
  pub data Session : World (Statics c q) → Type 0 where
    starts : {w : World (Statics c q)} → w.statics ≡ [] → Session w
    initializes :
        {w : World (Statics c q)} (paths : ResolverPaths)
        → Session w
        → Session (initialize c q paths w).1
    resolves :
        {w : World (Statics c q)} (listfile : ℕ → Option Text) (paths : ResolverPaths) (fdid : ℕ)
        → Session w
        → Session (resolve_bytes c q listfile paths fdid w).1
    checks :
        {w : World (Statics c q)} (listfile : ℕ → Option Text) (paths : ResolverPaths) (fdid : ℕ)
        (out_path : FilePath)
        → Session w
        → Session (ensure_cached_checked c q listfile paths fdid out_path w).1
    caches :
        {w : World (Statics c q)} (listfile : ℕ → Option Text) (paths : ResolverPaths) (fdid : ℕ)
        (out_path : FilePath)
        → Session w
        → Session (ensure_cached c q listfile paths fdid out_path w).1
    meanwhile : {w w' : World (Statics c q)} → w'.statics ≡ w.statics → Session w → Session w'

  no_state : (states : Statics c q) → states ≡ [] → IsFiled c q states
  unfolding lookup
  no_state [] h ns s found = absurd (cc found)
  no_state (_ ∷ _) h ns s found = absurd (cc h)

  -- Whatever a process asks of the resolver, in any order, and whatever happens between its requests:
  -- every state that it has open has the identity that it is filed under. No other process changes the
  -- files while a request runs.
  pub Session-IsFiled : (w : World (Statics c q)) → Session w → IsFiled c q w.statics
  Session-IsFiled w (starts h) = no_state w.statics h
  Session-IsFiled _ (initializes {w = w} paths before) =
      (initialize-Files paths).at w (Session-IsFiled w before)
  Session-IsFiled _ (resolves {w = w} listfile paths fdid before) =
      (resolve_bytes-Files listfile paths fdid).at w (Session-IsFiled w before)
  Session-IsFiled _ (checks {w = w} listfile paths fdid out_path before) =
      (ensure_cached_checked-Files listfile paths fdid out_path).at w (Session-IsFiled w before)
  Session-IsFiled _ (caches {w = w} listfile paths fdid out_path before) =
      (ensure_cached-Files listfile paths fdid out_path).at w (Session-IsFiled w before)
  Session-IsFiled w' (meanwhile {w = w} same before) = rw same (Session-IsFiled w before)
