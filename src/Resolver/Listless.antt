-- ===== src/Resolver/Listless.antt =====
-- src/casc_resolver.rs and src/lib.rs: what the listfile's answers change in a request.
use asset_resolver.Base.{
  ◌≡◌, refl, sym, ap, ◌∙◌, ℕ, Text, txt, FilePath, Option, none, some, Result, List, [], ◌∷◌, ◌++◌,
  ◌==◌, if◌then◌else◌,
}
use asset_resolver.Base
use asset_resolver.Base.Assoc.{lookup}
use asset_resolver.Paths.{ResolverPaths, missing_extracted_asset}
use asset_resolver.RuntimeMode.{extracted_only, mode_eq}
use asset_resolver.World.Io.{World, Io, pure, throw, with_statics}
use asset_resolver.World.Files.{bind-Preserves, then-Preserves, lift-Preserves, attempt-Preserves}
use asset_resolver.World.Agrees.{
  Agrees, same-Agrees, after-Agrees, next-Agrees, first-Agrees, map_err-Agrees, attempt-Agrees,
  if-Agrees, both-Agrees, start-Agrees, result-Agrees,
}
use asset_resolver.Casc.{Cascette, MissingKeyChunk}
use asset_resolver.Sqlite.{Sqlite}
use asset_resolver.CascState.{CascState}
use asset_resolver.Resolver.Extract.{read_fdid_bytes}
use asset_resolver.Resolver.ReadLaws.{read_fdid_bytes-listfile}
use asset_resolver.Resolver.Identities.{IsFiled}
use asset_resolver.Resolver.Filed.{
  get_casc-Files, ready-Files, runs-Files, eprintln-Files, read-Files,
}
use asset_resolver.Resolver.Sessions.{
  Session, Session-IsFiled, is_file-Files, expect_allowed-Files, read_current_asset_path-Files,
}
use asset_resolver.Resolver.States.{
  Statics, CascNamespace, namespace_eq, on_casc, run_method, back, refuse_partial,
  extract_fdid_to_path_with_paths, no_bytes, resolve_bytes_with_paths, published_relative,
  read_current_asset_path, extract_current, ensure_file_cached_checked_with_paths,
}
use asset_resolver.Resolver.Api.{resolve_bytes, expect_allowed, ensure_cached_checked}

module _ (c : Cascette) (q : Sqlite) (before after : ℕ → Option Text) where
  -- The same of the two, where every open state has its identity
  abbrev Alike : {A : Type 0} → Io (Statics c q) A → Io (Statics c q) A → Type 0
  Alike m n = Agrees (λ w. IsFiled c q w.statics) m n

  read-at :
      (ns : CascNamespace) (fdid : ℕ) (found : Option (Result (CascState c)))
      (w : World (Statics c q))
      → ((s : CascState c) → found ≡ some (Base.ok s) → CascState.identity s ≡ some ns.1)
      → run_method c q ns found (read_fdid_bytes c before q fdid) w
        ≡ run_method c q ns found (read_fdid_bytes c after q fdid) w
  unfolding run_method back
  read-at ns fdid (some (Base.ok s)) w of_build = ap (back c q ns) (
      read_fdid_bytes-listfile c q before after fdid ns.1 (with_statics w (s, w.statics))
        (of_build s refl))
  read-at ns fdid (some (Base.err e)) w of_build = refl
  read-at ns fdid none w of_build = refl

  read-Alike :
      (ns : CascNamespace) (fdid : ℕ)
      → Alike
          (on_casc c q ns (read_fdid_bytes c before q fdid))
          (on_casc c q ns (read_fdid_bytes c after q fdid))
  unfolding on_casc run_method back
  read-Alike ns fdid = record { at = λ w filed. read-at ns fdid (lookup ns w.statics) w (filed ns) }

  refuse_same :
      (paths : ResolverPaths) (fdid : ℕ) (keys : List MissingKeyChunk)
      → refuse_partial c q before {T = Statics c q} paths fdid keys
        ≡ refuse_partial c q after paths fdid keys
  unfolding refuse_partial
  refuse_same paths fdid [] = refl
  refuse_same paths fdid (k ∷ ks) = refl

  same_step : {A : Type 0} {m n : Io (Statics c q) A} → m ≡ n → Alike m n
  same_step h = record { at = λ w filed. ap (λ k. k w) h }

  extract-Alike :
      (paths : ResolverPaths) (fdid : ℕ) (p : FilePath)
      → Alike
          (extract_fdid_to_path_with_paths c q before paths fdid p)
          (extract_fdid_to_path_with_paths c q after paths fdid p)
  unfolding extract_fdid_to_path_with_paths
  extract-Alike paths fdid p = after-Agrees (get_casc-Files c q paths) (λ ns.
      next-Agrees (ready-Files c q ns) (
        both-Agrees (read-Alike ns fdid) (read-Files c q after ns fdid)
          (λ found. start-Agrees _ (same_step (refuse_same paths fdid _)))))

  no_bytes_same :
      (fdid : ℕ) (e : Text)
      → no_bytes c q before {T = Statics c q} fdid e ≡ no_bytes c q after fdid e
  unfolding no_bytes
  no_bytes_same fdid e = refl

  resolve-Alike :
      (paths : ResolverPaths) (fdid : ℕ)
      → Alike
          (resolve_bytes_with_paths c q before paths fdid)
          (resolve_bytes_with_paths c q after paths fdid)
  unfolding resolve_bytes_with_paths no_bytes
  resolve-Alike paths fdid =
      both-Agrees
        (attempt-Agrees (
          after-Agrees (get_casc-Files c q paths)
            (λ ns. next-Agrees (ready-Files c q ns) (read-Alike ns fdid))))
        (attempt-Preserves (
          bind-Preserves (get_casc-Files c q paths)
            (λ ns. then-Preserves (ready-Files c q ns) (read-Files c q after ns fdid))))
        (λ bytes.
          result-Agrees bytes (λ found. same-Agrees _) (λ e. same_step (no_bytes_same fdid e)))

  expect_same :
      (r : Result (Unit {0}))
      → expect_allowed c q before {T = Statics c q} r ≡ expect_allowed c q after r
  unfolding expect_allowed
  expect_same (Base.ok _) = refl
  expect_same (Base.err _) = refl

  bytes-Alike :
      (paths : ResolverPaths) (fdid : ℕ)
      → Alike (resolve_bytes c q before paths fdid) (resolve_bytes c q after paths fdid)
  unfolding resolve_bytes expect_allowed
  bytes-Alike paths fdid = after-Agrees (runs-Files c q _) (λ mode.
      if-Agrees _
        (after-Agrees (runs-Files c q _) (λ allowed. (record {
          at = λ w filed.
              (start-Agrees _ (same_step (expect_same allowed))).at w filed
              ∙ (next-Agrees (expect_allowed-Files c q after allowed) (resolve-Alike paths fdid)).at
                  w filed;
        })))
        (resolve-Alike paths fdid))

  current_path_same :
      (paths : ResolverPaths) (p : FilePath)
      → read_current_asset_path c q before paths p ≡ read_current_asset_path c q after paths p
  unfolding read_current_asset_path published_relative
  current_path_same paths p = refl

  extract_current-Alike :
      (paths : ResolverPaths) (fdid : ℕ) (p : FilePath)
      → Alike (extract_current c q before paths fdid p) (extract_current c q after paths fdid p)
  unfolding extract_current
  extract_current-Alike paths fdid p =
      next-Agrees (eprintln-Files c q _)
        (first-Agrees _ (map_err-Agrees _ (extract-Alike paths fdid p)))

  current-Alike :
      (paths : ResolverPaths) (fdid : ℕ) (p : FilePath)
      → Alike
          (ensure_file_cached_checked_with_paths c q before paths fdid p)
          (ensure_file_cached_checked_with_paths c q after paths fdid p)
  unfolding ensure_file_cached_checked_with_paths extract_current
  current-Alike paths fdid p = after-Agrees (lift-Preserves _) (λ shared.
      after-Agrees (is_file-Files c q shared) (λ cached. if-Agrees cached (same-Agrees _) (
        after-Agrees (runs-Files c q _) (λ mode.
          if-Agrees (mode == extracted_only)
            (same-Agrees (throw (missing_extracted_asset paths fdid shared)))
            (both-Agrees (same_step (current_path_same paths shared))
              (read_current_asset_path-Files c q after paths shared)
              (λ current. after-Agrees (is_file-Files c q current) (λ there.
                if-Agrees there (same-Agrees (pure current))
                  (extract_current-Alike paths fdid current))))))))

  checked-Alike :
      (paths : ResolverPaths) (fdid : ℕ) (p : FilePath)
      → Alike
          (ensure_cached_checked c q before paths fdid p)
          (ensure_cached_checked c q after paths fdid p)
  unfolding ensure_cached_checked
  checked-Alike paths fdid p = after-Agrees (lift-Preserves _) (λ expected.
      after-Agrees (is_file-Files c q expected) (λ cached. if-Agrees cached (same-Agrees _) (
        after-Agrees (runs-Files c q _) (λ mode.
          if-Agrees (mode == extracted_only)
            (same-Agrees (throw (missing_extracted_asset paths fdid expected)))
            (current-Alike paths fdid p)))))

  -- The answers of the listfile make no difference: wherever a process has come to by its requests, a
  -- checked lookup and a byte resolve have the same answers and effects whatever the listfile says. No
  -- other process changes the files while a request runs.
  pub Session-listfile :
      (w : World (Statics c q)) (paths : ResolverPaths) (fdid : ℕ) (out_path : FilePath)
      → Session c q w
      → (ensure_cached_checked c q before paths fdid out_path w
          ≡ ensure_cached_checked c q after paths fdid out_path w)
        × (resolve_bytes c q before paths fdid w ≡ resolve_bytes c q after paths fdid w)
  Session-listfile w paths fdid out_path session =
      let filed = Session-IsFiled c q w session in
      ((checked-Alike paths fdid out_path).at w filed, (bytes-Alike paths fdid).at w filed)
