-- ===== src/Resolver/Filed.antt =====
-- src/casc_resolver.rs: what the resolver's operations do to the identities of open states.
use asset_resolver.Base.{
  List, [], ◌∷◌, ◌++◌, ◌==◌, ◌≡◌, refl, sym, ap, ◌∙◌, ℕ, Text, txt, FilePath, Option, none, some,
  Result,
}
use asset_resolver.Base
use asset_resolver.Base.Assoc.{lookup}
use asset_resolver.Identity.{AssetIdentity}
use asset_resolver.Paths.{ResolverPaths}
use asset_resolver.RuntimeMode.{Run}
use asset_resolver.World.Io.{World, Io, Answer, eprintln, run, with_statics}
use asset_resolver.World.Laws.{eprintln-IsReader}
use asset_resolver.World.Statics.{run-Holds, reader-Holds}
use asset_resolver.World.Files.{
  Preserves, bind-Preserves, then-Preserves, map_err-Preserves, attempt-Preserves, pure-Preserves,
  throw-Preserves, lift-Preserves, if-Preserves, result-Preserves, option-Preserves,
}
use asset_resolver.Casc.{Cascette, MissingKeyChunk}
use asset_resolver.Sqlite.{Sqlite}
use asset_resolver.CascState.{CascState, Method, ensure_initialized}
use asset_resolver.CascState.Keeps.{
  IsOf, get_state-Preserves, reader-Kept, ensure_initialized-Kept, ensure_local_access-Kept,
  read_file_by_encoding_key-Kept, read_file_by_path-Kept,
}
use asset_resolver.Resolver.Extract.{
  read_fdid_bytes, resolved_content, read_fdid_bytes_by_encoding_key,
  read_fdid_bytes_by_listfile_path, warn_missing, write_to_path,
}
use asset_resolver.Resolver.Foreign.{write_to_path-Holds}
use asset_resolver.Resolver.Identities.{
  IsFiled, insert-IsFiled, IsFiled-Preserves, get_casc-IsFiled,
}
use asset_resolver.Resolver.States.{
  Statics, CascNamespace, namespace_eq, get_casc, on_casc, run_method, back, warm_local_access,
  initialize_with_paths, refuse_partial, extract_fdid_to_path_with_paths, resolve_bytes_with_paths,
  no_bytes,
}

-- A property of the states and the world of a method
abbrev Method-Kept :
    (c : Cascette) {T A : Type 0} → Option AssetIdentity → (T → Type 0) → Method c T A → Type 0
Method-Kept c i Q m = Preserves (λ w. IsOf c i Q w.statics) m

found_state : {A : Type 0} {a b : A} → Base.ok a ≡ Base.ok b → b ≡ a
found_state h = cc h

module _ (c : Cascette) {T : Type 0} (i : Option AssetIdentity) (Q : T → Type 0) where
  warn_missing-Kept :
      (fdid : ℕ) (keys : List MissingKeyChunk) → Method-Kept c i Q (warn_missing c fdid keys)
  unfolding warn_missing
  warn_missing-Kept fdid [] = pure-Preserves tt
  warn_missing-Kept fdid (k ∷ ks) = reader-Kept c i Q (eprintln-IsReader _)

  module _ (listfile : ℕ → Option Text) where
    resolved_content-Kept :
        (fdid : ℕ) (identity : Option AssetIdentity) (found : Option (Text × Text))
        → Method-Kept c i Q (resolved_content c listfile fdid identity found)
    unfolding resolved_content read_fdid_bytes_by_encoding_key read_fdid_bytes_by_listfile_path
    resolved_content-Kept fdid identity (some (_, key)) =
        map_err-Preserves _ (read_file_by_encoding_key-Kept c i Q key)
    resolved_content-Kept fdid none none =
        bind-Preserves (lift-Preserves _)
          (λ p. map_err-Preserves _ (read_file_by_path-Kept c i Q p))
    resolved_content-Kept fdid (some _) none = throw-Preserves _

    read_fdid_bytes-Kept :
        (q : Sqlite) (fdid : ℕ) → Method-Kept c i Q (read_fdid_bytes c listfile q fdid)
    unfolding read_fdid_bytes warn_missing
    read_fdid_bytes-Kept q fdid = bind-Preserves (get_state-Preserves c i Q) (λ s.
        bind-Preserves (resolved_content-Kept fdid _ _)
          (λ found. then-Preserves (warn_missing-Kept fdid _) (pure-Preserves found)))

module _ (c : Cascette) (q : Sqlite) where
  -- A computation that keeps every open state under its identity
  abbrev pub Files : {A : Type 0} → Io (Statics c q) A → Type 0
  Files m = Preserves (λ w. IsFiled c q w.statics) m

  back-IsFiled :
      {A : Type 0} (ns : CascNamespace) (r : Answer A × World (CascState c × Statics c q))
      → IsOf c (some ns.1) (IsFiled c q) r.1.statics
      → IsFiled c q (back c q ns r).1.statics
  unfolding back
  back-IsFiled ns (a, w) (of_build, filed) =
      insert-IsFiled c q ns (Base.ok w.statics.0) w.statics.1 filed
        (λ s same. ap (λ r. CascState.identity r) (found_state same) ∙ of_build)

  run_method-IsFiled :
      {A : Type 0} (ns : CascNamespace) (found : Option (Result (CascState c)))
      (m : Method c (Statics c q) A) (w : World (Statics c q))
      → Method-Kept c (some ns.1) (IsFiled c q) m
      → IsFiled c q w.statics
      → ((s : CascState c) → found ≡ some (Base.ok s) → CascState.identity s ≡ some ns.1)
      → IsFiled c q (run_method c q ns found m w).1.statics
  unfolding run_method back
  run_method-IsFiled ns (some (Base.ok s)) m w kept filed of_build =
      back-IsFiled ns (m (with_statics w (s, w.statics)))
        (kept.at (with_statics w (s, w.statics)) (of_build s refl, filed))
  run_method-IsFiled ns (some (Base.err e)) m w kept filed of_build = filed
  run_method-IsFiled ns none m w kept filed of_build = filed

  on_casc-Files :
      {A : Type 0} (ns : CascNamespace) {m : Method c (Statics c q) A}
      → Method-Kept c (some ns.1) (IsFiled c q) m
      → Files (on_casc c q ns m)
  unfolding on_casc run_method back
  on_casc-Files ns {m = m} kept = record {
    at = λ w filed. run_method-IsFiled ns (lookup ns w.statics) m w kept filed (filed ns);
  }

  pub get_casc-Files : (paths : ResolverPaths) → Files (get_casc c q paths)
  get_casc-Files paths = record { at = get_casc-IsFiled c q paths }

  pub runs-Files : {A : Type 0} (m : Run A) → Files (run m)
  runs-Files m = IsFiled-Preserves c q (run-Holds m)

  pub eprintln-Files : (line : Text) → Files (eprintln line)
  eprintln-Files line = IsFiled-Preserves c q (reader-Holds (eprintln-IsReader line))

  write_to_path-Files : (p : FilePath) (content : Text) → Files (write_to_path p content)
  write_to_path-Files p content =
      IsFiled-Preserves c q (write_to_path-Holds (IsFiled c q) p content)

  pub ready-Files : (ns : CascNamespace) → Files (on_casc c q ns (ensure_initialized c))
  ready-Files ns = on_casc-Files ns (ensure_initialized-Kept c (some ns.1) (IsFiled c q))

  warm-Files : (ns : CascNamespace) → Files (warm_local_access c q ns)
  unfolding warm_local_access
  warm-Files ns =
      bind-Preserves
        (attempt-Preserves
          (on_casc-Files ns (ensure_local_access-Kept c (some ns.1) (IsFiled c q))))
        (λ warmed. result-Preserves warmed (λ _. pure-Preserves tt) (λ e. eprintln-Files _))

  pub initialize_with_paths-Files :
      (paths : ResolverPaths) → Files (initialize_with_paths c q paths)
  unfolding initialize_with_paths warm_local_access
  initialize_with_paths-Files paths = bind-Preserves (runs-Files _) (λ mode.
      if-Preserves _ (pure-Preserves tt) (
        bind-Preserves (get_casc-Files paths)
          (λ ns. then-Preserves (ready-Files ns) (warm-Files ns))))

  module _ (listfile : ℕ → Option Text) where
    refuse_partial-Files :
        (paths : ResolverPaths) (fdid : ℕ) (keys : List MissingKeyChunk)
        → Files (refuse_partial c q listfile paths fdid keys)
    unfolding refuse_partial
    refuse_partial-Files paths fdid [] = pure-Preserves tt
    refuse_partial-Files paths fdid (k ∷ ks) =
        option-Preserves paths.identity (λ _. throw-Preserves _) (pure-Preserves tt)

    pub read-Files :
        (ns : CascNamespace) (fdid : ℕ) → Files (on_casc c q ns (read_fdid_bytes c listfile q fdid))
    read-Files ns fdid =
        on_casc-Files ns (read_fdid_bytes-Kept c (some ns.1) (IsFiled c q) listfile q fdid)

    pub extract_fdid_to_path_with_paths-Files :
        (paths : ResolverPaths) (fdid : ℕ) (out_path : FilePath)
        → Files (extract_fdid_to_path_with_paths c q listfile paths fdid out_path)
    unfolding extract_fdid_to_path_with_paths
    extract_fdid_to_path_with_paths-Files paths fdid out_path =
        bind-Preserves (get_casc-Files paths) (λ ns. then-Preserves (ready-Files ns) (
          bind-Preserves (read-Files ns fdid) (λ found.
            then-Preserves (refuse_partial-Files paths fdid _) (
              then-Preserves (write_to_path-Files out_path _)
                (then-Preserves (eprintln-Files _) (pure-Preserves _))))))

    no_bytes-Files : (fdid : ℕ) (e : Text) → Files (no_bytes c q listfile fdid e)
    unfolding no_bytes
    no_bytes-Files fdid e = then-Preserves (eprintln-Files _) (pure-Preserves none)

    pub resolve_bytes_with_paths-Files :
        (paths : ResolverPaths) (fdid : ℕ)
        → Files (resolve_bytes_with_paths c q listfile paths fdid)
    unfolding resolve_bytes_with_paths no_bytes
    resolve_bytes_with_paths-Files paths fdid =
        bind-Preserves
          (attempt-Preserves (
            bind-Preserves (get_casc-Files paths)
              (λ ns. then-Preserves (ready-Files ns) (read-Files ns fdid))))
          (λ bytes. result-Preserves bytes (λ found. pure-Preserves _) (no_bytes-Files fdid))
