-- ===== src/CascState.antt =====
-- src/casc_resolver.rs: one opened installation, its lazy initializations, and reading by key.
pub mod Blte
pub mod Laws
pub mod Keeps
use asset_resolver.Base.{
  ℕ, Text, txt, FilePath, path, join, display, Option, none, some, Bool, true, false, List, [], ◌∷◌,
  ◌++◌, Result, ok_or, if◌then◌else◌,
}
use asset_resolver.Base
use asset_resolver.Identity.{AssetIdentity}
use asset_resolver.World.Io.{
  World, Io, ◌>>=◌, ◌>>◌, pure, throw, lift, attempt, map_err, gets, modify, ok, err,
}
use asset_resolver.Install.{wow_install_path}
use asset_resolver.Casc.{Cascette, MissingKeyChunk, PartialDecode, IndexEntry}
use Blte.{parse_local_blte}

pub data InitState : Type 0 where
  uninitialized initialized : InitState
  failed : Text → InitState

pub record FileContent : Type 0 where
  pub content : Text
  pub missing_keys : List MissingKeyChunk

module _ (c : Cascette) where
  open c use {Installation, Indices, Archives, Keys}

  pub record LocalArchiveAccess : Type 0 where
    pub indices : Indices
    pub archives : Archives

  pub data LocalAccessState : Type 0 where
    uninitialized : LocalAccessState
    initialized : LocalArchiveAccess → LocalAccessState
    failed : Text → LocalAccessState

  -- `cache` is the content of the open resolution cache.
  pub record CascState : Type 0 where
    pub identity : Option AssetIdentity
    pub install : Installation
    pub keys : Keys
    pub cache : Text
    pub init : InitState
    pub local_access : LocalAccessState

  -- A method of the state: the state is part of the statics of its world.
  abbrev pub Method : Type 0 → Type 0 → Type 0
  Method T A = Io (CascState × T) A

  unfoldable pub get_state : {T : Type 0} → Method T CascState
  get_state w = (ok w.statics.0, w)

  unfoldable pub put_state : {T : Type 0} → CascState → Method T (Unit {0})
  put_state s w = (ok tt, record w { statics = (s, w.statics.1) })

  -- CascState::ensure_initialized
  unfoldable pub ensure_initialized : {T : Type 0} → Method T (Unit {0})
  ensure_initialized = do
    s ← get_state
    elim (CascState.init s) [
      | InitState.initialized ↦ pure tt
      | InitState.failed e ↦ throw e
      | InitState.uninitialized ↦ do
        fs ← gets (λ w. w.fs)
        let (result, install) = Cascette.initialize c fs (CascState.install s)
        elim result [
          | Base.ok _ ↦ put_state (record s { install = install; init = InitState.initialized })
          | Base.err e ↦ do
            let error = txt "CASC init: " ++ e
            put_state (record s { install = install; init = InitState.failed error })
            throw error
        ]
    ]

  -- The indices and the archives of a data directory.
  unfoldable pub open_local_access : {T : Type 0} → FilePath → Io T LocalArchiveAccess
  open_local_access data_dir = do
    fs ← gets (λ w. w.fs)
    indices ←
        map_err (λ e. txt "load CASC indices: " ++ e) (lift (Cascette.load_indices c fs data_dir))
    archives ←
        map_err (λ e. txt "open CASC archives: " ++ e) (lift (Cascette.open_archives c fs data_dir))
    pure (record { indices = indices; archives = archives })

  unfoldable pub archive_dir : FilePath → FilePath
  archive_dir root = join (join root (path (txt "Data"))) (path (txt "data"))

  -- The first access: a missing installation is not remembered, a failed opening is.
  unfoldable pub first_local_access : {T : Type 0} → CascState → Method T LocalArchiveAccess
  first_local_access s = do
    root ← wow_install_path
    elim root [
      | none ↦ throw (txt "WoW install not found for local archive access")
      | some r ↦ do
        init_result ← attempt (open_local_access (archive_dir r))
        elim init_result [
          | Base.ok access ↦ do
            put_state (record s { local_access = LocalAccessState.initialized access })
            pure access
          | Base.err e ↦ do
            put_state (record s { local_access = LocalAccessState.failed e })
            throw e
        ]
    ]

  -- CascState::ensure_local_access
  unfoldable pub ensure_local_access : {T : Type 0} → Method T LocalArchiveAccess
  unfolding first_local_access
  ensure_local_access = do
    s ← get_state
    elim (CascState.local_access s) [
      | LocalAccessState.initialized access ↦ pure access
      | LocalAccessState.failed e ↦ throw e
      | LocalAccessState.uninitialized ↦ first_local_access s
    ]

  -- The raw container of a key in the local archives.
  unfoldable pub read_local_blte : {T : Type 0} → LocalArchiveAccess → Text → Io T (Cascette.Blte c)
  read_local_blte access encoding_key = do
    entry ← lift (
        ok_or
          (txt "missing archive location for encoding key " ++ Cascette.display_key c encoding_key)
          (Cascette.lookup_index c (LocalArchiveAccess.indices access) encoding_key))
    raw ←
        map_err (λ e. txt "read raw BLTE archive entry: " ++ e)
          (lift (Cascette.read_raw c (LocalArchiveAccess.archives access) entry))
    lift (parse_local_blte c raw)

  unfoldable pub read_file_by_encoding_key_with_keys : {T : Type 0} → Text → Method T FileContent
  read_file_by_encoding_key_with_keys encoding_key = do
    access ← ensure_local_access
    blte ← read_local_blte access encoding_key
    s ← get_state
    decoded ←
        map_err (λ e. txt "decrypt/decompress BLTE container: " ++ e)
          (lift (Cascette.decompress_zeroing_missing_keys c blte (CascState.keys s)))
    pure (record {
      content = PartialDecode.content decoded;
      missing_keys = PartialDecode.missing_keys decoded;
    })

  -- CascState::read_file_by_encoding_key: the key-aware archives only where the installation fails.
  unfoldable pub read_file_by_encoding_key : {T : Type 0} → Text → Method T FileContent
  read_file_by_encoding_key encoding_key = do
    s ← get_state
    fs ← gets (λ w. w.fs)
    elim (Cascette.read_by_encoding_key c fs (CascState.install s) encoding_key) [
      | Base.ok content ↦ pure (record { content = content; missing_keys = [] })
      | Base.err primary_err ↦
          map_err
            (λ e. primary_err ++ (txt "; key-aware local archive fallback also failed: " ++ e))
            (read_file_by_encoding_key_with_keys encoding_key)
    ]

  unfoldable pub read_file_by_path : {T : Type 0} → Text → Method T FileContent
  read_file_by_path asset_path = do
    s ← get_state
    fs ← gets (λ w. w.fs)
    content ←
        map_err (λ e. txt "read CASC path " ++ (asset_path ++ (txt ": " ++ e)))
          (lift (Cascette.read_by_path c fs (CascState.install s) asset_path))
    pure (record { content = content; missing_keys = [] })
