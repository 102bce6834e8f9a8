-- ===== src/Resolver/Frozen.antt =====
-- src/casc_resolver.rs, FrozenArchiveReader: reading by encoding key with no installation metadata.
use asset_resolver.Base.{
  Text, txt, FilePath, display, Option, none, some, List, [], ◌∷◌, ◌++◌, ok_or, ◌≡◌, refl, sym, ap,
  ◌∙◌,
}
use asset_resolver.Base
use asset_resolver.World.Strings.{read_to_string}
use asset_resolver.World.Io.{World, Io, ok, ◌>>=◌, ◌>>◌, pure, throw, lift, map_err, gets}
use asset_resolver.World.Inversion.{>>=-next, >>-next, map_err-eq-ok, lift-eq-ok}
use asset_resolver.Casc.{Cascette, MissingKeyChunk, PartialDecode, IndexEntry}
use asset_resolver.CascState.{LocalArchiveAccess}
use asset_resolver.CascState.Blte.{parse_local_blte}
use asset_resolver.Resolver.Extract.{describe_missing_keys}
use asset_resolver.Resolver.Installs.{guard_process}

module _ (c : Cascette) where
  pub record FrozenArchiveReader : Type 0 where
    pub local : LocalArchiveAccess c
    pub keys : Cascette.Keys c

  -- The keys of the optional key file; a file that cannot be read is an error.
  frozen_keys : {T : Type 0} → Option FilePath → Io T (Cascette.Keys c)
  frozen_keys none = pure (Cascette.empty_keys c)
  frozen_keys (some p) = do
    text ← map_err (λ e. txt "TACT keys " ++ (display p ++ (txt ": " ++ e))) (read_to_string p)
    let (loaded, keys) = Cascette.load_from_txt c (Cascette.empty_keys c) text
    pure keys

  -- FrozenArchiveReader::open
  unfoldable pub open_frozen : {T : Type 0} → FilePath → Option FilePath → Io T FrozenArchiveReader
  unfolding frozen_keys
  open_frozen archive_dir key_file = do
    guard_process (txt "open frozen local CASC archives")
    fs ← gets (λ w. w.fs)
    indices ←
        map_err (λ e. txt "load frozen CASC indices: " ++ e)
          (lift (Cascette.load_indices c fs archive_dir))
    archives ←
        map_err (λ e. txt "open frozen CASC archives: " ++ e)
          (lift (Cascette.open_archives c fs archive_dir))
    keys ← frozen_keys key_file
    pure (record { local = record { indices = indices; archives = archives }; keys = keys })

  frozen_error : Text → Text → Text
  frozen_error key e =
      txt "Frozen source encoding key " ++ (Cascette.display_key c key ++ (txt ": " ++ e))

  -- A decode with a chunk that no key opens is an error.
  unfoldable pub complete_content : {T : Type 0} → Text → Text → List MissingKeyChunk → Io T Text
  unfolding frozen_error
  complete_content key content [] = pure content
  complete_content key content (k ∷ ks) =
      throw
        (frozen_error key (txt "undecodable encrypted chunks: " ++ describe_missing_keys (k ∷ ks)))

  -- FrozenArchiveReader::read_encoding_key
  unfoldable pub read_encoding_key : {T : Type 0} → FrozenArchiveReader → Text → Io T Text
  unfolding frozen_error
  read_encoding_key reader key = do
    guard_process (txt "read frozen local CASC bytes")
    entry ← lift (
        ok_or (frozen_error key (txt "archive location absent"))
          (Cascette.lookup_index c (LocalArchiveAccess.indices reader.local) key))
    raw ←
        map_err (frozen_error key)
          (lift (Cascette.read_raw c (LocalArchiveAccess.archives reader.local) entry))
    blte ← lift (parse_local_blte c raw)
    decoded ←
        map_err (frozen_error key)
          (lift (Cascette.decompress_zeroing_missing_keys c blte reader.keys))
    complete_content key (PartialDecode.content decoded) (PartialDecode.missing_keys decoded)

  complete_content-eq-ok :
      {T : Type 0} (key found content : Text) (missing : List MissingKeyChunk) (w : World T)
      → (complete_content key found missing w).0 ≡ ok content
      → (found ≡ content) × (missing ≡ [])
  unfolding complete_content pure throw
  complete_content-eq-ok key found content [] w h = (cc h, refl)
  complete_content-eq-ok key found content (k ∷ ks) w h = absurd (cc h)

  ok_or-eq-ok :
      (e : Text) (o : Option IndexEntry) (x : IndexEntry) → ok_or e o ≡ Base.ok x → o ≡ some x
  ok_or-eq-ok e none x h = absurd (cc h)
  ok_or-eq-ok e (some y) x h = cc h

  -- How the archives hold the bytes of a key: an entry of the index, its container, and a decode of it
  -- with the given keys in which every chunk is open.
  pub record IsStored (reader : FrozenArchiveReader) (key content : Text) : Type 0 where
    pub entry : IndexEntry
    pub raw : Text
    pub blte : Cascette.Blte c
    pub decoded : PartialDecode
    pub is_indexed :
        Cascette.lookup_index c (LocalArchiveAccess.indices reader.local) key ≡ some entry
    pub is_read : Cascette.read_raw c (LocalArchiveAccess.archives reader.local) entry ≡ Base.ok raw
    pub is_parsed : parse_local_blte c raw ≡ Base.ok blte
    pub is_decoded : Cascette.decompress_zeroing_missing_keys c blte reader.keys ≡ Base.ok decoded
    pub is_content : PartialDecode.content decoded ≡ content
    pub is_complete : PartialDecode.missing_keys decoded ≡ []

  -- The bytes that a frozen read returns are a complete decode, with the reader's keys, of the entry
  -- that the archives hold for the key: no chunk that a key is missing for is passed on as zeros.
  pub read_encoding_key-eq-ok :
      {T : Type 0} (reader : FrozenArchiveReader) (key content : Text) (w : World T)
      → (read_encoding_key reader key w).0 ≡ ok content
      → IsStored reader key content
  unfolding read_encoding_key
  read_encoding_key-eq-ok reader key content w h =
      let (_, h1, _) = >>-next _ _ w content h in
      let (entry, found, h2, _) = >>=-next _ _ _ content h1 in
      let (raw, got, h3, _) = >>=-next _ _ _ content h2 in
      let (blte, parsed, h4, _) = >>=-next _ _ _ content h3 in
      let (decoded, opened, h5, _) = >>=-next _ _ _ content h4 in
      let (same, complete) = complete_content-eq-ok key _ content _ _ h5 in
      record {
        entry = entry;
        raw = raw;
        blte = blte;
        decoded = decoded;
        is_indexed = ok_or-eq-ok _ _ entry (lift-eq-ok _ _ entry found);
        is_read = lift-eq-ok _ _ raw (map_err-eq-ok _ _ _ raw got);
        is_parsed = lift-eq-ok _ _ blte parsed;
        is_decoded = lift-eq-ok _ _ decoded (map_err-eq-ok _ _ _ decoded opened);
        is_content = same;
        is_complete = complete;
      }
