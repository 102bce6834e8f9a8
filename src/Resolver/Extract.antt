-- ===== src/Resolver/Extract.antt =====
-- src/casc_resolver.rs: writing an extracted file, and reading a file's bytes from an open state.
use asset_resolver.Base.{
  ℕ, ◌+◌, ◌/◌, ◌%◌, Text, txt, FilePath, path, join, parent, file_name, display, decimal, Option,
  none, some, Bool, true, false, not, List, [], ◌∷◌, ◌++◌, map, Result, ok_or, if◌then◌else◌, ltb,
}
use asset_resolver.Base
use asset_resolver.Identity.{AssetIdentity}
use asset_resolver.World.Io.{
  Io, ◌>>=◌, ◌>>◌, pure, throw, lift, attempt, map_err, gets, eprintln, create_dir_all, write,
  rename, remove_file, ok,
}
use asset_resolver.Casc.{Cascette, MissingKeyChunk}
use asset_resolver.CascState.{
  CascState, Method, FileContent, get_state, read_file_by_encoding_key, read_file_by_path,
}
use asset_resolver.CascCache.{resolve_fdid}
use asset_resolver.Sqlite.{Sqlite}

pub record ExtractedFile : Type 0 where
  pub path : FilePath
  pub missing_keys : List MissingKeyChunk

-- An upper-case hexadecimal digit.
abbrev upper_digit : ℕ → ℕ
upper_digit n = if ltb n 10 then n + 48 else n + 55

-- `{:016X}`
upper_hex : ℕ → ℕ → Text → Text
upper_hex ℕ.zero n out = out
upper_hex (ℕ.suc k) n out = upper_hex k (n / 16) (upper_digit (n % 16) ∷ out)

describe_chunk : MissingKeyChunk → Text
describe_chunk k =
    upper_hex 16 k.key_name []
    ++ (txt " (chunk "
        ++ (decimal k.chunk_index
            ++ (txt ", "
                ++ (decimal k.size ++ (txt " bytes at offset " ++ (decimal k.offset ++ txt ")"))))))

comma_separated : List Text → Text
comma_separated [] = []
comma_separated (t ∷ []) = t
comma_separated (t ∷ u ∷ ts) = t ++ (txt ", " ++ comma_separated (u ∷ ts))

unfoldable pub describe_missing_keys : List MissingKeyChunk → Text
unfolding describe_chunk comma_separated upper_hex
describe_missing_keys missing_keys = comma_separated (map describe_chunk missing_keys)

-- The name of the temporary sibling.
unfoldable pub temporary_path : FilePath → Text → ℕ → ℕ → FilePath
temporary_path parent_dir name process_id serial = join parent_dir (
    path (
      txt "."
      ++ (name
          ++ (txt "." ++ (decimal process_id ++ (txt "." ++ (decimal serial ++ txt ".partial")))))))

-- What follows the rename: the removal of the temporary file where it failed.
unfoldable pub after_rename :
    {T : Type 0} → FilePath → FilePath → Result (Unit {0}) → Io T (Unit {0})
after_rename temporary out_path (Base.ok _) = pure tt
after_rename temporary out_path (Base.err e) = do
  _ ← attempt (remove_file temporary)
  throw (
      txt "rename " ++ (display temporary ++ (txt " -> " ++ (display out_path ++ (txt ": " ++ e)))))

unfoldable pub rename_over : {T : Type 0} → FilePath → FilePath → Io T (Unit {0})
rename_over temporary out_path = do
  renamed ← attempt (rename temporary out_path)
  after_rename temporary out_path renamed

-- NEXT_TEMPORARY.fetch_add(1)
unfoldable pub next_serial : {T : Type 0} → Io T ℕ
next_serial w = (
  ok w.next_temporary,
  record w { next_temporary = (w.next_temporary + 1) % 18446744073709551616 },
)

unfoldable pub write_to_path : {T : Type 0} → FilePath → Text → Io T (Unit {0})
write_to_path out_path content = do
  parent_dir ← lift (ok_or (txt "missing parent for " ++ display out_path) (parent out_path))
  map_err (λ e. txt "mkdir " ++ (display parent_dir ++ (txt ": " ++ e))) (create_dir_all parent_dir)
  name ← lift (ok_or (txt "missing file name in " ++ display out_path) (file_name out_path))
  serial ← next_serial
  pid ← gets (λ w. w.process_id)
  let temporary = temporary_path parent_dir name pid serial
  map_err (λ e. txt "write " ++ (display temporary ++ (txt ": " ++ e))) (write temporary content)
  rename_over temporary out_path

module _ (c : Cascette) where
  unfoldable pub read_fdid_bytes_by_encoding_key : {T : Type 0} → ℕ → Text → Method c T FileContent
  read_fdid_bytes_by_encoding_key fdid encoding_key =
      map_err
        (λ e.
          txt "CASC read FDID "
          ++ (decimal fdid
              ++ (txt " via encoding key "
                  ++ (Cascette.display_key c encoding_key ++ (txt ": " ++ e)))))
        (read_file_by_encoding_key c encoding_key)

  unfoldable pub warn_missing : {T : Type 0} → ℕ → List MissingKeyChunk → Io T (Unit {0})
  warn_missing fdid [] = pure tt
  warn_missing fdid (k ∷ ks) = eprintln (
      txt "CASC warning: FDID "
      ++ (decimal fdid
          ++ (txt " has encrypted chunks with unknown TACT keys, zero-filled: "
              ++ describe_missing_keys (k ∷ ks))))

  -- `listfile` is its `lookup_fdid`, which the fallback by path asks.
  module _ (listfile : ℕ → Option Text) where
    unfoldable pub read_fdid_bytes_by_listfile_path : {T : Type 0} → ℕ → Method c T FileContent
    read_fdid_bytes_by_listfile_path fdid = do
      asset_path ← lift (
          ok_or
            (txt "CASC resolve FDID "
              ++ (decimal fdid ++ txt ": missing resolution and listfile entry"))
            (listfile fdid))
      map_err
          (λ e.
            txt "CASC read FDID "
            ++ (decimal fdid ++ (txt " via listfile path " ++ (asset_path ++ (txt ": " ++ e)))))
          (read_file_by_path c asset_path)

    -- The content by what the resolution cache knows of the FDID.
    unfoldable pub resolved_content :
        {T : Type 0} → ℕ → Option AssetIdentity → Option (Text × Text) → Method c T FileContent
    resolved_content fdid identity (some (_, encoding_key)) =
        read_fdid_bytes_by_encoding_key fdid encoding_key
    resolved_content fdid none none = read_fdid_bytes_by_listfile_path fdid
    resolved_content fdid (some i) none = throw (
        txt "FDID "
        ++ (decimal fdid
            ++ (txt " absent from "
                ++ (AssetIdentity.product i ++ (txt " build " ++ AssetIdentity.build_key i)))))

    unfoldable pub read_fdid_bytes : {T : Type 0} → Sqlite → ℕ → Method c T FileContent
    unfolding warn_missing
    read_fdid_bytes q fdid = do
      s ← get_state c
      found ←
          resolved_content fdid (CascState.identity s) (resolve_fdid c q (CascState.cache s) fdid)
      warn_missing fdid (FileContent.missing_keys found)
      pure found
