-- ===== src/CascCache/Tables.antt =====
-- src/casc_cache.rs: the resolution cache of a build is made from its tables.
use asset_resolver.Base.{
  ℕ, Text, txt, FilePath, display, decimal, Option, none, some, List, [], ◌∷◌, ◌++◌, Result, length,
}
use asset_resolver.Base
use asset_resolver.Paths.{resolution_schema_version}
use asset_resolver.World.Fs.{Node, absent, dir, file, put}
use asset_resolver.World.Io.{
  Io, ◌>>=◌, ◌>>◌, pure, lift, map_err, gets, eprintln, read, fallible, set_fs, ok, err,
}
use asset_resolver.Casc.{Cascette}
use asset_resolver.Sqlite.{Sqlite}
use asset_resolver.CascCache.{cache_file, root_file, encoding_file, file_mtime}
use asset_resolver.CascCache.Maps.{
  collect_fdid_to_content_keys, collect_content_to_encoding_keys, resolution_rows,
}

module _ (c : Cascette) (q : Sqlite) where
  open q use {
    Connection, open_database, init_schema, prepare_resolution, insert_resolution, insert_metadata,
    commit, bytes,
  }

  unfoldable pub read_cache_file : {T : Type 0} → FilePath → Io T Text
  read_cache_file p = map_err (λ e. display p ++ (txt ": " ++ e)) (read p)

  unfoldable pub build_resolution_maps :
      {T : Type 0} → FilePath → FilePath → Io T (List (ℕ × Text) × List (Text × Text))
  unfolding read_cache_file
  build_resolution_maps root_path enc_path = do
    root_data ← read_cache_file root_path
    enc_data ← read_cache_file enc_path
    blocks ← map_err (λ e. txt "parse root.bin: " ++ e) (lift (Cascette.parse_root c root_data))
    pages ←
        map_err (λ e. txt "parse encoding.bin: " ++ e) (lift (Cascette.parse_encoding c enc_data))
    pure (collect_fdid_to_content_keys blocks, collect_content_to_encoding_keys pages)

  unfoldable pub after_statement : {T : Type 0} → FilePath → Result Connection → Io T Connection
  after_statement p (Base.err e) w = (err e, w)
  after_statement p (Base.ok conn) w = (ok conn, set_fs (put w.fs p (file (bytes conn) w.now)) w)

  -- A statement on the open database, whose file then holds what is committed.
  unfoldable pub statement : {T : Type 0} → FilePath → Text → Result Connection → Io T Connection
  unfolding after_statement
  statement cache_path what r =
      map_err (λ e. what ++ (txt ": " ++ e)) (fallible (λ w. after_statement cache_path r w))

  unfoldable pub open_node : Node → Result Connection
  open_node absent = open_database none
  open_node dir = Base.err (txt "unable to open database file")
  open_node (file content _) = open_database (some content)

  unfoldable pub open_resolution_cache : {T : Type 0} → FilePath → Io T Connection
  unfolding statement open_node
  open_resolution_cache cache_path = do
    node ← gets (λ w. w.fs cache_path)
    statement cache_path (txt "open " ++ display cache_path) (open_node node)

  unfoldable pub init_resolution_schema : {T : Type 0} → FilePath → Connection → Io T Connection
  unfolding statement
  init_resolution_schema cache_path conn =
      statement cache_path (txt "init resolution cache schema") (init_schema conn)

  unfoldable pub insert_rows :
      {T : Type 0} → FilePath → Connection → List (ℕ × Text × Text) → Io T Connection
  unfolding statement
  insert_rows cache_path conn [] = pure conn
  insert_rows cache_path conn ((fdid, ck, ek) ∷ rows) = do
    conn' ←
        statement cache_path (txt "insert resolution entry " ++ decimal fdid)
          (insert_resolution conn fdid ck ek)
    insert_rows cache_path conn' rows

  -- The rows are those whose content key has an encoding key.
  unfoldable pub insert_resolution_rows :
      {T : Type 0} → FilePath → Connection → List (ℕ × Text × Text) → Io T Connection
  unfolding insert_rows
  insert_resolution_rows cache_path conn rows = do
    map_err (λ e. txt "prepare resolution insert: " ++ e) (lift (prepare_resolution conn))
    insert_rows cache_path conn rows

  unfoldable pub insert_resolution_metadata :
      {T : Type 0} → FilePath → Connection → ℕ → ℕ → Io T Connection
  unfolding statement
  insert_resolution_metadata cache_path conn root_mtime enc_mtime =
      statement cache_path (txt "insert resolution metadata")
        (insert_metadata conn root_mtime enc_mtime resolution_schema_version)

  unfoldable pub commit_resolution_cache : {T : Type 0} → FilePath → Connection → Io T Connection
  unfolding statement
  commit_resolution_cache cache_path conn =
      statement cache_path (txt "commit resolution cache") (commit conn)

  -- Without the elapsed time.
  unfoldable pub log_resolution_cache_build : {T : Type 0} → ℕ → Io T (Unit {0})
  log_resolution_cache_build inserted_rows =
      eprintln (txt "Built CASC resolution cache (" ++ (decimal inserted_rows ++ txt " entries)"))

  unfoldable pub build_resolution_cache : {T : Type 0} → FilePath → Io T (Unit {0})
  build_resolution_cache casc_dir = do
    let cache_path = cache_file casc_dir
    maps ← build_resolution_maps (root_file casc_dir) (encoding_file casc_dir)
    conn ← open_resolution_cache cache_path
    conn' ← init_resolution_schema cache_path conn
    let rows = resolution_rows maps.0 maps.1
    full ← insert_resolution_rows cache_path conn' rows
    root_mtime ← file_mtime (root_file casc_dir)
    enc_mtime ← file_mtime (encoding_file casc_dir)
    stamped ← insert_resolution_metadata cache_path full root_mtime enc_mtime
    _ ← commit_resolution_cache cache_path stamped
    log_resolution_cache_build (length rows)
