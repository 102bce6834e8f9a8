-- ===== src/Casc.antt =====
-- What src/casc_resolver.rs and src/casc_cache.rs call of other packages: cascette-client-storage,
-- cascette-crypto, cascette-formats and SQLite. Each is a parameter; what the files of the program
-- read of a parsed value is a record here.
use asset_resolver.Base.{ℕ, Text, FilePath, Option, Bool, List, Result}
use asset_resolver.World.Fs.{FileSystem}

-- A row of `.build.info`.
pub record BuildInfoRow : Type 0 where
  pub is_active : Bool
  pub product : Option Text
  pub build_key : Option Text
  pub keyring : Option Text

pub record EncodingInfo : Type 0 where
  pub content_key : Text
  pub encoding_key : Option Text

pub record BuildConfig : Type 0 where
  pub root : Option Text
  pub encoding : Option EncodingInfo

pub record MissingKeyChunk : Type 0 where
  pub key_name : ℕ
  pub chunk_index : ℕ
  pub size : ℕ
  pub offset : ℕ

pub record PartialDecode : Type 0 where
  pub content : Text
  pub missing_keys : List MissingKeyChunk

pub record IndexEntry : Type 0 where
  pub archive_id : ℕ
  pub archive_offset : ℕ
  pub size : ℕ

pub record RootRecord : Type 0 where
  pub file_data_id : ℕ
  pub content_key : Text

pub record RootBlock : Type 0 where
  pub has_client_locale : Bool
  pub records : List RootRecord

pub record EncodingEntry : Type 0 where
  pub content_key : Text
  pub encoding_keys : List Text

-- The foreign types and calls. A call that reads the disk is given the file system; an object with
-- interior state is returned as the call leaves it.
pub record Cascette : Type 1 where
  pub Installation : Type 0
  pub Indices : Type 0
  pub Archives : Type 0
  pub Blte : Type 0
  pub Keys : Type 0
  pub TactKey : Type 0
  pub open_installation : FileSystem → FilePath → Result Installation
  pub initialize : FileSystem → Installation → Result (Unit {0}) × Installation
  pub read_by_encoding_key : FileSystem → Installation → Text → Result Text
  pub read_by_path : FileSystem → Installation → Text → Result Text
  pub load_indices : FileSystem → FilePath → Result Indices
  pub open_archives : FileSystem → FilePath → Result Archives
  pub lookup_index : Indices → Text → Option IndexEntry
  pub read_raw : Archives → IndexEntry → Result Text
  pub parse_blte : Text → Result Blte
  pub decompress_zeroing_missing_keys : Blte → Keys → Result PartialDecode
  pub decompress_with_keys : Blte → Keys → Result Text
  pub display_key : Text → Text
  pub empty_keys : Keys
  pub load_from_txt : Keys → Text → ℕ × Keys
  pub add_key : Keys → TactKey → Keys
  pub parse_keyring : Text → Result (Result (List TactKey))
  pub parse_build_info : Text → Result (List BuildInfoRow)
  pub parse_build_config : Text → Result BuildConfig
  pub content_key_of : Text → Text
  pub parse_root : Text → Result (List RootBlock)
  pub parse_encoding : Text → Result (List (List EncodingEntry))
