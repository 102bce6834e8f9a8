-- ===== src/Tests.antt =====
-- A small installation, with one build of one product, on which the theorems are applied.
mod Policy
mod Assets
mod Cache
mod Extraction
mod Archives
mod Listfiles
mod Opened
mod Publication
mod Tools
mod Sessions
mod Transactions
use asset_resolver.Base.{
  ℕ, Text, txt, FilePath, Component, root_dir, normal, Option, none, some, Bool, true, false, List,
  [], ◌∷◌, ◌++◌, ◌==◌, list_eq, component_eq, Result, ok, err, nat_eq, if◌then◌else◌,
}
use asset_resolver.Base.Assoc.{Assoc, lookup}
use asset_resolver.Identity.{AssetIdentity}
use asset_resolver.RuntimeMode.{
  AssetRuntimeMode, local_casc, extracted_only, Process, EnvVar, value, not_present,
}
use asset_resolver.Paths.{ResolverPaths}
use asset_resolver.World.Fs.{FileSystem, Node, absent, dir, file}
use asset_resolver.World.Io.{World}
use asset_resolver.Casc.{Cascette, BuildInfoRow, BuildConfig}
use asset_resolver.Sqlite.{Sqlite, MetadataQuery, no_row, stored}

-- Thirty-two digits.
abbrev pub build_text : Text
build_text = txt "0123456789abcdef0123456789abcdef"

abbrev pub classic_text : Text
classic_text = txt "fedcba98765432100123456789abcdef"

abbrev pub retail : AssetIdentity
retail = record { product = txt "wow"; build_key = build_text }

abbrev pub classic : AssetIdentity
classic = record { product = txt "wow_classic_beta"; build_key = classic_text }

abbrev pub shared_root : FilePath
shared_root = root_dir ∷ normal (txt "shared") ∷ []

abbrev pub sources : FilePath
sources = root_dir ∷ normal (txt "sources") ∷ []

abbrev pub cache_root : FilePath
cache_root = root_dir ∷ normal (txt "cache") ∷ []

abbrev pub install_root : FilePath
install_root = root_dir ∷ normal (txt "wow") ∷ []

abbrev pub paths_of : Option AssetIdentity → AssetRuntimeMode → ResolverPaths
paths_of identity mode = record {
  source_data_root = sources;
  shared_data_root = shared_root;
  cache_root = cache_root;
  identity = identity;
  runtime_mode = mode;
}

-- A model below the shared root.
abbrev pub model : FilePath
model = shared_root ++ (normal (txt "models") ∷ normal (txt "7.m2") ∷ [])

abbrev pub process_of : Option AssetRuntimeMode → Process
process_of mode = record {
  env_mode = not_present;
  process_mode = mode;
  forbidden = 3;
  hook = some (record { id = 1; panics = λ error. false });
  hook_calls = [];
}

-- The first entry of a path, or nothing.
abbrev pub fs_of : Assoc FilePath Node → FileSystem
fs_of nodes p = elim (lookup p nodes) [ none ↦ absent | some n ↦ n ]

abbrev pub world_of : {T : Type 0} → Process → Assoc FilePath Node → T → World T
world_of process nodes statics = record {
  process = process;
  env = λ _. not_present;
  fs = fs_of nodes;
  now = 9;
  subsec_nanos = 0;
  install_path = none;
  next_temporary = 0;
  process_id = 42;
  faults = [];
  log = [];
  statics = statics;
}

-- An installation whose every container is its key, and whose build information names `retail`.
abbrev pub cascette : Cascette
cascette = record {
  Installation = Unit;
  Indices = Unit;
  Archives = Unit;
  Blte = Text;
  Keys = Unit;
  TactKey = Unit;
  open_installation = λ _ _. ok tt;
  initialize = λ _ _. (err (txt "offline"), tt);
  read_by_encoding_key = λ _ _ key. ok key;
  read_by_path = λ _ _ _. err (txt "no path");
  load_indices = λ _ _. ok tt;
  open_archives = λ _ _. ok tt;
  lookup_index = λ _ _. none;
  read_raw = λ _ _. err (txt "no entry");
  parse_blte = λ raw. ok raw;
  decompress_zeroing_missing_keys = λ blte _. ok (record { content = blte; missing_keys = [] });
  decompress_with_keys = λ blte _. ok blte;
  display_key = λ key. key;
  empty_keys = tt;
  load_from_txt = λ keys _. (0, keys);
  add_key = λ keys _. keys;
  parse_keyring = λ _. ok (ok []);
  parse_build_info = λ _. ok (
      record {
        is_active = true;
        product = some (txt "wow");
        build_key = some build_text;
        keyring = none;
      }
      ∷ []);
  parse_build_config = λ _. ok (record { root = none; encoding = none });
  content_key_of = λ content. content;
  parse_root = λ _. ok [];
  parse_encoding = λ _. ok [];
}

abbrev key_bytes : Text
key_bytes = 1 ∷ 2 ∷ 3 ∷ 4 ∷ 5 ∷ 6 ∷ 7 ∷ 8 ∷ 9 ∷ 10 ∷ 11 ∷ 12 ∷ 13 ∷ 14 ∷ 15 ∷ 16 ∷ []

-- A database that is its own bytes, and knows of one file.
abbrev pub sqlite : Sqlite
sqlite = record {
  Connection = Text;
  open_database = λ _. ok [];
  init_schema = λ conn. ok conn;
  prepare_resolution = λ _. ok tt;
  insert_resolution = λ conn _ _ _. ok conn;
  insert_metadata = λ conn _ _ _. ok conn;
  commit = λ conn. ok conn;
  bytes = λ conn. conn;
  read_metadata = λ content. if content == 5 ∷ [] then stored 5 6 2 else no_row;
  count_resolution = λ _. ok 1;
  select_resolution = λ _ fdid. if fdid == 7 then some (key_bytes, key_bytes) else none;
}
