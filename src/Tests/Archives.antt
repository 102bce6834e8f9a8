-- ===== src/Tests/Archives.antt =====
-- The theorem on frozen archives, applied to an archive with one entry.
use asset_resolver.Base.{ℕ, ◌≡◌, refl, Text, txt, List, [], ◌∷◌, ◌++◌, some, same_list, length}
use asset_resolver.Base
use asset_resolver.RuntimeMode.{
  local_casc, process_runtime_mode, effective_runtime_mode, guard_casc_access,
}
use asset_resolver.World.Io.{World, io_steps}
use asset_resolver.Casc.{Cascette}
use asset_resolver.CascState.Blte.{parse_local_blte, blte_bytes}
use asset_resolver.Resolver.Installs.{guard_process}
use asset_resolver.Resolver.Frozen.{
  FrozenArchiveReader, IsStored, complete_content, read_encoding_key, read_encoding_key-eq-ok,
}
use asset_resolver.Tests.{process_of, world_of, cascette}

abbrev container : Text
container = txt "BLTE0123456789012345678901234567890"

abbrev archives : Cascette
archives = record cascette {
  lookup_index = λ _ _. some (record { archive_id = 0; archive_offset = 0; size = 35 });
  read_raw = λ _ _. Base.ok container;
}

abbrev reader : FrozenArchiveReader archives
reader = record { local = record { indices = tt; archives = tt }; keys = tt }

abbrev local_world : World (Unit {0})
local_world = world_of (process_of (some local_casc)) [] tt

read_encoding_key-eq-ok_example : IsStored archives reader (1 ∷ []) container
unfolding read_encoding_key guard_process complete_content parse_local_blte blte_bytes io_steps
    process_runtime_mode effective_runtime_mode guard_casc_access txt same_list
read_encoding_key-eq-ok_example =
    read_encoding_key-eq-ok archives reader (1 ∷ []) container local_world refl
