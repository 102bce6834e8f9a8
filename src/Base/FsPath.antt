-- ===== src/Base/FsPath.antt =====
-- `std::path::Path` on Unix, as the list of its components.
mod Defs
mod Laws
unfoldable pub use Defs.*
pub use Laws.*
