-- ===== src/Resolver.antt =====
-- src/casc_resolver.rs and src/lib.rs: the shared states, extraction into the cache, and the public
-- resolver.
pub mod Extract
pub mod Refresh
pub mod Bootstrap
pub mod Shared
pub mod Opening
pub mod Identities
pub mod Filed
pub mod Requests
pub mod Sessions
pub mod Listless
pub mod Foreign
pub mod States
pub mod Api
pub mod Modes
pub mod TemporaryPath
pub mod WriteLaws
pub mod ReadLaws
pub mod Installs
pub mod Frozen
pub mod Lookups
