-- ===== src/Lib.antt =====
-- The asset resolver: it finds the files of an installed game, extracts them once into a cache that is
-- shared by the programs on a machine, and names every file by the product and the build that it is of.
--
-- The parts, and where they are modelled:
--   * Identity (src/identity.rs): an identity is a product and a build key, and owns one directory below
--     a data root.
--   * RuntimeMode (src/runtime_mode.rs): the policy of the process. Its statics are a record, each
--     function a computation on it, and RuntimeMode/Calls a sequence of calls from any threads.
--   * Paths (src/paths.rs): the configured roots, Paths/Defaults where they come from, and
--     `scoped_cache_path`, which puts an asset into the namespace of the identity.
--   * Install and Build (src/casc_resolver.rs): discovery of the installation; the active build of a
--     product, its keys in hexadecimal (Build/Hex) and its keyring.
--   * CascState (src/casc_resolver.rs): one opened installation with its lazy initializations. A method
--     is a computation whose statics have the state in front.
--   * CascCache (src/casc_cache.rs): the resolution cache, from the tables of a build (CascCache/Maps) to
--     the publication of a whole namespace (CascCache/Publish); CascCache/Turns is a sequence of turns of
--     the processes that publish it.
--   * Resolver: extraction (Resolver/Extract), the refresh of the resolution cache (Resolver/Refresh),
--     the states by namespace (Resolver/States), the entry points for a given installation
--     (Resolver/Installs), frozen archives (Resolver/Frozen), and the public resolver of src/lib.rs
--     (Resolver/Api, and Resolver/Lookups for its listfile); Resolver/Sessions is a sequence of requests of
--     one process.
--   * ListfileCache (src/listfile_cache.rs): the SQLite copies of the listfiles: their names, the lines of
--     a source (ListfileCache/Lines), and the cache of a community listfile (ListfileCache/Community).
--   * Listfile (src/listfile.rs): the lookups between FDIDs and paths, whose statics are one listfile with
--     its maps (Listfile/Memory); Listfile/Calls is a sequence of lookups, and Listfile/Cell the cell that
--     the default listfile and a resolver's listfile are in.
--   * Bin (src/bin): the two command line tools, which compose the listfile with the states.
-- They meet in World: the statics of the policy, the environment, the file system, the clock, the log and
-- the statics of the client are one record, and a function of the program is a computation that answers
-- with a value, an error or a panic. Casc, Sqlite and ListfileCache/Sql are the interfaces of the foreign
-- code. Base has the shared types: text as bytes, paths as components, results, association lists.
--
-- Each operation of the file system that can fail asks a schedule of faults first, so that a theorem on
-- all worlds is one on all failures. A refused operation has no effect, but a write goes byte by byte, and
-- a refused one leaves the bytes before (World/Writing). `exists` and `is_file` are taken not to fail. A
-- file's time is after the epoch, and a directory's is 0. Text that is read whole is valid UTF-8 or an
-- error (World/Strings). A path has no symbolic links, and is compared component by component. The files
-- and the clock do not change under a request that runs: other processes act between requests, so the
-- two reads of `.build.info` by `get_casc` and `init_casc` see the same bytes. The hook of the policy
-- returns or panics, by the error it is told. A mutex makes the method under it one step. The extraction
-- takes the answers of the listfile as a function, and leaves out what a lookup writes to its caches and
-- its log. Counters have their width written out: the refused accesses are modulo 2 ^ 64, as
-- are the serial numbers of temporary files, and the counts of the tool modulo 2 ^ 32. All recursion is
-- on the structure of the data; the digits of a number have its size as fuel, and it has fewer digits
-- than that.
--
-- Not modelled: the vendored parsers of vendor/cascette-formats, the storage and cryptography packages and
-- SQLite, which are parameters, as is the resolution of symbolic links; the change of a database by another
-- process while a connection to it is open; the wait for the lock of a namespace or of a database; the
-- elapsed times in log lines; the escapes of characters beyond ASCII in error texts; Windows.
mod Base
pub mod Identity
pub mod RuntimeMode
pub mod Paths
pub mod World
pub mod Install
pub mod Casc
pub mod Build
pub mod Sqlite
pub mod CascCache
pub mod ListfileCache
pub mod Listfile
pub mod CascState
pub mod Resolver
pub mod Bin
mod Tests
