-- ===== src/World.antt =====
-- The process and what surrounds it: statics, environment, clock, log and file system, and
-- computations that read and change them.
pub mod Fs
pub mod Io
pub mod Laws
pub mod Inversion
pub mod Chains
pub mod Effects
pub mod Writing
pub mod Strings
pub mod Statics
pub mod Gives
pub mod Success
pub mod Directories
pub mod Quiet
pub mod Files
pub mod Ensures
pub mod Agrees
