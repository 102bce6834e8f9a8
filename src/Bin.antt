-- ===== src/Bin.antt =====
-- src/bin: the command line tools.
pub mod CascLocal
pub mod CascRefresh
