-- ===== src/ShadowFs.antt =====
-- file_system/shadowfs/shadowfs.c: the RAM file system. Files are in `File`, directories in `Dir`.
mod Tests
pub mod File
pub mod Dir
pub mod Ops
