-- ===== src/Vfs.antt =====
-- file_system/vfs/vfs.c: the mount table, paths, and the file descriptor table.
mod Tests
pub mod Mounts
pub mod Path
pub mod Resolve
pub mod Files
pub mod Open
