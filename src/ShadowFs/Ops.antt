-- ===== src/ShadowFs/Ops.antt =====
-- `shadowfs_open` and `shadowfs_close` of file_system/shadowfs/shadowfs.c, in the form that the VFS calls.
use acorn_os.ShadowFs.Dir.{Fs}
use acorn_os.Vfs.Files.{File, World}
use acorn_os.Common.{Bool, false}

-- The result 0 is no failure.
abbrev pub shadowfs_open : World Fs → File → World Fs × File × Bool
shadowfs_open w f = (w, f, false)

abbrev pub shadowfs_close : World Fs → File → World Fs × File
shadowfs_close w f = (w, f)
