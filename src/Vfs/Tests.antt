-- ===== src/Vfs/Tests.antt =====
-- A mount table, a tree of one directory, and the theorems on the VFS at them.
use acorn_os.Strings.{kstreq}
use acorn_os.Heap.{Heap, heap_start, heap_size, mem_init, kmalloc}
use acorn_os.Heap.RoundTrip.{boot, Reach-IsValid}
use acorn_os.Vfs.Mounts.{Superblock, vfs_find_mount}
use acorn_os.Vfs.Mounts.Longest.{IsOwner, vfs_find_mount_lem}
use acorn_os.Vfs.Path.{slash}
use acorn_os.Vfs.Path.Split.{IsName, IsText}
use acorn_os.Vfs.Resolve.{Lookups, walk, vfs_resolve_path}
use acorn_os.Vfs.Resolve.Walk.{join, AreNames, follow, walk-join}
use acorn_os.Vfs.Files.{
  FsOps, Vfs, vfs_max_fds, vfs_alloc_fd, vfs_free_fd, vfs_get_file, vfs_close, vfs_seek,
}
use acorn_os.Vfs.Files.Table.{IsFirstFree, AreUsed, SameBut, vfs_alloc_fd_lem}
use acorn_os.Vfs.Files.Seek.{position_at, vfs_seek_lem}
use acorn_os.Vfs.Open.{resolve, vfs_open}
use acorn_os.Vfs.Open.Close.{vfs_close-vfs_open}
use acorn_os.Common.Int.{ℤ, pos}
use acorn_os.ShadowFs.Dir.{Fs, type_dir, type_file, empty_file, find_entry, shadowfs_lookup}
use acorn_os.ShadowFs.Ops.{shadowfs_open, shadowfs_close}
use acorn_os.Common.{
  ℕ, ◌+◌, ◌-◌, ◌^◌, ◌≡◌, refl, ◌≢◌, ◌⊎◌, true, false, none, some, List, [], ◌∷◌, arith, ◌==◌,
  if◌then◌else◌, length, replicate, length-replicate, add32,
}

abbrev root_mount : Superblock
root_mount = record { mount_point = slash ∷ []; root = 1; ops = 5; private_data = 0; flags = 0 }

abbrev mounts : List Superblock
mounts =
    root_mount
    ∷ record { mount_point = slash ∷ 116 ∷ []; root = 2; ops = 5; private_data = 0; flags = 0 }
    ∷ []

abbrev temp_file : List ℕ
temp_file = slash ∷ 116 ∷ slash ∷ 120 ∷ []

abbrev temp_dir : List ℕ
temp_dir = slash ∷ 116 ∷ []

abbrev x_name : List ℕ
x_name = 120 ∷ []

abbrev names : List (List ℕ)
names = (116 ∷ []) ∷ (120 ∷ 121 ∷ []) ∷ []

abbrev lookups : Lookups
lookups = record { has_lookup = λ i. true; lookup = λ i name. i + length name }

-- A file system without hooks, on no state of its own.
abbrev plain_ops : FsOps (Unit {0})
plain_ops = record {
  lookups = λ w. lookups;
  kind = λ w i. 2;
  size = λ w i. 10;
  create = λ w i. none;
  delete = λ w i. none;
  truncate = λ w i. none;
  open_file = λ w i. none;
  close = λ w i. none;
  read = λ w i. none;
  write = λ w i. none;
  readdir = λ w i. none;
  mkdir = λ w i. none;
}

abbrev no_fds : List ℕ
no_fds = replicate vfs_max_fds 0

abbrev booted : Vfs (Unit {0})
booted = record {
  world = record { heap = mem_init; disk = tt };
  mounts = root_mount ∷ [];
  table = no_fds;
  file = λ p. record { inode = 0; position = 0; flags = 0; ref_count = 0; private_data = 0 };
}

abbrev inode_one : ℕ
inode_one = 1

abbrev root_path : List ℕ
root_path = slash ∷ []

abbrev file_at : ℕ
file_at = heap_start + 24

abbrev heap_after : Heap
heap_after = record {
  blocks =
      record { addr = heap_start; size = 32; free = false }
      ∷ record { addr = heap_start + 56; size = heap_size - 80; free = true }
      ∷ [];
  heap_used = 32;
}

kmalloc_file_test : kmalloc mem_init 32 ≡ some (file_at, heap_after)
unfolding mem_init kmalloc
kmalloc_file_test = refl

no_fds-length : length no_fds ≡ vfs_max_fds
no_fds-length = length-replicate {A = ℕ} vfs_max_fds 0

first_fd : IsFirstFree (vfs_max_fds - 3) 3 no_fds 3
first_fd = (omega arith, omega arith, refl, λ j l h. absurd (omega arith))

abbrev reading : Vfs (Unit {0})
reading = record booted { table = 0 ∷ 0 ∷ 0 ∷ 7 ∷ [] }

abbrev third : ℤ
third = pos 3

x_name-IsName : IsName x_name
x_name-IsName = ground arith

names-AreNames : AreNames names
names-AreNames = ground arith

temp_dir-IsText : IsText temp_dir
temp_dir-IsText = ground arith

third-live : vfs_get_file reading.table third ≢ 0
unfolding vfs_get_file
third-live e = omega arith

vfs_find_mount_lem_example : IsOwner mounts temp_file (vfs_find_mount mounts temp_file)
vfs_find_mount_lem_example = vfs_find_mount_lem mounts temp_file

walk-join_example : walk lookups 6 1 (join names) ≡ follow lookups 1 names
walk-join_example = walk-join lookups names 6 1 names-AreNames (omega arith)

vfs_alloc_fd_lem_example :
    ((vfs_alloc_fd no_fds file_at ≡ none) × AreUsed (vfs_max_fds - 3) 3 no_fds)
    ⊎ ((k : ℕ) × (table' : List ℕ) × (vfs_alloc_fd no_fds file_at ≡ some (k, table'))
        × IsFirstFree (vfs_max_fds - 3) 3 no_fds k
        × (vfs_get_file table' (pos k) ≡ file_at)
        × SameBut k no_fds table'
        × (vfs_free_fd table' (pos k) ≡ no_fds))
vfs_alloc_fd_lem_example = vfs_alloc_fd_lem no_fds file_at no_fds-length

vfs_seek_lem_example :
    (vfs_seek plain_ops reading third 4 0 ≡ vfs_seek plain_ops reading third 4 1)
    × (position_at plain_ops (vfs_seek plain_ops reading third 4 0).0 third
        ≡ add32 (position_at plain_ops reading third) 4)
    × (position_at plain_ops (vfs_seek plain_ops reading third 4 2).0 third
        ≡ add32
            (plain_ops.size reading.world (reading.file (vfs_get_file reading.table third)).inode)
            4)
    × (position_at plain_ops
          (vfs_seek plain_ops (vfs_seek plain_ops reading third 4 1).0 third (2 ^ 32 - 4) 1).0
          third
        ≡ position_at plain_ops reading third)
vfs_seek_lem_example = vfs_seek_lem plain_ops reading third 4 third-live (omega arith) (omega arith)

-- shadowFS with a root directory at 1 that holds the file "x" at 2
abbrev shadow : Fs
shadow = record {
  mount = record { quota = 8192; used = 144 };
  next_inode_num = 3;
  kind = λ i. if i == 1 then type_dir else type_file;
  inode_num = λ i. i;
  file = λ i. empty_file 0;
  dir = λ i. record { entries = record { name = x_name; inode = 2 } ∷ []; count = 1 };
  pmm = record { bitmap = λ i. 3; total_pages = 4; used_pages = 2 };
}

-- The entries of `shadowfs_ops` that an open of a file that exists, without `O_TRUNC`, and a close call
abbrev shadow_ops : FsOps Fs
shadow_ops = record {
  lookups = λ w. record { has_lookup = λ i. true; lookup = shadowfs_lookup w.disk };
  kind = λ w i. w.disk.kind i;
  size = λ w i. (w.disk.file i).size;
  create = λ w i. none;
  delete = λ w i. none;
  truncate = λ w i. none;
  open_file = λ w i. some (shadowfs_open w);
  close = λ w i. some (shadowfs_close w);
  read = λ w i. none;
  write = λ w i. none;
  readdir = λ w i. none;
  mkdir = λ w i. none;
}

abbrev shadow_booted : Vfs Fs
shadow_booted = record {
  world = record { heap = mem_init; disk = shadow };
  mounts = root_mount ∷ [];
  table = no_fds;
  file = λ p. record { inode = 0; position = 0; flags = 0; ref_count = 0; private_data = 0 };
}

abbrev inode_x : ℕ
inode_x = 2

abbrev x_path : List ℕ
x_path = slash ∷ x_name

resolve_test : resolve shadow_ops shadow_booted x_path ≡ some 2
unfolding resolve vfs_resolve_path vfs_find_mount kstreq shadowfs_lookup find_entry
resolve_test = refl

vfs_close-vfs_open_example :
    (v' : Vfs Fs) × (vfs_open shadow_ops shadow_booted x_path 0 ≡ some (v', pos 3))
    × ((v'.file (vfs_get_file v'.table (pos 3))).inode ≡ inode_x)
    × ((v'' : Vfs Fs) × (vfs_close shadow_ops v' (pos 3) ≡ some (v'', pos 0))
        × (v''.world ≡ shadow_booted.world)
        × (v''.table ≡ shadow_booted.table))
vfs_close-vfs_open_example =
    vfs_close-vfs_open shadow_ops shadow_booted x_path 0 inode_x file_at 3 heap_after
      (Reach-IsValid boot).0 (Reach-IsValid boot).1 no_fds-length resolve_test (λ e. omega arith)
      refl refl refl kmalloc_file_test first_fd
