-- ===== src/Devfs/Tests.antt =====
-- A table with one device, and the theorems on it.
use acorn_os.Heap.{kmalloc}
use acorn_os.Strings.{kstreq, kstrcpy}
use acorn_os.Vfs.Mounts.{Superblock, vfs_find_mount}
use acorn_os.Vfs.Files.{File, World}
use acorn_os.Devfs.{
  ReadHandler, DevFs, devfs_max_devices, vfs_max_name, no_device, new_inode, devfs_create_inode,
  devfs_register, devfs_lookup, devfs_read, devfs_write, find_device, call_read, call_write,
}
use acorn_os.Devfs.Register.{IsReady, or_else, devfs_register-find}
use acorn_os.Devfs.Handlers.{devfs_register-read}
use acorn_os.Common.Int.{pos}
use acorn_os.Common.{
  ℕ, zero, suc, ◌+◌, ◌≡◌, refl, true, none, some, List, [], ◌∷◌, arith, if◌then◌else◌, length,
  get_or, replicate,
}

abbrev device_path : List ℕ
device_path = 47 ∷ 100 ∷ []

abbrev mounts : List Superblock
mounts = record { mount_point = device_path; root = 1; ops = 5; private_data = 0; flags = 0 } ∷ []

-- The state of the machine counts the reads.
abbrev count_reads : ReadHandler ℕ
count_reads m f size = (m + 1, f, 65 ∷ [], pos 1)

abbrev mounted : World (DevFs ℕ)
mounted = record {
  heap = record { blocks = record { addr = 1000; size = 1000; free = true } ∷ []; heap_used = 0 };
  disk = record {
    devices = replicate devfs_max_devices no_device;
    count = 0;
    capacity = devfs_max_devices;
    root_inode = 1;
    inode = λ i. new_inode 0 2 none;
    machine = 0;
  };
}

abbrev keys : List ℕ
keys = 107 ∷ 98 ∷ []

abbrev registered : World (DevFs ℕ)
registered = elim (devfs_register mounted mounts device_path keys (some count_reads) none) [
  | none ↦ mounted
  | some r ↦ r.0
]

abbrev looked_up : World (DevFs ℕ)
looked_up = elim (devfs_lookup registered 1 keys) [ none ↦ mounted | some r ↦ r.0 ]

abbrev opened : File
opened = record { inode = 1144; position = 0; flags = 0; ref_count = 1; private_data = 0 }

mounted-IsReady : IsReady mounted.disk
mounted-IsReady = (refl, refl, same_names devfs_max_devices)
  where
    same_names :
        (n j : ℕ)
        → length (get_or (replicate n (no_device {D = ℕ})) j no_device).name ≡ vfs_max_name
    same_names zero j = refl
    same_names (suc n) zero = refl
    same_names (suc n) (suc j) = same_names n j

register_test :
    devfs_register mounted mounts device_path keys (some count_reads) none
    ≡ some (registered, pos 0)
unfolding devfs_register devfs_create_inode kmalloc vfs_find_mount
register_test = refl

lookup_test : devfs_lookup registered 1 keys ≡ some (looked_up, 1144)
unfolding devfs_register devfs_create_inode devfs_lookup find_device kmalloc kstrcpy kstreq
    vfs_find_mount
lookup_test = refl

keys_fresh : find_device mounted.disk.count 0 mounted.disk.devices keys ≡ none
unfolding find_device
keys_fresh = refl

devfs_register-find_example :
    IsReady registered.disk
    × ((q : List ℕ)
        → find_device registered.disk.count 0 registered.disk.devices q
          ≡ or_else
              (find_device mounted.disk.count 0 mounted.disk.devices q)
              (if kstreq keys q then some mounted.disk.count else none))
devfs_register-find_example =
    devfs_register-find mounted registered mounts device_path keys (some count_reads) none
      mounted-IsReady (omega arith) register_test

devfs_register-read_example :
    ((size : ℕ)
      → devfs_read looked_up opened size ≡ call_read looked_up opened size (some count_reads))
    × ((src : List ℕ) (size : ℕ)
        → devfs_write looked_up opened src size ≡ call_write looked_up opened src size none)
devfs_register-read_example =
    devfs_register-read mounted registered looked_up mounts device_path keys (some count_reads) none
      1 1144 opened mounted-IsReady (omega arith, (omega arith, tt)) (omega arith) keys_fresh
      register_test (omega arith) lookup_test (omega arith) refl
