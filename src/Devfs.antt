-- ===== src/Devfs.antt =====
-- file_system/devfs/devfs.c: the table of devices, and the files that stand for them. A handler of a
-- device acts on `D`, the state of the hardware and its drivers; a pointer into the table is an index.
mod Tests
pub mod Register
mod Names
pub mod Handlers
use mathlib.Core.Option
use acorn_os.Heap.{kmalloc}
use acorn_os.Strings.{kstrcpy, kstreq}
use acorn_os.Vfs.Mounts.{Superblock, vfs_mount, vfs_find_mount}
use acorn_os.Vfs.Files.{File, Dentry, World, fail, vfs_type_dir}
use acorn_os.Vfs.Open.{vfs_type_file}
use acorn_os.Common.Int.{ℤ, pos}
use acorn_os.Common.{
  ◌>>=◌, ℕ, zero, suc, ◌+◌, Option, none, some, List, [], leb, ◌==◌, if◌then◌else◌, get_elem?,
  get_or, set, replicate, add32, sub32, update,
}

-- `int (*read)(file_t*, void*, uint32_t)`: what it leaves, the bytes of the buffer, and the result
abbrev pub ReadHandler : Type 0 → Type 0
ReadHandler D = D → File → ℕ → D × File × List ℕ × ℤ

abbrev pub WriteHandler : Type 0 → Type 0
WriteHandler D = D → File → List ℕ → ℕ → D × File × ℤ

-- `devfs_device_t`; `none` is a null pointer
pub record Device (D : Type 0) : Type 0 where
  pub name : List ℕ
  pub read : Option (ReadHandler D)
  pub write : Option (WriteHandler D)

-- The fields of `inode_t` that devfs sets, and `devfs_inode_t` behind its `private_data`; `device` is
-- `none` at the root directory.
pub record DevInode : Type 0 where
  pub kind : ℕ
  pub size : ℕ
  pub permissions : ℕ
  pub link_count : ℕ
  pub superblock : ℕ
  pub inode_num : ℕ
  pub device : Option ℕ

-- `devfs_mount_data` and `device_table`, and the inodes by their address
pub record DevFs (D : Type 0) : Type 0 where
  pub devices : List (Device D)
  pub count : ℕ
  pub capacity : ℕ
  pub root_inode : ℕ
  pub inode : ℕ → DevInode
  pub machine : D

abbrev pub vfs_max_name : ℕ
vfs_max_name = 64

abbrev pub devfs_max_devices : ℕ
devfs_max_devices = 16

abbrev pub sizeof_inode : ℕ
sizeof_inode = 64

abbrev pub sizeof_devfs_inode : ℕ
sizeof_devfs_inode = 8

abbrev pub new_inode : ℕ → ℕ → Option ℕ → DevInode
new_inode sb kind device = record {
  kind = kind;
  size = 0;
  permissions = 438;
  link_count = 1;
  superblock = sb;
  inode_num = 0;
  device = device;
}

abbrev set_root : List Superblock → ℕ → ℕ → List Superblock
set_root table i root = elim (get_elem? table i) [
  | none ↦ table
  | some sb ↦ set table i (record sb { root = root })
]

module _ {D : Type 0} where
  -- An entry of the table after `kmemset`
  abbrev pub no_device : Device D
  no_device = record { name = replicate vfs_max_name 0; read = none; write = none }

  -- `none` is the panic of `kmalloc`.
  unfoldable pub devfs_create_inode :
      World (DevFs D) → ℕ → ℕ → Option ℕ → Option (World (DevFs D) × ℕ)
  devfs_create_inode w sb kind device = do
    block ← kmalloc w.heap sizeof_inode
    private ← kmalloc block.1 sizeof_devfs_inode
    some (
      record {
        heap = private.1;
        disk = record w.disk { inode = update w.disk.inode block.0 (new_inode sb kind device) };
      },
      block.0,
    )

  -- `devfs_mount`; the addresses of `devfs_ops` and of `devfs_mount_data` are arguments.
  unfoldable pub devfs_mount :
      World (DevFs D)
      → List Superblock
      → ℕ
      → ℕ
      → List ℕ
      → Option (World (DevFs D) × List Superblock × ℤ)
  devfs_mount w mounts ops private_data path =
      let disk = record w.disk {
        devices = replicate devfs_max_devices no_device;
        count = 0;
        capacity = devfs_max_devices;
        root_inode = 0;
      } in
      let w' = record w { disk = disk } in
      elim (vfs_mount mounts path ops private_data) [
        | none ↦ some (w', mounts, fail)
        | some table ↦ elim (vfs_find_mount table path) [
          | none ↦ some (w', table, fail)
          | some i ↦
              Option.map
                (λ made. (
                  record made.0 { disk = record made.0.disk { root_inode = made.1 } },
                  set_root table i made.1,
                  pos 0,
                ))
                (devfs_create_inode w' i vfs_type_dir none)
        ]
      ]

  -- `&device_table[count]` is filled in.
  abbrev pub add_device :
      DevFs D → List ℕ → Option (ReadHandler D) → Option (WriteHandler D) → DevFs D
  add_device d name read write =
      let old = get_or d.devices d.count no_device in
      record d {
        devices =
            set d.devices d.count
              (record { name = kstrcpy old.name name vfs_max_name; read = read; write = write });
        count = add32 d.count 1;
      }

  abbrev pub number_inode : World (DevFs D) × ℕ → World (DevFs D)
  number_inode (w, i) =
      let d = w.disk in
      record w {
        disk = record d {
          inode = update d.inode i (record (d.inode i) { inode_num = sub32 d.count 1 });
        };
      }

  unfoldable pub devfs_register :
      World (DevFs D)
      → List Superblock
      → List ℕ
      → List ℕ
      → Option (ReadHandler D)
      → Option (WriteHandler D)
      → Option (World (DevFs D) × ℤ)
  devfs_register w mounts path name read write =
      if leb w.disk.capacity w.disk.count
      then some (w, fail)
      else elim (vfs_find_mount mounts path) [
        | none ↦ some (w, fail)
        | some sb ↦
            Option.map (λ made. (number_inode made, pos 0))
              (devfs_create_inode (record w { disk = add_device w.disk name read write }) sb
                vfs_type_file (some w.disk.count))
      ]

  -- The loop of `devfs_lookup` over the `n` devices from `i`
  unfoldable pub find_device : ℕ → ℕ → List (Device D) → List ℕ → Option ℕ
  find_device zero i devices name = none
  find_device (suc n) i devices name =
      let rest = find_device n (i + 1) devices name in
      if kstreq (get_or devices i no_device).name name then some i else rest

  -- The address 0 is for a name that no device has; `none` is the panic of `kmalloc`.
  unfoldable pub devfs_lookup : World (DevFs D) → ℕ → List ℕ → Option (World (DevFs D) × ℕ)
  devfs_lookup w dir name =
      if dir == 0 then some (w, 0) else elim (find_device w.disk.count 0 w.disk.devices name) [
        | none ↦ some (w, 0)
        | some i ↦ devfs_create_inode w (w.disk.inode dir).superblock vfs_type_file (some i)
      ]

  -- The device behind an open file
  abbrev pub device_of : World (DevFs D) → File → Option (Device D)
  device_of w f =
      if f.inode == 0
      then none
      else Option.map (λ i. get_or w.disk.devices i no_device) (w.disk.inode f.inode).device

  abbrev pub set_machine : World (DevFs D) → D → World (DevFs D)
  set_machine w m = record w { disk = record w.disk { machine = m } }

  -- A call of a handler; `none` is the null pointer.
  abbrev pub call_read :
      World (DevFs D) → File → ℕ → Option (ReadHandler D) → World (DevFs D) × File × List ℕ × ℤ
  call_read w f size none = (w, f, [], fail)
  call_read w f size (some read) =
      let r = read w.disk.machine f size in (set_machine w r.0, r.1, r.2, r.3)

  unfoldable pub devfs_read : World (DevFs D) → File → ℕ → World (DevFs D) × File × List ℕ × ℤ
  devfs_read w f size = elim (device_of w f) [
    | none ↦ (w, f, [], fail)
    | some dev ↦ call_read w f size dev.read
  ]

  abbrev pub call_write :
      World (DevFs D) → File → List ℕ → ℕ → Option (WriteHandler D) → World (DevFs D) × File × ℤ
  call_write w f src size none = (w, f, fail)
  call_write w f src size (some write) =
      let r = write w.disk.machine f src size in (set_machine w r.0, r.1, r.2)

  unfoldable pub devfs_write : World (DevFs D) → File → List ℕ → ℕ → World (DevFs D) × File × ℤ
  devfs_write w f src size = elim (device_of w f) [
    | none ↦ (w, f, fail)
    | some dev ↦ call_write w f src size dev.write
  ]

  unfoldable pub devfs_readdir : World (DevFs D) → File → Dentry → File × Dentry × ℤ
  devfs_readdir w f d = if leb w.disk.count f.position then (f, d, pos 0) else (
    record f { position = add32 f.position 1 },
    record {
      name = kstrcpy d.name (get_or w.disk.devices f.position no_device).name vfs_max_name;
      inode = 0;
      kind = vfs_type_file;
    },
    pos 1,
  )
