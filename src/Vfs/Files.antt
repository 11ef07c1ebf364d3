-- ===== src/Vfs/Files.antt =====
-- The file descriptors of file_system/vfs/vfs.c: the state of the VFS, and what the operations on an
-- open file do. File systems are a table of operations, `fs_ops_t` of include/file_system/vfs.h.
pub mod Table
pub mod Seek
use mathlib.Core.Option
use acorn_os.Heap.{Heap, kfree}
use acorn_os.Vfs.Mounts.{Superblock}
use acorn_os.Vfs.Resolve.{Lookups}
use acorn_os.Common.Int.{ℤ, pos, negsuc}
use acorn_os.Common.{
  ℕ, zero, suc, ◌+◌, ◌-◌, ◌*◌, ◌/◌, ◌%◌, ◌^◌, ◌≤◌, ◌<◌, min, ◌≡◌, refl, sym, ap, ap₂, ◌∙◌, subst,
  ◌≢◌, ◌↔◌, ◌⊎◌, inl, inr, Bool, true, false, ◌&&◌, ◌||◌, not, Option, none, some, List, [], ◌∷◌,
  ◌++◌, map, append-nil, append_assoc, arith, ltb, leb, ◌==◌, if◌then◌else◌, ltb→lt, lt→ltb, leb→le,
  ==_iff, ==_refl, Bool-cases, Option-cases, length, get_elem?, get_or, set, take, drop, replicate,
  length-append, length-set, length-take, length-drop, length-replicate, take-append-drop,
  length-map, add32, sub32, add64, sub64, update,
}

-- `file_t`
pub record File : Type 0 where
  pub inode : ℕ
  pub position : ℕ
  pub flags : ℕ
  pub ref_count : ℕ
  pub private_data : ℕ

-- What the VFS shares with the file systems: the kernel heap, and `S`, all that is theirs.
pub record World (S : Type 0) : Type 0 where
  pub heap : Heap
  pub disk : S

-- `dentry_t`
pub record Dentry : Type 0 where
  pub name : List ℕ
  pub inode : ℕ
  pub kind : ℕ

-- `fs_ops_t` at each inode: `none` is a null pointer, in the table or for the table. `kind` and `size`
-- read `inode->type` and `inode->size`. A Boolean result says whether the `int` is negative.
pub record FsOps (S : Type 0) : Type 0 where
  pub lookups : World S → Lookups
  pub kind : World S → ℕ → ℕ
  pub size : World S → ℕ → ℕ
  pub create : World S → ℕ → Option (List ℕ → ℕ → World S × ℕ)
  pub delete : World S → ℕ → Option (List ℕ → World S × Bool)
  pub truncate : World S → ℕ → Option (ℕ → World S)
  pub open_file : World S → ℕ → Option (File → World S × File × Bool)
  pub close : World S → ℕ → Option (File → World S × File)
  pub read : World S → ℕ → Option (File → ℕ → World S × File × List ℕ × ℤ)
  pub write : World S → ℕ → Option (File → List ℕ → ℕ → World S × File × ℤ)
  pub readdir : World S → ℕ → Option (File → Dentry → World S × File × Dentry × ℤ)
  pub mkdir : World S → ℕ → Option (List ℕ → World S × Bool)

-- `mount_table`, `file_table`, and the open files by their address.
pub record Vfs (S : Type 0) : Type 0 where
  pub world : World S
  pub mounts : List Superblock
  pub table : List ℕ
  pub file : ℕ → File

abbrev pub vfs_max_fds : ℕ
vfs_max_fds = 256

-- The two tables of `vfs_init`; the mount table is the list of its entries in use.
unfoldable pub vfs_init : {S : Type 0} → World S → (ℕ → File) → Vfs S
vfs_init w file = record { world = w; mounts = []; table = replicate vfs_max_fds 0; file = file }

abbrev pub fail : ℤ
fail = negsuc 0

-- A 32-bit word read as an `int`.
abbrev pub to_int : ℕ → ℤ
to_int w = if ltb w (2 ^ 31) then pos w else negsuc (2 ^ 32 - 1 - w)

-- The loop of `vfs_alloc_fd` over the `n` descriptors from `fd`.
unfoldable pub find_free : ℕ → ℕ → List ℕ → Option ℕ
find_free zero fd table = none
find_free (suc n) fd table =
    let rest = find_free n (fd + 1) table in if get_or table fd 0 == 0 then some fd else rest

-- `none` is the result -1.
unfoldable pub vfs_alloc_fd : List ℕ → ℕ → Option (ℕ × List ℕ)
vfs_alloc_fd table file =
    Option.map (λ fd. (fd, set table fd file)) (find_free (vfs_max_fds - 3) 3 table)

unfoldable pub vfs_free_fd : List ℕ → ℤ → List ℕ
vfs_free_fd table (negsuc n) = table
vfs_free_fd table (pos fd) = if leb vfs_max_fds fd then table else set table fd 0

-- 0 is null.
unfoldable pub vfs_get_file : List ℕ → ℤ → ℕ
vfs_get_file table (negsuc n) = 0
vfs_get_file table (pos fd) = if leb vfs_max_fds fd then 0 else get_or table fd 0

abbrev pub o_rdonly : ℕ
o_rdonly = 0

abbrev pub o_wronly : ℕ
o_wronly = 1

abbrev pub vfs_type_dir : ℕ
vfs_type_dir = 2

module _ {S : Type 0} (ops : FsOps S) where
  abbrev pub with_file : Vfs S → ℕ → World S → File → Vfs S
  with_file v p w f = record v { world = w; file = update v.file p f }

  -- Drop one reference, and free the file when it was the last. `none`: `kfree` is given a pointer
  -- that is no block.
  unfoldable pub release : Vfs S → ℕ → World S × File → Option (Vfs S)
  release v p (w, f) =
      let f' = record f { ref_count = sub32 f.ref_count 1 } in
      if f'.ref_count == 0
      then Option.map (λ h. with_file v p (record w { heap = h }) f') (kfree w.heap p)
      else some (with_file v p w f')

  -- The call of the file system's `close`, if the file has an inode and the inode has one.
  abbrev pub close_hook : World S → File → World S × File
  close_hook w f =
      if f.inode == 0
      then (w, f)
      else elim (ops.close w f.inode) [ none ↦ (w, f) | some close ↦ close f ]

  abbrev pub closed : ℤ → Vfs S → Vfs S × ℤ
  closed fd v = (record v { table = vfs_free_fd v.table fd }, pos 0)

  -- `vfs_close` of the file at `p`, which stands at `fd`.
  unfoldable pub close_at : Vfs S → ℤ → ℕ → Option (Vfs S × ℤ)
  close_at v fd p =
      if p == 0
      then some (v, fail)
      else Option.map (closed fd) (release v p (close_hook v.world (v.file p)))

  unfoldable pub vfs_close : Vfs S → ℤ → Option (Vfs S × ℤ)
  vfs_close v fd = close_at v fd (vfs_get_file v.table fd)

  unfoldable pub vfs_read : Vfs S → ℤ → ℕ → Vfs S × List ℕ × ℤ
  vfs_read v fd size =
      let p = vfs_get_file v.table fd in
      let f = v.file p in
      if p == 0 || f.flags == o_wronly || f.inode == 0
      then (v, [], fail)
      else elim (ops.read v.world f.inode) [
        | none ↦ (v, [], fail)
        | some read ↦ let (w, f', bytes, n) = read f size in (with_file v p w f', bytes, n)
      ]

  unfoldable pub vfs_write : Vfs S → ℤ → List ℕ → ℕ → Vfs S × ℤ
  vfs_write v fd buf size =
      let p = vfs_get_file v.table fd in
      let f = v.file p in
      if p == 0 || f.flags == o_rdonly || f.inode == 0
      then (v, fail)
      else elim (ops.write v.world f.inode) [
        | none ↦ (v, fail)
        | some write ↦ let (w, f', n) = write f buf size in (with_file v p w f', n)
      ]

  -- The position that `whence` and the offset, a word, give; `none` is an invalid `whence`.
  unfoldable pub seek_position : Vfs S → File → ℕ → ℕ → Option ℕ
  seek_position v f offset whence =
      if whence == 0
      then some (add32 f.position offset)
      else if whence == 1
      then some (add32 f.position offset)
      else if whence == 2
      then some (add32 (ops.size v.world f.inode) offset)
      else none

  unfoldable pub vfs_seek : Vfs S → ℤ → ℕ → ℕ → Vfs S × ℤ
  vfs_seek v fd offset whence =
      let p = vfs_get_file v.table fd in
      let f = v.file p in
      if p == 0 then (v, fail) else elim (seek_position v f offset whence) [
        | none ↦ (v, fail)
        | some n ↦ (with_file v p v.world (record f { position = n }), to_int n)
      ]

  unfoldable pub vfs_readdir : Vfs S → ℤ → Dentry → Vfs S × Dentry × ℤ
  vfs_readdir v fd d =
      let p = vfs_get_file v.table fd in
      let f = v.file p in
      if p == 0 || f.inode == 0 || not (ops.kind v.world f.inode == vfs_type_dir)
      then (v, d, fail)
      else elim (ops.readdir v.world f.inode) [
        | none ↦ (v, d, fail)
        | some readdir ↦ let (w, f', d', n) = readdir f d in (with_file v p w f', d', n)
      ]
