-- ===== src/Vfs/Open.antt =====
-- Opening, and the operations on paths, of file_system/vfs/vfs.c.
pub mod Close
use mathlib.Core.Option
use acorn_os.Heap.{kmalloc, kfree}
use acorn_os.Vfs.Path.{split_path}
use acorn_os.Vfs.Resolve.{Walked, found, missing, overflow, no_fuel, vfs_resolve_path}
use acorn_os.Vfs.Files.{
  File, World, FsOps, Vfs, fail, vfs_max_fds, vfs_type_dir, vfs_alloc_fd, with_file,
}
use acorn_os.Common.Int.{ℤ, pos, negsuc}
use acorn_os.Common.{
  ℕ, zero, suc, ◌+◌, ◌-◌, ◌*◌, ◌/◌, ◌%◌, ◌^◌, ◌≤◌, ◌<◌, min, ◌≡◌, refl, sym, ap, ap₂, ◌∙◌, subst,
  ◌≢◌, ◌↔◌, ◌⊎◌, inl, inr, Bool, true, false, ◌&&◌, ◌||◌, not, Option, none, some, List, [], ◌∷◌,
  ◌++◌, map, append-nil, append_assoc, arith, ltb, leb, ◌==◌, if◌then◌else◌, ltb→lt, lt→ltb, leb→le,
  ==_iff, ==_refl, Bool-cases, Option-cases, length, get_elem?, get_or, set, take, drop, replicate,
  length-append, length-set, length-take, length-drop, length-replicate, take-append-drop,
  length-map, add32, sub32, add64, sub64, update,
}

abbrev pub vfs_type_file : ℕ
vfs_type_file = 1

-- `flags & bit`, for a power of two
abbrev pub has_flag : ℕ → ℕ → Bool
has_flag flags bit = not ((flags / bit) % 2 == 0)

abbrev pub o_creat : ℕ
o_creat = 0x4

abbrev pub o_append : ℕ
o_append = 0x8

abbrev pub o_trunc : ℕ
o_trunc = 0x10

abbrev pub sizeof_file : ℕ
sizeof_file = 32

-- The pointer that a resolution returns; `none` is a write behind the component buffer.
abbrev pub pointer : Walked → Option ℕ
pointer (found i) = some i
pointer missing = some 0
pointer overflow = none
pointer no_fuel = none

-- In this module `none` is a call that never returns properly: a write behind a buffer, a `kfree` of
-- no block, or the panic of an exhausted heap.
module _ {S : Type 0} (ops : FsOps S) where
  -- The pointer to the inode of a path, 0 for null.
  unfoldable pub resolve : Vfs S → List ℕ → Option ℕ
  resolve v path = pointer (vfs_resolve_path (ops.lookups v.world) v.mounts path)

  -- The parent's inode and the last name of a path.
  unfoldable pub resolve_parent : Vfs S → List ℕ → Option (ℕ × List ℕ)
  resolve_parent v path = elim (split_path path) [
    | none ↦ none
    | some (parent_path, name) ↦ Option.map (λ parent. (parent, name)) (resolve v parent_path)
  ]

  -- Step 2 of `vfs_open_file`: create the file in its parent directory.
  unfoldable pub create_file : Vfs S → List ℕ → Option (World S × ℕ)
  create_file v path = elim (resolve_parent v path) [
    | none ↦ none
    | some (parent, name) ↦ elim (parent == 0) [
      | true ↦ some (v.world, 0)
      | false ↦ elim (ops.create v.world parent) [
        | none ↦ some (v.world, 0)
        | some create ↦ some (create name vfs_type_file)
      ]
    ]
  ]

  unfoldable pub find_inode : Vfs S → List ℕ → ℕ → Option (World S × ℕ)
  find_inode v path flags = elim (resolve v path) [
    | none ↦ none
    | some inode ↦
        if inode == 0
        then (if has_flag flags o_creat then create_file v path else some (v.world, 0))
        else some (v.world, inode)
  ]

  abbrev pub new_file : ℕ → ℕ → File
  new_file inode flags = record {
    inode = inode;
    position = 0;
    flags = flags;
    ref_count = 1;
    private_data = 0;
  }

  -- Step 5: `O_TRUNC`
  abbrev pub truncate_hook : World S → ℕ → ℕ → World S
  truncate_hook w inode flags =
      if has_flag flags o_trunc
      then (elim (ops.truncate w inode) [ none ↦ w | some truncate ↦ truncate 0 ])
      else w

  -- Step 6: the file system's `open`; `true` is a failure.
  abbrev pub open_hook : World S → File → World S × File × Bool
  open_hook w f = elim (ops.open_file w f.inode) [ none ↦ (w, f, false) | some opens ↦ opens f ]

  -- Step 7: `O_APPEND`, for the file as it was made
  abbrev pub append_position : World S → File → File → File
  append_position w made f =
      if has_flag made.flags o_append then record f { position = ops.size w made.inode } else f

  -- What is left of `vfs_open_file` behind the file system's `open`.
  abbrev pub finish_open : Vfs S → ℕ → File → World S × File × Bool → Option (Vfs S × ℕ)
  finish_open v p made (w, f, failed) =
      if failed
      then Option.map (λ h. (with_file ops v p (record w { heap = h }) f, 0)) (kfree w.heap p)
      else some (with_file ops v p w (append_position w made f), p)

  -- Steps 5 to 7 of `vfs_open_file` on the new file at the address `p`.
  unfoldable pub setup : Vfs S → World S → ℕ → File → Option (Vfs S × ℕ)
  setup v w p f = finish_open v p f (open_hook (truncate_hook w f.inode f.flags) f)

  -- `vfs_open_file`: the address of the new file, 0 on failure.
  unfoldable pub vfs_open_file : Vfs S → List ℕ → ℕ → Option (Vfs S × ℕ)
  vfs_open_file v path flags = elim (find_inode v path flags) [
    | none ↦ none
    | some (w, inode) ↦ elim (inode == 0) [
      | true ↦ some (record v { world = w }, 0)
      | false ↦ elim (kmalloc w.heap sizeof_file) [
        | none ↦ none
        | some (p, h) ↦ setup v (record w { heap = h }) p (new_file inode flags)
      ]
    ]
  ]

  -- The file into the lowest free descriptor, or freed again.
  unfoldable pub install : Vfs S → ℕ → Option (Vfs S × ℤ)
  install v p = elim (vfs_alloc_fd v.table p) [
    | none ↦
        Option.map (λ h. (record v { world = record v.world { heap = h } }, fail))
          (kfree v.world.heap p)
    | some (fd, table) ↦ some (record v { table = table }, pos fd)
  ]

  unfoldable pub vfs_open : Vfs S → List ℕ → ℕ → Option (Vfs S × ℤ)
  vfs_open v path flags = elim (vfs_open_file v path flags) [
    | none ↦ none
    | some (v', p) ↦ elim (p == 0) [ true ↦ some (v', fail) | false ↦ install v' p ]
  ]

  -- The file into the descriptor `fd`; a file that stands there is freed.
  unfoldable pub install_at : Vfs S → ℕ → ℕ → Option (Vfs S × ℤ)
  install_at v p fd =
      Option.map (λ w. (record v { world = w; table = set v.table fd p }, pos fd))
        (if get_or v.table fd 0 == 0
          then some v.world
          else Option.map (λ h. record v.world { heap = h })
              (kfree v.world.heap (get_or v.table fd 0)))

  unfoldable pub vfs_open_at : Vfs S → List ℕ → ℕ → ℤ → Option (Vfs S × ℤ)
  vfs_open_at v path flags (negsuc n) = some (v, fail)
  vfs_open_at v path flags (pos fd) = elim (leb vfs_max_fds fd) [
    | true ↦ some (v, fail)
    | false ↦ elim (vfs_open_file v path flags) [
      | none ↦ none
      | some (v', p) ↦ elim (p == 0) [ true ↦ some (v', fail) | false ↦ install_at v' p fd ]
    ]
  ]

  -- What `vfs_mkdir` and `vfs_delete` return: -1 when the file system's operation fails.
  abbrev pub outcome : Vfs S → World S × Bool → Vfs S × ℤ
  outcome v (w, failed) = (record v { world = w }, if failed then fail else pos 0)

  unfoldable pub vfs_mkdir : Vfs S → List ℕ → Option (Vfs S × ℤ)
  vfs_mkdir v path = elim (resolve_parent v path) [
    | none ↦ none
    | some (parent, dirname) ↦
        if parent == 0 || not (ops.kind v.world parent == vfs_type_dir)
        then some (v, fail)
        else elim (ops.mkdir v.world parent) [
          | none ↦ some (v, fail)
          | some mkdir ↦ some (outcome v (mkdir dirname))
        ]
  ]

  unfoldable pub vfs_delete : Vfs S → List ℕ → Option (Vfs S × ℤ)
  vfs_delete v path = elim (resolve_parent v path) [
    | none ↦ none
    | some (parent, filename) ↦ elim (parent == 0) [
      | true ↦ some (v, fail)
      | false ↦ elim (ops.delete v.world parent) [
        | none ↦ some (v, fail)
        | some delete ↦ some (outcome v (delete filename))
      ]
    ]
  ]
