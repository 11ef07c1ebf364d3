-- ===== src/Vfs/Open/Close.antt =====
-- `vfs_open` and `vfs_close` of file_system/vfs/vfs.c, one after the other.
use mathlib.Core.Option
use acorn_os.Heap.{Heap, kmalloc, kfree}
use acorn_os.Heap.Tiling.{IsValid}
use acorn_os.Heap.Free.{NoAdjacent}
use acorn_os.Heap.RoundTrip.{kfree-kmalloc, kmalloc-nonnull}
use acorn_os.Vfs.Files.{
  close_at, closed, close_hook, File, World, FsOps, Vfs, vfs_max_fds, vfs_get_file, vfs_free_fd,
  vfs_close, release, with_file,
}
use acorn_os.Vfs.Files.Table.{vfs_alloc_fd-first, IsFirstFree, set-slot}
use acorn_os.Vfs.Open.{
  o_append, finish_open, open_hook, truncate_hook, has_flag, o_trunc, sizeof_file, resolve,
  find_inode, new_file, append_position, setup, vfs_open_file, install, vfs_open,
}
use acorn_os.Common.Int.{pos}
use acorn_os.Common.{
  sym, ℕ, ◌-◌, ◌≡◌, refl, ap, ◌∙◌, ◌≢◌, inl, inr, false, some, List, arith, ◌==◌, ==_refl,
  Bool-cases, length, set,
}

module _ {S : Type 0} (ops : FsOps S) where
  -- The file that opening an inode gives, where the file system's `open` changes nothing.
  abbrev pub opened : Vfs S → Heap → ℕ → ℕ → File
  opened v h inode flags =
      append_position ops (record v.world { heap = h }) (new_file ops inode flags)
        (new_file ops inode flags)

  find_inode-existing :
      (v : Vfs S) (path : List ℕ) (flags inode : ℕ)
      → resolve ops v path ≡ some inode
      → (inode == 0) ≡ false
      → find_inode ops v path flags ≡ some (v.world, inode)
  unfolding find_inode
  find_inode-existing v path flags inode r nz = rw (r, nz, find_inode) refl

  setup-plain :
      (v : Vfs S) (w : World S) (flags inode p : ℕ)
      → has_flag flags o_trunc ≡ false
      → open_hook ops w (new_file ops inode flags) ≡ (w, new_file ops inode flags, false)
      → setup ops v w p (new_file ops inode flags)
        ≡ some (
          with_file ops v p w
              (append_position ops w (new_file ops inode flags) (new_file ops inode flags)),
          p,
        )
  unfolding setup
  setup-plain v w flags inode p nt hook =
      let f = new_file ops inode flags in
      let kept : truncate_hook ops w inode flags ≡ w = rw nt refl in
      ap (finish_open ops v p f) (ap (λ u. open_hook ops u f) kept ∙ hook)

  vfs_open_file-existing :
      (v : Vfs S) (path : List ℕ) (flags inode p : ℕ) (h : Heap)
      → resolve ops v path ≡ some inode
      → (inode == 0) ≡ false
      → has_flag flags o_trunc ≡ false
      → open_hook ops (record v.world { heap = h }) (new_file ops inode flags)
        ≡ (record v.world { heap = h }, new_file ops inode flags, false)
      → kmalloc v.world.heap sizeof_file ≡ some (p, h)
      → vfs_open_file ops v path flags
        ≡ some (with_file ops v p (record v.world { heap = h }) (opened v h inode flags), p)
  unfolding vfs_open_file
  vfs_open_file-existing v path flags inode p h r nz nt hook e =
      let f = find_inode-existing v path flags inode r nz in
      let s = setup-plain v (record v.world { heap = h }) flags inode p nt hook in
      rw (f, nz, e, vfs_open_file) s

  -- The file after its last reference is dropped.
  abbrev dropped : File → File
  dropped f = record f { ref_count = 0 }

  release-last :
      (v : Vfs S) (p : ℕ) (w : World S) (f : File) (h : Heap)
      → f.ref_count ≡ 1
      → kfree w.heap p ≡ some h
      → release ops v p (w, f) ≡ some (with_file ops v p (record w { heap = h }) (dropped f))
  unfolding release
  release-last v p w f h one e = rw (one, e) refl

  -- `vfs_close` of a file with one reference, where the file system's `close` changes nothing.
  vfs_close-last :
      (v : Vfs S) (fd p : ℕ) (h : Heap)
      → vfs_get_file v.table (pos fd) ≡ p
      → (p == 0) ≡ false
      → close_hook ops v.world (v.file p) ≡ (v.world, v.file p)
      → (v.file p).ref_count ≡ 1
      → kfree v.world.heap p ≡ some h
      → (v' : Vfs S) × (vfs_close ops v (pos fd) ≡ some (v', pos 0))
        × (v'.world ≡ record v.world { heap = h })
        × (v'.table ≡ vfs_free_fd v.table (pos fd))
  unfolding vfs_close close_at
  vfs_close-last v fd p h at nz hook one e =
      let r = release-last v p v.world (v.file p) h one e in
      let v' = with_file ops v p (record v.world { heap = h }) (dropped (v.file p)) in
      let table = vfs_free_fd v.table (pos fd) in
      (
        record v' { table = table },
        ap (close_at ops v (pos fd)) at
            ∙ rw nz (ap (Option.map (closed ops (pos fd))) (ap (release ops v p) hook ∙ r)),
        refl,
        refl,
      )

  opened_lem :
      (v : Vfs S) (h : Heap) (inode flags : ℕ)
      → ((opened v h inode flags).inode ≡ inode) × ((opened v h inode flags).ref_count ≡ 1)
  opened_lem v h inode flags = elim (Bool-cases (has_flag flags o_append)) [
    | inl e ↦ (rw e refl, rw e refl)
    | inr e ↦ (rw e refl, rw e refl)
  ]

  -- The state that opening leaves.
  abbrev after_open : Vfs S → Heap → ℕ → ℕ → ℕ → ℕ → Vfs S
  after_open v h inode flags p fd =
      record (with_file ops v p (record v.world { heap = h }) (opened v h inode flags)) {
        table = set v.table fd p;
      }

  file-after_open :
      (v : Vfs S) (h : Heap) (inode flags p fd : ℕ)
      → (after_open v h inode flags p fd).file p ≡ opened v h inode flags
  file-after_open v h inode flags p fd = rw (==_refl p) refl

  vfs_open-after :
      (v : Vfs S) (path : List ℕ) (flags inode p fd : ℕ) (h : Heap)
      → (p == 0) ≡ false
      → IsFirstFree (vfs_max_fds - 3) 3 v.table fd
      → vfs_open_file ops v path flags
        ≡ some (with_file ops v p (record v.world { heap = h }) (opened v h inode flags), p)
      → vfs_open ops v path flags ≡ some (after_open v h inode flags p fd, pos fd)
  unfolding vfs_open install
  vfs_open-after v path flags inode p fd h live first opens =
      rw (opens, live, vfs_alloc_fd-first v.table p fd first, vfs_open, install) refl

  -- On a valid heap without free neighbours and a full-length descriptor table: opening a path that
  -- resolves to an inode whose `open` and `close` succeed without a change, as those of shadowFS, devfs
  -- and procfs do, or are missing, without `O_TRUNC`, when the heap has room for
  -- the file and the descriptor `fd` is the lowest free one, returns `fd`, at which then stands a file
  -- of that inode; and closing `fd` returns 0 and leaves the heap, the file systems and the
  -- descriptors as they were before the opening.
  pub vfs_close-vfs_open :
      (v : Vfs S) (path : List ℕ) (flags inode p fd : ℕ) (h : Heap)
      → IsValid v.world.heap
      → NoAdjacent v.world.heap.blocks
      → length v.table ≡ vfs_max_fds
      → resolve ops v path ≡ some inode
      → inode ≢ 0
      → has_flag flags o_trunc ≡ false
      → open_hook ops (record v.world { heap = h }) (new_file ops inode flags)
        ≡ (record v.world { heap = h }, new_file ops inode flags, false)
      → close_hook ops (record v.world { heap = h }) (opened v h inode flags)
        ≡ (record v.world { heap = h }, opened v h inode flags)
      → kmalloc v.world.heap sizeof_file ≡ some (p, h)
      → IsFirstFree (vfs_max_fds - 3) 3 v.table fd
      → (v' : Vfs S) × (vfs_open ops v path flags ≡ some (v', pos fd))
        × ((v'.file (vfs_get_file v'.table (pos fd))).inode ≡ inode)
        × ((v'' : Vfs S) × (vfs_close ops v' (pos fd) ≡ some (v'', pos 0))
            × (v''.world ≡ v.world)
            × (v''.table ≡ v.table))
  vfs_close-vfs_open v path flags inode p fd h valid na l r nz nt hook hook' e first =
      let nz' : (inode == 0) ≡ false = ground arith in
      let live = kmalloc-nonnull v.world.heap h sizeof_file p valid e in
      let opens = vfs_open_file-existing v path flags inode p h r nz' nt hook e in
      let (lo, hi, free, below) = first in
      let (at, same, back) = set-slot v.table p fd (omega arith) (omega arith) free in
      let v' = after_open v h inode flags p fd in
      let file = file-after_open v h inode flags p fd in
      let (is, one) = opened_lem v h inode flags in
      let node : (v'.file p).inode ≡ inode = ap (λ f. f.inode) file ∙ is in
      let unhooked : close_hook ops v'.world (v'.file p) ≡ (v'.world, v'.file p) =
        ap (close_hook ops v'.world) file ∙ hook' ∙ ap (λ f. (v'.world, f)) (sym file) in
      let restored = kfree-kmalloc v.world.heap h sizeof_file p valid na e in
      let (v'', closes, world, table) =
        vfs_close-last v' fd p v.world.heap at live unhooked (ap (λ f. f.ref_count) file ∙ one)
          restored in
      (
        v',
        vfs_open-after v path flags inode p fd h live first opens,
        rw at node,
        (v'', closes, world, table ∙ back),
      )
