-- ===== src/Vfs/Files/Seek.antt =====
-- `vfs_seek` of file_system/vfs/vfs.c: the position of an open file.
use acorn_os.Vfs.Files.{with_file, to_int, FsOps, Vfs, vfs_get_file, vfs_seek, seek_position}
use acorn_os.Common.Int.{ℤ}
use acorn_os.Common.{
  ℕ, ◌-◌, ◌^◌, ◌<◌, ◌≡◌, refl, sym, ap, ◌∙◌, ◌≢◌, false, some, arith, ◌==◌, ==_refl, add32, update,
}

update_self : {A : Type 0} (f : ℕ → A) (i : ℕ) (v : A) → update f i v i ≡ v
update_self f i v = rw (==_refl i) refl

module _ {S : Type 0} (ops : FsOps S) where
  -- The position of the file that stands at a descriptor.
  abbrev pub position_at : Vfs S → ℤ → ℕ
  position_at v fd = (v.file (vfs_get_file v.table fd)).position

  -- The file at `fd` moved to the position `n`.
  abbrev moved : Vfs S → ℤ → ℕ → Vfs S
  moved v fd n =
      let p = vfs_get_file v.table fd in
      with_file ops v p v.world (record (v.file p) { position = n })

  position_at-moved : (v : Vfs S) (fd : ℤ) (n : ℕ) → position_at (moved v fd n) fd ≡ n
  position_at-moved v fd n =
      let p = vfs_get_file v.table fd in
      ap (λ f. f.position) (update_self v.file p (record (v.file p) { position = n }))

  seek_moves :
      (v : Vfs S) (fd : ℤ) (offset whence n : ℕ)
      → vfs_get_file v.table fd ≢ 0
      → seek_position ops v (v.file (vfs_get_file v.table fd)) offset whence ≡ some n
      → vfs_seek ops v fd offset whence ≡ (moved v fd n, to_int n)
  unfolding vfs_seek
  seek_moves v fd offset whence n nz e =
      let live : (vfs_get_file v.table fd == 0) ≡ false = ground arith in
      rw (live, e, vfs_seek) refl

  seek_to :
      (v : Vfs S) (fd : ℤ) (offset whence n : ℕ)
      → vfs_get_file v.table fd ≢ 0
      → seek_position ops v (v.file (vfs_get_file v.table fd)) offset whence ≡ some n
      → position_at (vfs_seek ops v fd offset whence).0 fd ≡ n
  seek_to v fd offset whence n nz e =
      ap (λ r. position_at r.0 fd) (seek_moves v fd offset whence n nz e) ∙ position_at-moved v fd n

  -- On a descriptor with an open file, `SEEK_SET` does what `SEEK_CUR` does: it moves the position by
  -- the offset, modulo 2^32, from where it is and not from the start of the file; `SEEK_END` moves it
  -- to the offset from the end; and a `SEEK_CUR` by the opposite offset comes back to the position
  -- from before, if that is a word.
  pub vfs_seek_lem :
      (v : Vfs S) (fd : ℤ) (offset : ℕ)
      → vfs_get_file v.table fd ≢ 0
      → position_at v fd < 2 ^ 32
      → offset < 2 ^ 32
      → (vfs_seek ops v fd offset 0 ≡ vfs_seek ops v fd offset 1)
        × (position_at (vfs_seek ops v fd offset 0).0 fd ≡ add32 (position_at v fd) offset)
        × (position_at (vfs_seek ops v fd offset 2).0 fd
            ≡ add32 (ops.size v.world (v.file (vfs_get_file v.table fd)).inode) offset)
        × (position_at (vfs_seek ops (vfs_seek ops v fd offset 1).0 fd (2 ^ 32 - offset) 1).0 fd
            ≡ position_at v fd)
  unfolding seek_position
  vfs_seek_lem v fd offset nz w l =
      let f = v.file (vfs_get_file v.table fd) in
      let to = add32 f.position offset in
      let cur = seek_moves v fd offset 1 to nz refl in
      let back =
        seek_to (moved v fd to) fd (2 ^ 32 - offset) 1
          (add32 (position_at (moved v fd to) fd) (2 ^ 32 - offset)) nz refl in
      let round : add32 to (2 ^ 32 - offset) ≡ f.position = omega arith in
      let whole = back ∙ ap (λ n. add32 n (2 ^ 32 - offset)) (position_at-moved v fd to) ∙ round in
      (
        seek_moves v fd offset 0 to nz refl ∙ sym cur,
        seek_to v fd offset 0 to nz refl,
        seek_to v fd offset 2 (add32 (ops.size v.world f.inode) offset) nz refl,
        ap (λ r. position_at (vfs_seek ops r.0 fd (2 ^ 32 - offset) 1).0 fd) cur ∙ whole,
      )
