-- ===== src/ShadowFs/File/Truncate.antt =====
-- `shadowfs_truncate` of file_system/shadowfs/shadowfs.c.
use acorn_os.ShadowFs.File.{Block, Env, block_header, truncate_blocks, refund, shadowfs_truncate}
use acorn_os.ShadowFs.File.Blocks.{contents, AreBlocks, IsFile}
use acorn_os.Common.{
  take-append_ge, take-take_le, take-append_le, take_zero, take_of_nil, ℕ, ◌+◌, ◌-◌, ◌*◌, ◌^◌, ◌≤◌,
  ◌<◌, ◌≡◌, refl, sym, ap, ◌∙◌, ◌↔◌, inl, inr, List, [], ◌∷◌, ◌++◌, append-nil, arith, ltb, ◌==◌,
  if◌then◌else◌, Bool-cases, length, take, length-take, sub32,
}

-- The blocks kept hold the first `r` bytes, and with the blocks freed make up the chain.
record Cut (bs : List Block) (r : ℕ) (out : List Block × List Block) : Type 0 where
  kept : contents out.0 ≡ take r (contents bs)
  blocks_ok : AreBlocks out.0
  parts : length out.0 + length out.1 ≡ length bs

truncate_blocks-Cut : (bs : List Block) (r : ℕ) → AreBlocks bs → Cut bs r (truncate_blocks bs r)
unfolding truncate_blocks
truncate_blocks-Cut [] r p = record { kept = sym (take_of_nil r); blocks_ok = tt; parts = refl }
truncate_blocks-Cut (b ∷ bs) r p = elim (Bool-cases (r == 0)) [
  | inl gone ↦
      let o = truncate_blocks-Cut bs (if ltb r b.used then 0 else r - b.used) p.2 in
      rw gone (record {
        kept =
            o.kept
            ∙ take_zero (if ltb r b.used then 0 else r - b.used) (contents bs) (ground arith)
            ∙ sym (take_zero r (contents (b ∷ bs)) (ground arith));
        blocks_ok = o.blocks_ok;
        parts = omega (arith, o.parts);
      })
  | inr some_left ↦ rw some_left (elim (Bool-cases (ltb r b.used)) [
    | inl trims ↦
        let o = truncate_blocks-Cut bs 0 p.2 in
        rw trims (record {
          kept =
              ap (◌++◌ (take r b.data_bytes)) o.kept
              ∙ append-nil (take r b.data_bytes)
              ∙ sym (
                  take-append_le r (take b.used b.data_bytes) (contents bs)
                    (ground (arith, p.0, length-take b.used b.data_bytes))
                  ∙ take-take_le r b.used b.data_bytes (ground arith));
          blocks_ok = (p.0, ground arith, o.blocks_ok);
          parts = omega (arith, o.parts);
        })
    | inr keeps ↦
        let o = truncate_blocks-Cut bs (r - b.used) p.2 in
        rw keeps (record {
          kept =
              ap (◌++◌ (take b.used b.data_bytes)) o.kept
              ∙ sym (
                  take-append_ge r (take b.used b.data_bytes) (contents bs)
                    (ground (arith, p.0, length-take b.used b.data_bytes))
                  ∙ ap (λ j. take b.used b.data_bytes ++ take j (contents bs))
                      {x = r - length (take b.used b.data_bytes)} {y = r - b.used}
                      (omega (arith, p.0, p.1, length-take b.used b.data_bytes)));
          blocks_ok = (p.0, p.1, o.blocks_ok);
          parts = omega (arith, o.parts);
        })
  ])
]

refund_lem :
    (freed : List Block) (used : ℕ)
    → block_header * length freed ≤ used
    → used < 2 ^ 32
    → refund freed used + block_header * length freed ≡ used
unfolding refund
refund_lem [] used h l = omega arith
refund_lem (b ∷ freed) used h l =
    let rest = refund_lem freed (sub32 used block_header) (omega arith) (omega arith) in
    omega (arith, rest)

-- `shadowfs_truncate` leaves the first `size` bytes of the file, or all of them if it holds fewer, and
-- the mount is given back one block header for each block freed. The recorded size becomes `size`, so
-- it is the number of bytes held exactly when the file was not shorter.
pub shadowfs_truncate_lem :
    (e : Env) (size : ℕ)
    → IsFile e.inode
    → size < 2 ^ 32
    → block_header * length e.inode.blocks ≤ e.mount.used
    → e.mount.used < 2 ^ 32
    → (contents (shadowfs_truncate e size).inode.blocks ≡ take size (contents e.inode.blocks))
      × ((shadowfs_truncate e size).inode.size ≡ size)
      × (size ≤ e.inode.size ↔ IsFile (shadowfs_truncate e size).inode)
      × ((shadowfs_truncate e size).mount.used + block_header * length e.inode.blocks
          ≡ e.mount.used + block_header * length (shadowfs_truncate e size).inode.blocks)
unfolding shadowfs_truncate
shadowfs_truncate_lem e size f s u l = elim (Bool-cases (size == 0)) [
  | inl z ↦ rw z (
    sym (take_zero size (contents e.inode.blocks) (ground arith)),
    refl,
    (λ h. record { blocks_ok = tt; sized = ground arith; small = s }, λ h. ground arith),
    omega (arith, refund_lem e.inode.blocks e.mount.used u l),
  )
  | inr nz ↦
      let o = truncate_blocks-Cut e.inode.blocks size f.blocks_ok in
      let n = ap length o.kept in
      let m = length-take size (contents e.inode.blocks) in
      rw nz (
        o.kept,
        refl,
        (
          λ h. record { blocks_ok = o.blocks_ok; sized = omega (arith, n, m, f.sized); small = s },
          λ h. omega (arith, n, m, f.sized, h.sized),
        ),
        omega (
          arith,
          o.parts,
          refund_lem (truncate_blocks e.inode.blocks size).1 e.mount.used (omega (arith, o.parts))
              l,
        ),
      )
]
