-- ===== src/ShadowFs/File/Write.antt =====
-- `shadowfs_write` of file_system/shadowfs/shadowfs.c.
use acorn_os.Pmm.{pmm_alloc}
use acorn_os.ShadowFs.File.{
  Block, Env, ok, panic, Writing, block_size, block_header, needs_block, last_used, fill_last,
  add_block, with_room, chunk, write_loop, finish_write, shadowfs_write,
}
use acorn_os.ShadowFs.File.Blocks.{
  contents, AreBlocks, IsFile, contents-append, AreBlocks-append, contents-fill_last,
}
use acorn_os.Common.{
  take-add, ℕ, zero, suc, ◌+◌, ◌*◌, ◌^◌, ◌≤◌, ◌<◌, min, ◌≡◌, refl, sym, ap, ◌∙◌, ◌≢◌, ◌⊎◌, inl, inr,
  false, none, some, List, [], ◌∷◌, ◌++◌, append-nil, append_assoc, arith, leb, Bool-cases,
  Option-cases, length, take, drop, length-append, length-take, length-drop, add32, sub32,
}

last_used-le : (bs : List Block) → AreBlocks bs → needs_block bs ≡ false → last_used bs < block_size
last_used-le [] p h = absurd (ground arith)
last_used-le (b ∷ []) p h = ground arith
last_used-le (b ∷ c ∷ bs) p h = last_used-le (c ∷ bs) p.2 h

needs_block-ne-nil : (bs : List Block) → needs_block bs ≡ false → bs ≢ []
needs_block-ne-nil [] h e = cc
needs_block-ne-nil (b ∷ bs) h e = cc

last_used-append : (bs : List Block) (b : Block) → last_used (bs ++ b ∷ []) ≡ b.used
last_used-append [] b = refl
last_used-append (c ∷ []) b = refl
last_used-append (c ∷ d ∷ bs) b = last_used-append (d ∷ bs) b

append-ne-nil : (bs : List Block) (b : Block) → (bs ++ b ∷ []) ≢ []
append-ne-nil [] b e = cc
append-ne-nil (c ∷ bs) b e = cc

-- What one step of the write keeps: the mount's account is one header for each block of the chain.
abbrev Accounted : Writing → Writing → Type 0
Accounted w w' = w'.used + block_header * length w.blocks ≡ w.used + block_header * length w'.blocks

record HasRoom (w w' : Writing) : Type 0 where
  same : contents w'.blocks ≡ contents w.blocks
  blocks_ok : AreBlocks w'.blocks
  nonempty : w'.blocks ≢ []
  room : last_used w'.blocks < block_size
  account : Accounted w w'

module _ (memory : ℕ → List ℕ) (quota : ℕ) (pages : (p : ℕ) → length (memory p) ≡ block_size)
    (fits : quota + block_header < 2 ^ 32) where
  with_room-HasRoom :
      (w : Writing)
      → AreBlocks w.blocks
      → w.used < quota
      → (with_room memory w ≡ none)
        ⊎ ((w' : Writing) × (with_room memory w ≡ some w') × HasRoom w w')
  unfolding with_room add_block
  with_room-HasRoom w p u = elim (Bool-cases (needs_block w.blocks)) [
    | inr old ↦ inr (
      w,
      rw old,
      record {
        same = refl;
        blocks_ok = p;
        nonempty = needs_block-ne-nil w.blocks old;
        room = last_used-le w.blocks p old;
        account = refl;
      },
    )
    | inl new ↦ elim (Option-cases (pmm_alloc w.pmm)) [
      | inl full ↦ inl (rw (new, full))
      | inr ((a, m), got) ↦
          let b : Block = record { page = a; data_bytes = memory a; used = 0 } in
          inr (
            add_block memory a m w,
            rw (new, got),
            record {
              same = contents-append w.blocks (b ∷ []) ∙ append-nil (contents w.blocks);
              blocks_ok = AreBlocks-append w.blocks (b ∷ []) p (pages a, omega arith, tt);
              nonempty = append-ne-nil w.blocks b;
              room = rw (last_used-append w.blocks b) (omega arith);
              account = omega (arith, length-append w.blocks (b ∷ []));
            },
          )
    ]
  ]

  -- What the loop leaves, started with `src` to write.
  record Looped (w : Writing) (src : List ℕ) (written : ℕ) (r : Writing × ℕ) : Type 0 where
    count : ℕ
    counted : r.1 ≡ written + count
    within : count ≤ length src
    appended : contents (r.0).blocks ≡ contents w.blocks ++ take count src
    blocks_ok : AreBlocks (r.0).blocks
    account : Accounted w r.0
    stopped : (count ≡ length src) ⊎ (quota ≤ (r.0).used)

  -- One round of the loop, and what the later rounds leave.
  Looped-step :
      (w w' : Writing) (src : List ℕ) (written n : ℕ) (r : Writing × ℕ)
      → HasRoom w w'
      → n ≡ min (length src) (sub32 block_size (last_used w'.blocks))
      → 0 < length src
      → written + length src < 2 ^ 32
      → Looped
          (record w' { blocks = fill_last w'.blocks (take n src) })
          (drop n src)
          (add32 written n)
          r
      → Looped w src written r
  Looped-step w w' src written n r h size pos s o =
      let fit : (0 < n) × (n ≤ length src) × (last_used w'.blocks + n ≤ block_size) =
        omega (arith, h.room) in
      let (e, q, l) =
        contents-fill_last w'.blocks (take n src) h.blocks_ok h.nonempty
          (omega (arith, length-take n src, fit)) in
      record {
        count = n + o.count;
        counted = omega (arith, o.counted, fit, s);
        within = omega (arith, o.within, length-drop n src, fit);
        appended =
            o.appended
            ∙ ap (λ z. z ++ take o.count (drop n src)) (e ∙ ap (λ z. z ++ take n src) h.same)
            ∙ append_assoc (contents w.blocks) (take n src) (take o.count (drop n src))
            ∙ ap (◌++◌ (contents w.blocks)) (sym (take-add n o.count src));
        blocks_ok = o.blocks_ok;
        account = omega (arith, o.account, h.account, ap (λ (z : ℕ). 24 * z) l);
        stopped = elim o.stopped [
          | inl all ↦ inl (omega (arith, all, length-drop n src, fit))
          | inr over ↦ inr over
        ];
      }

  write_loop-Looped :
      (fuel : ℕ) (w : Writing) (src : List ℕ) (written : ℕ)
      → length src < fuel
      → AreBlocks w.blocks
      → written + length src < 2 ^ 32
      → (write_loop memory quota fuel w src written ≡ panic)
        ⊎ ((r : Writing × ℕ) × (write_loop memory quota fuel w src written ≡ ok r)
            × Looped w src written r)
  unfolding write_loop chunk
  write_loop-Looped zero w src written f p s = absurd (omega arith)
  write_loop-Looped (suc fuel) w [] written f p s = inr (
    (w, written),
    refl,
    record {
      count = 0;
      counted = omega arith;
      within = omega arith;
      appended = sym (append-nil (contents w.blocks));
      blocks_ok = p;
      account = refl;
      stopped = inl refl;
    },
  )
  write_loop-Looped (suc fuel) w (x ∷ xs) written f p s = elim (Bool-cases (leb quota w.used)) [
    | inl over ↦ inr (
      (w, written),
      rw (over, write_loop),
      record {
        count = 0;
        counted = omega arith;
        within = omega arith;
        appended = sym (append-nil (contents w.blocks));
        blocks_ok = p;
        account = refl;
        stopped = inr (ground arith);
      },
    )
    | inr under ↦ elim (with_room-HasRoom w p (ground arith)) [
      | inl full ↦ inl (rw (under, full, write_loop))
      | inr (w', got, h) ↦
          let src = x ∷ xs in
          let n : ℕ = min (length src) (sub32 block_size (last_used w'.blocks)) in
          let fit : (0 < n) × (n ≤ length src) × (last_used w'.blocks + n ≤ block_size) =
            omega (arith, h.room) in
          let (e, q, l) =
            contents-fill_last w'.blocks (take n src) h.blocks_ok h.nonempty
              (omega (arith, length-take n src, fit)) in
          let next : Writing = record w' { blocks = fill_last w'.blocks (take n src) } in
          elim (write_loop-Looped fuel next (drop n src) (add32 written n)
            (omega (arith, length-drop n src, fit)) q (omega (arith, length-drop n src, fit, s))) [
              | inl stop ↦ inl (rw (under, got, write_loop) stop)
              | inr (r, done, o) ↦ inr (
                r,
                rw (under, got, write_loop) done,
                Looped-step w w' src written n r h refl (omega arith) s o,
              )
            ]
    ]
  ]

-- What a write that does not run out of pages did: `n` is the count that it returns.
pub record Wrote (e : Env) (buf : List ℕ) (e' : Env) (n : ℕ) : Type 0 where
  pub within : n ≤ length buf
  pub appended : contents e'.inode.blocks ≡ contents e.inode.blocks ++ take n buf
  pub file : IsFile e'.inode
  pub moved : e'.position ≡ e.position + n
  pub account :
      e'.mount.used + block_header * length e.inode.blocks
      ≡ e.mount.used + block_header * length e'.inode.blocks
  pub stopped : (n ≡ length buf) ⊎ (e.mount.quota ≤ e'.mount.used)

-- Either `shadowfs_write` panics, or it returns a count `n`, and the file then holds its old bytes
-- followed by the first `n` bytes of the buffer, wherever the descriptor's position stood. The
-- position moves on by `n`, the recorded size stays the number of bytes held, the mount is charged one
-- block header for each new block and nothing for the pages, and fewer bytes than asked for are
-- written only when the quota is used up: `SHADOWFS_MAX_FILESIZE` bounds nothing. The fuel of the model never runs out.
pub shadowfs_write_lem :
    (memory : ℕ → List ℕ) (now : ℕ) (e : Env) (buf : List ℕ)
    → ((p : ℕ) → length (memory p) ≡ block_size)
    → e.mount.quota + block_header < 2 ^ 32
    → IsFile e.inode
    → e.inode.size + length buf < 2 ^ 32
    → e.position + length buf < 2 ^ 32
    → (shadowfs_write memory now e buf ≡ panic)
      ⊎ ((e' : Env) × (n : ℕ) × (shadowfs_write memory now e buf ≡ ok (e', n)) × Wrote e buf e' n)
unfolding shadowfs_write finish_write
shadowfs_write_lem memory now e [] pages q f s m = inr (
  e,
  0,
  refl,
  record {
    within = omega arith;
    appended = sym (append-nil (contents e.inode.blocks));
    file = f;
    moved = omega arith;
    account = refl;
    stopped = inl refl;
  },
)
shadowfs_write_lem memory now e (x ∷ xs) pages q f s m =
    elim (write_loop-Looped memory e.mount.quota pages q (suc (length (x ∷ xs)))
      (record {
        blocks = e.inode.blocks;
        block_count = e.inode.block_count;
        used = e.mount.used;
        pmm = e.pmm;
      })
      (x ∷ xs) 0 (omega arith) f.blocks_ok (omega arith)) [
        | inl stop ↦ inl (rw stop)
        | inr (r, done, o) ↦ inr (
          (finish_write e now r).0,
          r.1,
          rw done,
          record {
            within = omega (arith, o.counted, o.within);
            appended =
                o.appended
                ∙ ap (λ k. contents e.inode.blocks ++ take k (x ∷ xs)) {x = o.count} {y = r.1}
                    (omega (arith, o.counted));
            file = record {
              blocks_ok = o.blocks_ok;
              sized = omega (
                arith,
                o.counted,
                o.within,
                f.sized,
                ap length o.appended,
                length-append (contents e.inode.blocks) (take o.count (x ∷ xs)),
                length-take o.count (x ∷ xs),
              );
              small = omega arith;
            };
            moved = omega (arith, o.counted, o.within);
            account = o.account;
            stopped = elim o.stopped [
              | inl all ↦ inl (omega (arith, all, o.counted))
              | inr over ↦ inr over
            ];
          },
        )
      ]
