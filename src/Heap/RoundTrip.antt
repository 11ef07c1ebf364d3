-- ===== src/Heap/RoundTrip.antt =====
-- `kfree` after `kmalloc`, and the histories of the kernel heap of kernel/memory/mem.c.

use acorn_os.Heap.{
  Block, Heap, header_size, heap_start, heap_size, mem_init, align4, take_block, head_size,
  mark_free, absorb, coalesce_from, coalesce, kmalloc, kfree,
}
use acorn_os.Heap.Tiling.{Tiles, Tiles-le, in_use-le, used_blocks, IsValid}
use acorn_os.Heap.Malloc.{Takes, here, there, Takes-Outcome, kmalloc-Takes, kmalloc-IsValid}
use acorn_os.Heap.Free.{NoAdjacent, head_free, kfree-IsValid, kfree-null}
use acorn_os.Common.{
  ℕ, ◌+◌, ◌^◌, ◌≤◌, ◌<◌, ◌≡◌, refl, sym, ap, ◌∙◌, subst, ◌⊎◌, inl, inr, true, false, ◌&&◌, some,
  List, [], ◌∷◌, ◌++◌, arith, ltb, ◌==◌, ltb→lt, Bool-cases, sub32, add64, sub64,
}

coalesce_from-NoAdjacent :
    (b : Block) (bs : List Block) → NoAdjacent (b ∷ bs) → coalesce_from b bs ≡ b ∷ bs
unfolding coalesce_from
coalesce_from-NoAdjacent b [] n = refl
coalesce_from-NoAdjacent b (c ∷ bs) n =
    rw (n.0, coalesce_from) (ap (◌∷◌ b) (coalesce_from-NoAdjacent c bs n.1))

-- A walk past a block that does not merge with the next.
coalesce-cons :
    (c : Block) (bs : List Block)
    → (c.free && head_free bs) ≡ false
    → coalesce (c ∷ bs) ≡ c ∷ coalesce bs
unfolding coalesce coalesce_from
coalesce-cons c [] e = refl
coalesce-cons c (b ∷ bs) e = rw (e, coalesce_from)

take_block-restore :
    (b : Block) (n start stop : ℕ) (bs : List Block)
    → stop + 4 < 2 ^ 64
    → b.free ≡ true
    → n ≤ b.size
    → Tiles start stop (b ∷ bs)
    → NoAdjacent (b ∷ bs)
    → (cs : List Block) × (mark_free (take_block b n bs) (b.addr + header_size)
        ≡ some (head_size (take_block b n []), cs))
      × (coalesce cs ≡ b ∷ bs)
      × (head_free cs ≡ true)
unfolding take_block mark_free coalesce coalesce_from absorb
take_block-restore b n start stop bs s f l t na =
    elim (Bool-cases (ltb (add64 (add64 n header_size) 4) b.size)) [
      | inl split ↦
          let fits = Tiles-le _ stop bs t.1 in
          let k = ltb→lt _ _ split in
          let restored : add64 n (add64 header_size (sub64 (sub64 b.size n) header_size)) ≡ b.size =
            omega (arith, fits, k) in
          let whole : record b { size = b.size; free = true } ≡ b = ground arith in
          let last : Block = record {
            addr = add64 (add64 b.addr header_size) n;
            size = sub64 (sub64 b.size n) header_size;
            free = true;
          } in
          rw split (
            record b { size = n; free = true } ∷ last ∷ bs,
            ground (arith, fits),
            ap (λ z. coalesce_from (record b { size = z; free = true }) bs) restored
                ∙ ap (λ z. coalesce_from z bs) whole
                ∙ coalesce_from-NoAdjacent b bs na,
            refl,
          )
      | inr whole ↦
          let fits = Tiles-le _ stop bs t.1 in
          let same : record b { free = true } ≡ b = ground arith in
          rw whole (b ∷ bs, ground (arith, fits, same), coalesce_from-NoAdjacent b bs na, f)
    ]

Takes-restore :
    {n : ℕ} {bs cs : List Block} {b : Block}
    → Takes n bs b cs
    → (start stop : ℕ) → stop + 4 < 2 ^ 64
    → Tiles start stop bs
    → NoAdjacent bs
    → (ds : List Block) × (mark_free cs (b.addr + header_size)
        ≡ some (head_size (take_block b n []), ds))
      × (coalesce ds ≡ bs)
      × (head_free ds ≡ head_free bs)
      × (start ≤ b.addr)
unfolding mark_free
Takes-restore {n} (here {bs} b f l) start stop s t na =
    let (ds, m, c, h) = take_block-restore b n start stop bs s f l t na in
    (ds, m, c, h ∙ sym f, omega arith)
Takes-restore {n} {b = b} (there {bs} {cs} c nf k) start stop s t na =
    let (ds, m, e, h, lo) = Takes-restore k (start + header_size + c.size) stop s t.1 na.1 in
    let fits = Tiles-le _ stop bs t.1 in
    let hi = (Takes-Outcome k (start + header_size + c.size) stop s t.1).inside in
    (
      c ∷ ds,
      ground (arith, m, lo, fits, hi),
      coalesce-cons c ds (ap (λ z. c.free && z) h ∙ na.0) ∙ ap (◌∷◌ c) e,
      refl,
      omega (arith, lo),
    )

-- On a valid heap with no two free neighbours, `kfree` of what `kmalloc` has just returned gives back
-- exactly the heap from before: the same blocks and the same usage counter.
pub kfree-kmalloc :
    (h h' : Heap) (size p : ℕ)
    → IsValid h
    → NoAdjacent h.blocks
    → kmalloc h size ≡ some (p, h')
    → kfree h' p ≡ some h
unfolding kfree
kfree-kmalloc h h' size p v na e =
    let stop = heap_start + heap_size in
    let (b, cs, t, pe, be, ue, nz) = kmalloc-Takes h h' size p e in
    let (ds, m, c, hd, lo) = Takes-restore t heap_start stop (omega arith) v.tiles na in
    let o = Takes-Outcome t heap_start stop (omega arith) v.tiles in
    let bound = in_use-le heap_start stop h.blocks v.tiles in
    let pe' : p ≡ b.addr + header_size = omega (arith, pe, o.inside) in
    let found : mark_free h'.blocks p ≡ some (head_size (take_block b (align4 size) []), ds) =
      rw (be, pe') m in
    let used : sub32 h'.heap_used (head_size (take_block b (align4 size) [])) ≡ h.heap_used =
      rw ue (omega (arith, o.within, o.inside, bound, v.counted)) in
    let live : (p == 0) ≡ false = ground (arith, pe') in
    rw (live, found, c) (ap (λ u. some (record h { heap_used = u })) used)

pub kmalloc-nonnull :
    (h h' : Heap) (size p : ℕ) → IsValid h → kmalloc h size ≡ some (p, h') → (p == 0) ≡ false
kmalloc-nonnull h h' size p v e =
    let (b, cs, t, pe, be, ue, nz) = kmalloc-Takes h h' size p e in
    let o = Takes-Outcome t heap_start (heap_start + heap_size) (omega arith) v.tiles in
    let pe' : p ≡ b.addr + header_size = omega (arith, pe, o.inside) in ground (arith, pe')

take_block-NoAdjacent :
    (b : Block) (n : ℕ) (bs : List Block)
    → b.free ≡ true
    → NoAdjacent (b ∷ bs)
    → NoAdjacent (take_block b n bs) × (head_free (take_block b n bs) ≡ false)
unfolding take_block
take_block-NoAdjacent b n bs f na = ground arith

Takes-NoAdjacent :
    {n : ℕ} {bs cs : List Block} {b : Block}
    → Takes n bs b cs
    → NoAdjacent bs
    → NoAdjacent cs × ((head_free cs ≡ false) ⊎ (head_free cs ≡ head_free bs))
Takes-NoAdjacent {n} (here {bs} b f l) na =
    let (k, h) = take_block-NoAdjacent b n bs f na in (k, inl h)
Takes-NoAdjacent (there c nf t) na =
    let (k, h) = Takes-NoAdjacent t na.1 in ((ground arith, k), inr refl)

-- One call of the heap's interface; a pointer given to `kfree` is null or that of a block in use.
pub data Step : Heap → Heap → Type 0 where
  malloc : {h h' : Heap} (size p : ℕ) → size < 2 ^ 63 → kmalloc h size ≡ some (p, h') → Step h h'
  free :
      {h h' : Heap} (xs ys : List (ℕ × ℕ)) (a k : ℕ)
      → used_blocks h.blocks ≡ xs ++ (a, k) ∷ ys
      → kfree h (a + header_size) ≡ some h'
      → Step h h'
  free_null : {h h' : Heap} → kfree h 0 ≡ some h' → Step h h'

pub data Reach : Heap → Type 0 where
  boot : Reach mem_init
  next : {h h' : Heap} → Reach h → Step h h' → Reach h'

Step-keeps :
    {h h' : Heap} → Step h h' → IsValid h × NoAdjacent h.blocks → IsValid h' × NoAdjacent h'.blocks
Step-keeps {h} {h'} (malloc size p s e) (v, na) =
    let (b, cs, t, pe, be, ue, nz) = kmalloc-Takes h h' size p e in
    ((kmalloc-IsValid h h' size p v s e).0, rw be (Takes-NoAdjacent t na).0)
Step-keeps {h} {h'} (free xs ys a k l e) (v, na) =
    let (h'', e', v', u, n) = kfree-IsValid h xs ys a k v l in
    let same : h'' ≡ h' = ground arith in
    (subst IsValid same v', subst (λ (x : Heap). NoAdjacent x.blocks) same n)
Step-keeps {h} {h'} (free_null e) (v, na) =
    let same : h ≡ h' = ground (arith, kfree-null h) in
    (subst IsValid same v, subst (λ (x : Heap). NoAdjacent x.blocks) same na)

-- After `mem_init` and any history of `kmalloc` and of `kfree` of blocks in use, the blocks tile the
-- heap, the usage counter is the number of bytes in use, and no two free blocks are neighbours.
pub Reach-IsValid : {h : Heap} → Reach h → IsValid h × NoAdjacent h.blocks
unfolding mem_init
Reach-IsValid boot = (record { tiles = omega arith; counted = refl }, (refl, tt))
Reach-IsValid (next r st) = Step-keeps st (Reach-IsValid r)
