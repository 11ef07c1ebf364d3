-- ===== src/Heap/Free.antt =====
-- `kfree` of kernel/memory/mem.c.

use acorn_os.Common.{
  subst, ℕ, ◌+◌, ◌^◌, ◌<◌, ◌≤◌, ◌≡◌, ◌∙◌, refl, inl, inr, Bool, true, false, ◌&&◌, List, [], ◌∷◌,
  ◌++◌, arith, some, Bool-cases, add64, sub32,
}
use acorn_os.Heap.{
  Block, Heap, header_size, heap_start, heap_size, mark_free, absorb, coalesce_from, coalesce,
  kfree,
}
use acorn_os.Heap.Tiling.{Tiles, Tiles-le, in_use, in_use-le, used_blocks, IsValid}

abbrev pub head_free : List Block → Bool
head_free [] = false
head_free (b ∷ bs) = b.free

-- No two free blocks are neighbours.
abbrev pub NoAdjacent : List Block → Type 0
NoAdjacent [] = Unit {0}
NoAdjacent (b ∷ bs) = ((b.free && head_free bs) ≡ false) × NoAdjacent bs

-- What merging keeps, and what it gives.
record Merged (start stop : ℕ) (c : Block) (bs out : List Block) : Type 0 where
  tiles : Tiles start stop out
  kept : used_blocks out ≡ used_blocks (c ∷ bs)
  same : in_use out ≡ in_use (c ∷ bs)
  apart : NoAdjacent out
  head : head_free out ≡ c.free

coalesce_from-Merged :
    (c : Block) (bs : List Block) (start stop : ℕ)
    → stop + 4 < 2 ^ 64
    → Tiles start stop (c ∷ bs)
    → Merged start stop c bs (coalesce_from c bs)
unfolding coalesce_from absorb
coalesce_from-Merged c [] start stop s t = record {
  tiles = t;
  kept = refl;
  same = refl;
  apart = (ground arith, tt);
  head = refl;
}
coalesce_from-Merged c (b ∷ bs) start stop s t = elim (Bool-cases (c.free && b.free)) [
  | inl both ↦
      let e : add64 c.size (add64 header_size b.size) ≡ c.size + header_size + b.size =
        omega
          (arith, Tiles-le (start + header_size + c.size + header_size + b.size) stop bs t.1.1) in
      let g : start + header_size + c.size + header_size + b.size
          ≡ start + header_size + (c.size + header_size + b.size) =
        omega arith in
      let m =
        coalesce_from-Merged (absorb c b) bs start stop s
          (t.0, rw e (subst (λ z. Tiles z stop bs) g t.1.1)) in
      rw (both, coalesce_from)
        (record {
          tiles = m.tiles;
          kept = ground (arith, m.kept);
          same = ground (arith, m.same);
          apart = m.apart;
          head = m.head;
        })
  | inr not_both ↦
      let m = coalesce_from-Merged b bs (start + header_size + c.size) stop s t.1 in
      rw (not_both, coalesce_from)
        (record {
          tiles = (t.0, m.tiles);
          kept = ground (arith, m.kept);
          same = ground (arith, m.same);
          apart = (rw m.head not_both, m.apart);
          head = refl;
        })
]

mark_free_lem :
    (bs : List Block) (xs : List (ℕ × ℕ)) (ys : List (ℕ × ℕ)) (a k start stop : ℕ)
    → stop + 4 < 2 ^ 64
    → Tiles start stop bs
    → used_blocks bs ≡ xs ++ (a, k) ∷ ys
    → (cs : List Block) × (mark_free bs (a + header_size) ≡ some (k, cs))
      × Tiles start stop cs
      × (used_blocks cs ≡ xs ++ ys)
      × (in_use bs ≡ in_use cs + k)
      × (start ≤ a)
      × (a + header_size + k ≤ stop)
unfolding mark_free
mark_free_lem [] [] ys a k start stop s t e = cc
mark_free_lem [] (x ∷ xs) ys a k start stop s t e = cc
mark_free_lem (b ∷ bs) [] ys a k start stop s t e = elim (Bool-cases b.free) [
  | inl f ↦
      let (cs, m, tl, u, i, lo, hi) =
        mark_free_lem bs [] ys a k (start + header_size + b.size) stop s t.1 (ground arith) in
      (b ∷ cs, ground (arith, m), (t.0, tl), ground (arith, u), ground (arith, i), omega arith, hi)
  | inr f ↦
      let l = Tiles-le _ stop bs t.1 in
      (
        record b { free = true } ∷ bs,
        ground (arith, l),
        t,
        ground arith,
        ground arith,
        ground arith,
        ground (arith, l),
      )
]
mark_free_lem (b ∷ bs) (x ∷ xs) ys a k start stop s t e = elim (Bool-cases b.free) [
  | inl f ↦
      let (cs, m, tl, u, i, lo, hi) =
        mark_free_lem bs (x ∷ xs) ys a k (start + header_size + b.size) stop s t.1 (ground arith) in
      (b ∷ cs, ground (arith, m), (t.0, tl), ground (arith, u), ground (arith, i), omega arith, hi)
  | inr f ↦
      let (cs, m, tl, u, i, lo, hi) =
        mark_free_lem bs xs ys a k (start + header_size + b.size) stop s t.1 (ground arith) in
      (b ∷ cs, ground (arith, m), (t.0, tl), ground (arith, u), ground (arith, i), omega arith, hi)
]

coalesce-Merged :
    (bs : List Block) (start stop : ℕ)
    → stop + 4 < 2 ^ 64
    → Tiles start stop bs
    → Tiles start stop (coalesce bs)
      × (used_blocks (coalesce bs) ≡ used_blocks bs)
      × (in_use (coalesce bs) ≡ in_use bs)
      × NoAdjacent (coalesce bs)
unfolding coalesce
coalesce-Merged [] start stop s t = (t, refl, refl, tt)
coalesce-Merged (b ∷ bs) start stop s t =
    let m = coalesce_from-Merged b bs start stop s t in (m.tiles, m.kept, m.same, m.apart)

-- On a valid heap `kfree` of the data pointer of a block in use succeeds: that block alone leaves the
-- blocks in use, the heap stays valid, and no two neighbouring blocks are both free afterwards.
pub kfree-IsValid :
    (h : Heap) (xs ys : List (ℕ × ℕ)) (a k : ℕ)
    → IsValid h
    → used_blocks h.blocks ≡ xs ++ (a, k) ∷ ys
    → (h' : Heap) × (kfree h (a + header_size) ≡ some h')
      × IsValid h'
      × (used_blocks h'.blocks ≡ xs ++ ys)
      × NoAdjacent h'.blocks
unfolding kfree
kfree-IsValid h xs ys a k v e =
    let stop = heap_start + heap_size in
    let (cs, m, tl, u, i, lo, hi) =
      mark_free_lem h.blocks xs ys a k heap_start stop (omega arith) v.tiles e in
    let (ctl, ck, ci, cn) = coalesce-Merged cs heap_start stop (omega arith) tl in
    let l = in_use-le heap_start stop h.blocks v.tiles in
    (
      record { blocks = coalesce cs; heap_used = sub32 h.heap_used k },
      ground (arith, m),
      record { tiles = ctl; counted = rw ci (omega (arith, v.counted)) },
      ck ∙ u,
      cn,
    )

-- Freeing a null pointer changes nothing.
pub kfree-null : (h : Heap) → kfree h 0 ≡ some h
unfolding kfree
kfree-null h = refl
