-- ===== src/Libc/Split.antt =====
-- What `split_block` of libc/src/malloc.c makes of a block, and what `malloc` and `free` make of it.
use acorn_os.Libc.{
  Block, header_size, split_block, first_fit, align8, malloc, release, free_at, free_ptr,
}
use acorn_os.Common.{
  ℕ, ◌+◌, ◌^◌, ◌≤◌, ◌<◌, ◌≡◌, refl, sym, ap, ◌∙◌, Bool, true, false, ◌&&◌, Option, some, List, [],
  ◌∷◌, arith, ltb, leb, ◌==◌, add64, sub64,
}

-- The first byte behind a block.
abbrev pub end_of : Block → ℕ
end_of b = b.addr + header_size + b.size

-- Of a block with more than `size + header_size` bytes, `split_block` makes two: the first has the
-- address of the block and `size` bytes, the second stands right behind it and is free. The second
-- does not end where the block ended: it ends `size` bytes later, in memory that was not the block's.
pub split_block_lem :
    (b : Block) (size : ℕ)
    → end_of b + size < 2 ^ 64
    → size + header_size < b.size
    → (rest : Block) × (split_block b size ≡ record b { size = size } ∷ rest ∷ [])
      × (rest.addr ≡ b.addr + header_size + size)
      × (rest.free ≡ true)
      × (end_of rest ≡ end_of b + size)
unfolding split_block
split_block_lem b size l h =
    let rest : Block = record {
      addr = add64 (add64 b.addr header_size) size;
      size = sub64 b.size header_size;
      free = true;
    } in
    let more : ltb b.size (add64 (add64 size header_size) 1) ≡ false = ground arith in
    (rest, rw more refl, omega arith, refl, omega arith)

align8-le : (size : ℕ) → size + 7 < 2 ^ 64 → align8 size ≤ size + 7
unfolding align8
align8-le size h = omega arith

-- The first block serves a request and is split.
first_fit-split :
    (b rest : Block) (bs : List Block) (n : ℕ)
    → b.free ≡ true
    → b.addr + header_size < 2 ^ 64
    → n ≤ b.size
    → split_block b n ≡ record b { size = n } ∷ rest ∷ []
    → first_fit (b ∷ bs) n
      ≡ some (b.addr + header_size, record b { size = n; free = false } ∷ rest ∷ bs)
unfolding first_fit
first_fit-split b rest bs n f l h e =
    let fits : leb n b.size ≡ true = ground arith in
    let at : add64 b.addr header_size ≡ b.addr + header_size = omega arith in
    let good : (b.free && leb n b.size) ≡ true = rw (f, fits) refl in rw (good, e, at) refl

-- `free` of the first block, with a free block behind it.
free_ptr-merge :
    (b rest : Block) (bs : List Block)
    → b.addr + header_size < 2 ^ 64
    → b.size + header_size + rest.size < 2 ^ 64
    → rest.free ≡ true
    → free_ptr (b ∷ rest ∷ bs) (b.addr + header_size)
      ≡ some (record b { size = b.size + header_size + rest.size; free = true } ∷ bs)
unfolding free_ptr free_at release
free_ptr-merge b rest bs l k f =
    let live : (b.addr + header_size == 0) ≡ false = ground arith in
    let at : (add64 b.addr header_size == b.addr + header_size) ≡ true = ground arith in
    let all : add64 b.size (add64 header_size rest.size) ≡ b.size + header_size + rest.size =
      omega arith in
    rw (live, at, f, all) refl

-- When the first block of the heap is free and is split for a request of `size > 0` bytes, `malloc`
-- returns the block's data, and `free` of it leaves a heap in which that block is larger than
-- before, by the request rounded up to a multiple of 8: the bytes behind its end are counted as its.
pub free-malloc :
    (heap_grow : ℕ → Option ℕ) (b : Block) (bs : List Block) (size : ℕ)
    → b.free ≡ true
    → 0 < b.addr
    → 0 < size
    → end_of b + size + 8 < 2 ^ 64
    → align8 size + header_size < b.size
    → (blocks : List Block) × (malloc heap_grow (b ∷ bs) size ≡ (b.addr + header_size, blocks))
      × (free_ptr blocks (b.addr + header_size)
          ≡ some (record b { size = b.size + align8 size } ∷ bs))
unfolding malloc
free-malloc heap_grow b bs size f ab pos l h =
    let n = align8 size in
    let up = align8-le size (omega arith) in
    let (rest, e, at, fr, ends) = split_block_lem b n (omega arith) h in
    let nz : (size == 0) ≡ false = ground arith in
    let fit = first_fit-split b rest bs n f (omega arith) (omega arith) e in
    let whole : n + header_size + rest.size ≡ b.size + n = omega (arith, at, ends) in
    let bound : n + header_size + rest.size < 2 ^ 64 = omega arith in
    let merge =
      free_ptr-merge (record b { size = n; free = false }) rest bs (omega arith) bound fr in
    let kept = ap (λ (x : Bool). some (record b { size = b.size + n; free = x } ∷ bs)) (sym f) in
    let same = ap (λ k. some (record b { size = k; free = true } ∷ bs)) whole in
    (
      record b { size = n; free = false } ∷ rest ∷ bs,
      rw (nz, fit, malloc) refl,
      merge ∙ same ∙ kept,
    )
