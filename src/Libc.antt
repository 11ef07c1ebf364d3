-- ===== src/Libc.antt =====
-- libc/src/malloc.c: the allocator of user programs. The list of blocks is in address order, and a
-- block's `next` pointer is its place in the list. The pointers are 64-bit words.
mod Tests
pub mod Split
use mathlib.Core.Option
use acorn_os.Common.{
  ℕ, zero, suc, ◌+◌, ◌-◌, ◌*◌, ◌/◌, ◌%◌, ◌^◌, ◌≤◌, ◌<◌, min, ◌≡◌, refl, sym, ap, ap₂, ◌∙◌, subst,
  ◌≢◌, ◌↔◌, ◌⊎◌, inl, inr, Bool, true, false, ◌&&◌, ◌||◌, not, Option, none, some, List, [], ◌∷◌,
  ◌++◌, map, append-nil, append_assoc, arith, ltb, leb, ◌==◌, if◌then◌else◌, ltb→lt, lt→ltb, leb→le,
  ==_iff, ==_refl, Bool-cases, Option-cases, length, get_elem?, get_or, set, take, drop, replicate,
  length-append, length-set, length-take, length-drop, length-replicate, take-append-drop,
  length-map, add32, sub32, add64, sub64, update,
}

-- `block_header_t`, with its address
pub record Block : Type 0 where
  pub addr : ℕ
  pub size : ℕ
  pub free : Bool

-- sizeof(block_header_t)
abbrev pub header_size : ℕ
header_size = 24

abbrev pub chunk_size : ℕ
chunk_size = 4096

-- `split_block`: the block and the new one behind it, if there is one.
unfoldable pub split_block : Block → ℕ → List Block
split_block b size =
    if ltb b.size (add64 (add64 size header_size) 1)
    then b ∷ []
    else record b { size = size }
      ∷ record {
        addr = add64 (add64 b.addr header_size) size;
        size = sub64 b.size header_size;
        free = true;
      }
      ∷ []

-- `current->free = 0` after the split
abbrev pub take_first : List Block → List Block
take_first [] = []
take_first (b ∷ bs) = record b { free = false } ∷ bs

-- The first-fit walk: the pointer, and the blocks.
unfoldable pub first_fit : List Block → ℕ → Option (ℕ × List Block)
first_fit [] size = none
first_fit (b ∷ bs) size =
    if b.free && leb size b.size
    then some (add64 b.addr header_size, take_first (split_block b size) ++ bs)
    else Option.map (λ r. (r.0, b ∷ r.1)) (first_fit bs size)

-- `(size + 7) & ~7`
unfoldable pub align8 : ℕ → ℕ
align8 size = add64 size 7 - add64 size 7 % 8

-- What is asked of the kernel when no block fits.
abbrev pub request_size : ℕ → ℕ
request_size size =
    let needed = add64 size header_size in if ltb chunk_size needed then needed else chunk_size

-- `heap_grow` is the system call: the start of the new memory, or `none` for (void*)-1.
-- The pointer is 0 for null.
unfoldable pub malloc : (ℕ → Option ℕ) → List Block → ℕ → ℕ × List Block
malloc heap_grow blocks size =
    if size == 0 then (0, blocks) else elim (first_fit blocks (align8 size)) [
      | some r ↦ r
      | none ↦ elim (heap_grow (request_size (align8 size))) [
        | none ↦ (0, blocks)
        | some region ↦
            let block : Block = record {
              addr = region;
              size = sub64 (request_size (align8 size)) header_size;
              free = false;
            } in
            (add64 region header_size, blocks ++ split_block block (align8 size))
      ]
    ]

-- `block->free = 1`, and the merge with a free block behind.
unfoldable pub release : Block → List Block → List Block
release b [] = record b { free = true } ∷ []
release b (next ∷ rest) =
    if next.free
    then record b { size = add64 b.size (add64 header_size next.size); free = true } ∷ rest
    else record b { free = true } ∷ next ∷ rest

unfoldable pub free_at : List Block → ℕ → Option (List Block)
free_at [] ptr = none
free_at (b ∷ bs) ptr =
    if add64 b.addr header_size == ptr
    then some (release b bs)
    else Option.map (◌∷◌ b) (free_at bs ptr)

-- `free`; `none` is a pointer that is no block's.
unfoldable pub free_ptr : List Block → ℕ → Option (List Block)
free_ptr blocks ptr = if ptr == 0 then some blocks else free_at blocks ptr
