-- ===== src/Heap.antt =====
-- kernel/memory/mem.c: the kernel heap, a first-fit allocator over a list of blocks.
-- The list of blocks is the chain of headers from `heap_start`, each with the address of its header;
-- sizes are uint64_t, `heap_used` is a uint32_t.
mod Tests
pub mod Tiling
pub mod Malloc
pub mod Free
pub mod RoundTrip
use acorn_os.Common.{
  ℕ, ◌+◌, ◌-◌, ◌%◌, ◌^◌, ◌*◌, Bool, true, false, ◌&&◌, List, [], ◌∷◌, Option, none, some, ltb, leb,
  ◌==◌, if◌then◌else◌, add32, sub32, add64, sub64,
}
use mathlib.Core.Option

-- `block_header_t`; `next` is the next block of the list.
pub record Block : Type 0 where
  pub addr : ℕ
  pub size : ℕ
  pub free : Bool

pub record Heap : Type 0 where
  pub blocks : List Block
  pub heap_used : ℕ

abbrev pub header_size : ℕ
header_size = 24

abbrev pub heap_start : ℕ
heap_start = 0xFFFF800002200000

abbrev pub heap_size : ℕ
heap_size = 16 * 1024 * 1024

unfoldable pub mem_init : Heap
mem_init = record {
  blocks = record { addr = heap_start; size = heap_size - header_size; free = true } ∷ [];
  heap_used = 0;
}

-- the request, rounded up to a multiple of 4
unfoldable pub align4 : ℕ → ℕ
align4 size = if size % 4 == 0 then size else add64 size (4 - size % 4)

-- The block that is handed out, split if enough is left over, and the blocks after it.
unfoldable pub take_block : Block → ℕ → List Block → List Block
take_block b size rest =
    if ltb (add64 (add64 size header_size) 4) b.size
    then record b { size = size; free = false }
      ∷ record {
        addr = add64 (add64 b.addr header_size) size;
        size = sub64 (sub64 b.size size) header_size;
        free = true;
      }
      ∷ rest
    else record b { free = false } ∷ rest

-- What the search returns: the pointer, the size of the block handed out, and the new list.
pub record Taken : Type 0 where
  pub result : ℕ
  pub taken_size : ℕ
  pub rest : List Block

abbrev pub after : Block → Taken → Taken
after b t = record t { rest = b ∷ t.rest }

abbrev pub head_size : List Block → ℕ
head_size [] = 0
head_size (b ∷ bs) = b.size

-- The walk of `kmalloc`: the first free block that is big enough.
unfoldable pub first_fit : List Block → ℕ → Option Taken
unfolding take_block
first_fit [] size = none
first_fit (b ∷ bs) size =
    if b.free && leb size b.size
    then some (record {
      result = add64 b.addr header_size;
      taken_size = head_size (take_block b size bs);
      rest = take_block b size bs;
    })
    else Option.map (after b) (first_fit bs size)

-- `none` is a kernel panic: on a request of 0 bytes, and on an exhausted heap.
unfoldable pub kmalloc : Heap → ℕ → Option (ℕ × Heap)
unfolding align4 first_fit
kmalloc h size =
    if size == 0
    then none
    else Option.map
        (λ t. (t.result, record { blocks = t.rest; heap_used = add32 h.heap_used t.taken_size }))
        (first_fit h.blocks (align4 size))

-- `block->free = 1` at the header before `ptr`; the size of that block, and the list.
-- `none`: no block of the list stands there, and the C code writes through a wild pointer.
unfoldable pub mark_free : List Block → ℕ → Option (ℕ × List Block)
mark_free [] ptr = none
mark_free (b ∷ bs) ptr =
    if add64 b.addr header_size == ptr
    then some (b.size, record b { free = true } ∷ bs)
    else Option.map (λ r. (r.0, b ∷ r.1)) (mark_free bs ptr)

-- Absorb the next block's header and data.
unfoldable pub absorb : Block → Block → Block
absorb b next = record b { size = add64 b.size (add64 header_size next.size) }

-- The walk that merges: `current` is the block in hand, the list the blocks behind it.
unfoldable pub coalesce_from : Block → List Block → List Block
unfolding absorb
coalesce_from current [] = current ∷ []
coalesce_from current (next ∷ rest) = elim (current.free && next.free) [
  | true ↦ coalesce_from (absorb current next) rest
  | false ↦ current ∷ coalesce_from next rest
]

unfoldable pub coalesce : List Block → List Block
unfolding coalesce_from
coalesce [] = []
coalesce (b ∷ bs) = coalesce_from b bs

unfoldable pub kfree : Heap → ℕ → Option Heap
unfolding mark_free coalesce
kfree h ptr =
    if ptr == 0
    then some h
    else Option.map (λ r. record { blocks = coalesce r.1; heap_used = sub32 h.heap_used r.0 })
        (mark_free h.blocks ptr)

-- What `mem_print_stats` counts: all blocks, the free ones, and their bytes.
pub record Stats : Type 0 where
  pub total_blocks : ℕ
  pub free_blocks : ℕ
  pub free_bytes : ℕ

unfoldable pub count_block : Stats → Block → Stats
count_block s b = record {
  total_blocks = add32 s.total_blocks 1;
  free_blocks = if b.free then add32 s.free_blocks 1 else s.free_blocks;
  free_bytes = if b.free then add32 s.free_bytes b.size else s.free_bytes;
}

unfoldable pub mem_stats_from : Stats → List Block → Stats
unfolding count_block
mem_stats_from s [] = s
mem_stats_from s (b ∷ bs) = mem_stats_from (count_block s b) bs

unfoldable pub mem_stats : Heap → Stats
unfolding mem_stats_from
mem_stats h = mem_stats_from (record { total_blocks = 0; free_blocks = 0; free_bytes = 0 }) h.blocks
