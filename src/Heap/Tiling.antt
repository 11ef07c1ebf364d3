-- ===== src/Heap/Tiling.antt =====
-- The shape of the kernel heap of kernel/memory/mem.c: its blocks lie end to end.
use acorn_os.Common.{ℕ, ◌+◌, ◌≤◌, ◌≡◌, List, [], ◌∷◌, arith, if◌then◌else◌}
use acorn_os.Heap.{Block, Heap, header_size, heap_start, heap_size}

-- The blocks lie end to end from `start` to `stop`: nothing overlaps, and nothing is lost.
abbrev pub Tiles : ℕ → ℕ → List Block → Type 0
Tiles start stop [] = start ≡ stop
Tiles start stop (b ∷ bs) = (b.addr ≡ start) × Tiles (start + header_size + b.size) stop bs

-- The bytes of the blocks in use.
abbrev pub in_use : List Block → ℕ
in_use [] = 0
in_use (b ∷ bs) = (if b.free then 0 else b.size) + in_use bs

pub record IsValid (h : Heap) : Type 0 where
  pub tiles : Tiles heap_start (heap_start + heap_size) h.blocks
  pub counted : h.heap_used ≡ in_use h.blocks

pub Tiles-le : (start stop : ℕ) (bs : List Block) → Tiles start stop bs → start ≤ stop
Tiles-le start stop [] t = omega arith
Tiles-le start stop (b ∷ bs) t = omega (arith, Tiles-le (start + header_size + b.size) stop bs t.1)

pub in_use-le : (start stop : ℕ) (bs : List Block) → Tiles start stop bs → start + in_use bs ≤ stop
in_use-le start stop [] t = omega arith
in_use-le start stop (b ∷ bs) t =
    ground (arith, in_use-le (start + header_size + b.size) stop bs t.1)

-- The blocks in use, as address and size.
abbrev pub used_blocks : List Block → List (ℕ × ℕ)
used_blocks [] = []
used_blocks (b ∷ bs) = if b.free then used_blocks bs else (b.addr, b.size) ∷ used_blocks bs
