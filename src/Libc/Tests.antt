-- ===== src/Libc/Tests.antt =====
-- A run of the allocator of user programs.
use acorn_os.Libc.{Block, header_size, split_block, align8, malloc, free_ptr}
use acorn_os.Libc.Split.{end_of, split_block_lem, free-malloc}
use acorn_os.Common.{ℕ, ◌+◌, ◌≡◌, refl, true, Option, none, some, List, [], ◌∷◌, arith}

abbrev chunk : Block
chunk = record { addr = 0x400000; size = 4072; free = true }

no_memory : ℕ → Option ℕ
no_memory n = none

align8_test : align8 60 ≡ 64
unfolding align8
align8_test = refl

split_block_lem_example :
    (rest : Block) × (split_block chunk 64 ≡ record chunk { size = 64 } ∷ rest ∷ [])
    × (rest.addr ≡ chunk.addr + header_size + 64)
    × (rest.free ≡ true)
    × (end_of rest ≡ end_of chunk + 64)
split_block_lem_example = split_block_lem chunk 64 (omega arith) (omega arith)

free-malloc_example :
    (blocks : List Block) × (malloc no_memory (chunk ∷ []) 60 ≡ (chunk.addr + header_size, blocks))
    × (free_ptr blocks (chunk.addr + header_size)
        ≡ some (record chunk { size = chunk.size + align8 60 } ∷ []))
free-malloc_example =
    free-malloc no_memory chunk [] 60 refl (omega arith) (omega arith) (omega arith)
      (omega (arith, align8_test))
