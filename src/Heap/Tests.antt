-- ===== src/Heap/Tests.antt =====
-- Runs of the kernel heap, and its theorems at them.
use acorn_os.Heap.{Heap, header_size, heap_start, heap_size, mem_init, align4, kmalloc, kfree}
use acorn_os.Heap.Tiling.{used_blocks, IsValid}
use acorn_os.Heap.Malloc.{NoFit, kmalloc-IsValid, kmalloc-none_iff}
use acorn_os.Heap.Free.{NoAdjacent, kfree-IsValid}
use acorn_os.Heap.RoundTrip.{Reach, malloc, boot, next, kfree-kmalloc, Reach-IsValid}
use acorn_os.Common.{
  ℕ, ◌+◌, ◌-◌, ◌≤◌, ◌≡◌, refl, ◌↔◌, ◌⊎◌, true, false, none, some, List, [], ◌∷◌, ◌++◌, arith,
}

abbrev one_block : Heap
one_block = record {
  blocks =
      record { addr = heap_start; size = 100; free = false }
      ∷ record { addr = heap_start + 124; size = heap_size - 148; free = true }
      ∷ [];
  heap_used = 100;
}

abbrev no_bytes : ℕ
no_bytes = 0

abbrev no_blocks : List (ℕ × ℕ)
no_blocks = []

abbrev first_pointer : ℕ
first_pointer = heap_start + 24

kmalloc_test : kmalloc mem_init 100 ≡ some (first_pointer, one_block)
unfolding mem_init kmalloc
kmalloc_test = refl

mem_init-ok : IsValid mem_init × NoAdjacent mem_init.blocks
mem_init-ok = Reach-IsValid boot

one_block-Reach : Reach one_block
one_block-Reach = next boot (malloc 100 first_pointer (omega arith) kmalloc_test)

kmalloc-IsValid_example :
    IsValid one_block
    × (xs : List (ℕ × ℕ)) × (ys : List (ℕ × ℕ)) × (k : ℕ) × (used_blocks mem_init.blocks ≡ xs ++ ys)
    × (used_blocks one_block.blocks ≡ xs ++ (first_pointer - header_size, k) ∷ ys)
    × (100 ≤ k)
    × (heap_start + header_size ≤ first_pointer)
    × (first_pointer + k ≤ heap_start + heap_size)
kmalloc-IsValid_example =
    kmalloc-IsValid mem_init one_block 100 first_pointer mem_init-ok.0 (omega arith) kmalloc_test

kmalloc-none_iff_example :
    (kmalloc mem_init no_bytes ≡ none) ↔ ((no_bytes ≡ 0) ⊎ NoFit mem_init.blocks (align4 no_bytes))
kmalloc-none_iff_example = kmalloc-none_iff mem_init no_bytes

kfree-kmalloc_example : kfree one_block first_pointer ≡ some mem_init
kfree-kmalloc_example =
    kfree-kmalloc mem_init one_block 100 first_pointer mem_init-ok.0 mem_init-ok.1 kmalloc_test

Reach-IsValid_example : IsValid one_block × NoAdjacent one_block.blocks
Reach-IsValid_example = Reach-IsValid one_block-Reach

kfree-IsValid_example :
    (h' : Heap) × (kfree one_block (heap_start + header_size) ≡ some h')
    × IsValid h'
    × (used_blocks h'.blocks ≡ no_blocks ++ no_blocks)
    × NoAdjacent h'.blocks
kfree-IsValid_example =
    kfree-IsValid one_block no_blocks no_blocks heap_start 100 (Reach-IsValid one_block-Reach).0
      refl
