-- ===== src/Paging/Tests.antt =====
-- A machine with an empty page directory, and the theorems on paging at it.
use acorn_os.Pmm.{Pmm, pmm_alloc, alloc_from, bitmap_test, reserve_page, bitmap_set}
use acorn_os.Pmm.Bits.{HasBytes}
use acorn_os.Paging.{
  Memory, zero_entry, frame_of, map_page_in, get_physical_in, pml4_index, pg_offset, align_page,
}
use acorn_os.Paging.Tree.{IsTree, Spare, another, enough}
use acorn_os.Paging.Map.{page_number}
use acorn_os.Paging.Translate.{map_page_in_lem}
use acorn_os.Common.{
  true_is_not_false, none_is_not_some, ℕ, ◌+◌, ◌≤◌, ◌<◌, ◌≡◌, refl, sym, ap, ◌∙◌, ◌≢◌, inl, inr,
  false, Option, none, some, List, [], arith, ltb, ◌==◌, if◌then◌else◌, Bool-cases,
}

-- The first 17 of 24 pages are in use.
abbrev pages : Pmm
pages = record {
  bitmap = λ i. if ltb i 2 then 255 else if i == 2 then 1 else 0;
  total_pages = 24;
  used_pages = 17;
}

abbrev memory : Memory
memory = record { pmm = pages; kernel_pml4 = 0; entry = λ t i. zero_entry; byte = λ f i. 0 }

-- The page directory is in the frame 16.
abbrev directory : ℕ
directory = 0xFFFF800000010000

abbrev place : ℕ → Option (List ℕ)
place t = if t == 16 then some [] else none

absent_place : (t : ℕ) (path : List ℕ) → (t == 16) ≡ false → place t ≢ some path
absent_place t path d e = none_is_not_some path (sym (rw d refl) ∙ e)

pages-HasBytes : HasBytes pages
pages-HasBytes i = ground arith

memory-IsTree : IsTree place (frame_of directory) memory
unfolding bitmap_test
memory-IsTree = record {
  at_root = refl;
  below = λ t i path at short low pr. absurd (true_is_not_false (sym pr));
  in_use = λ t path at. elim (Bool-cases (t == 16)) [
    | inl s ↦ ap (bitmap_test pages) {x = t} {y = 16} (ground arith)
    | inr d ↦ absurd (absent_place t path d at)
  ];
  bytes = pages-HasBytes;
  few_pages = omega arith;
}

memory-Spare : Spare 3 pages
unfolding pmm_alloc alloc_from bitmap_test reserve_page bitmap_set
memory-Spare =
    another refl (λ z. absurd (omega arith))
      (another refl (λ z. absurd (omega arith)) (another refl (λ z. absurd (omega arith)) enough))

abbrev somewhere : ℕ
somewhere = 0x400123

map_page_in_lem_example :
    (place' : ℕ → Option (List ℕ)) × (m' : Memory) × (map_page_in memory directory somewhere 0x5000
        7
      ≡ some m')
    × IsTree place' (frame_of directory) m'
    × ((j : ℕ) → 256 ≤ j → m'.entry (frame_of directory) j ≡ memory.entry (frame_of directory) j)
    × ((w : ℕ)
        → pml4_index w < 256
        → get_physical_in m' directory w ≡ (
            if page_number w == page_number somewhere
            then align_page 0x5000 + pg_offset w
            else get_physical_in memory directory w))
map_page_in_lem_example =
    map_page_in_lem place memory directory somewhere 0x5000 7 memory-IsTree (omega arith)
      memory-Spare (λ z. absurd (omega arith)) (omega arith) (omega arith)
