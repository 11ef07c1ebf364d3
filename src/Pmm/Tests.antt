-- ===== src/Pmm/Tests.antt =====
-- A machine of four pages, two of them free, the state that `pmm_init` leaves on one of 40 pages, and the theorems on the physical allocator at it.
use acorn_os.Pmm.{
  E820Entry, Pmm, page_size, bitmap_test, reserve_page, pmm_init, pmm_alloc, pmm_free,
}
use acorn_os.Pmm.Bits.{HasBytes}
use acorn_os.Pmm.Alloc.{pmm_free-alloc}
use acorn_os.Pmm.Count.{IsCounted, pmm_alloc-IsCounted, pmm_free-IsCounted}
use acorn_os.Pmm.Init.{pmm_init-HasBytes}
use acorn_os.Common.{◌+◌, ◌^◌, ltb→lt, ◌<◌, ℕ, ◌/◌, ◌≡◌, refl, false, some, List, [], ◌∷◌, arith}

abbrev four_pages : Pmm
four_pages = record { bitmap = λ i. 3; total_pages = 4; used_pages = 2 }

abbrev page_two : ℕ
page_two = 8192

abbrev page_three : ℕ
page_three = 12288

abbrev memory_map : List E820Entry
memory_map = record { base = 0; length = 0x4000000; type = 1 } ∷ []

four_pages-HasBytes : HasBytes four_pages
four_pages-HasBytes i = omega arith

-- What `pmm_init` leaves on a machine of 40 pages: the counter is 4098 above the used pages.
abbrev small_map : List E820Entry
small_map = record { base = 0; length = 0x28000; type = 1 } ∷ []

abbrev zeroed : ℕ → ℕ
zeroed i = 0

abbrev booted : Pmm
booted = pmm_init zeroed small_map 0x28000

booted-IsCounted : IsCounted 4098 booted
unfolding pmm_init bitmap_test reserve_page acorn_os.Pmm.reserve_pages acorn_os.Pmm.visit_entry
    acorn_os.Pmm.release_pages acorn_os.Pmm.release_page
booted-IsCounted = record {
  counted = refl;
  small = ltb→lt (booted.total_pages + 4098) (2 ^ 64) refl;
}

pmm_alloc_test : pmm_alloc four_pages ≡ some (8192, reserve_page four_pages 2)
unfolding pmm_alloc
pmm_alloc_test = refl

pmm_alloc_second :
    pmm_alloc (reserve_page four_pages 2) ≡ some (12288, reserve_page (reserve_page four_pages 2) 3)
unfolding pmm_alloc
pmm_alloc_second = refl

pmm_free-alloc_example :
    (bitmap_test (pmm_free (reserve_page four_pages 2) 8192) 2 ≡ bitmap_test four_pages 2)
    × ((pmm_free (reserve_page four_pages 2) 8192).used_pages ≡ four_pages.used_pages)
pmm_free-alloc_example =
    pmm_free-alloc four_pages (reserve_page four_pages 2) 8192 2 four_pages-HasBytes (omega arith)
      pmm_alloc_test (λ e. omega arith)

booted-HasBytes : HasBytes booted
booted-HasBytes = pmm_init-HasBytes zeroed small_map 0x28000 (λ i. omega arith)

boot_alloc_test : pmm_alloc booted ≡ some (0x20000, reserve_page booted 32)
unfolding pmm_alloc pmm_init bitmap_test reserve_page acorn_os.Pmm.reserve_pages
    acorn_os.Pmm.visit_entry acorn_os.Pmm.release_pages acorn_os.Pmm.release_page
boot_alloc_test = refl

pmm_alloc-IsCounted_example :
    IsCounted 4098 (reserve_page booted 32) × HasBytes (reserve_page booted 32)
pmm_alloc-IsCounted_example =
    pmm_alloc-IsCounted 4098 booted (reserve_page booted 32) 0x20000 booted-HasBytes
      booted-IsCounted boot_alloc_test

few_pages : 0x1000 / page_size < booted.total_pages
unfolding pmm_init bitmap_test reserve_page acorn_os.Pmm.reserve_pages acorn_os.Pmm.visit_entry
    acorn_os.Pmm.release_pages acorn_os.Pmm.release_page
few_pages = ltb→lt (0x1000 / page_size) booted.total_pages refl

page_1-used : bitmap_test booted (0x1000 / page_size) ≡ false
unfolding pmm_init bitmap_test reserve_page acorn_os.Pmm.reserve_pages acorn_os.Pmm.visit_entry
    acorn_os.Pmm.release_pages acorn_os.Pmm.release_page
page_1-used = refl

pmm_free-IsCounted_example :
    IsCounted 4098 (pmm_free booted 0x1000) × HasBytes (pmm_free booted 0x1000)
pmm_free-IsCounted_example =
    pmm_free-IsCounted 4098 booted 0x1000 booted-HasBytes booted-IsCounted few_pages page_1-used
