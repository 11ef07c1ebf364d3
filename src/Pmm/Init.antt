-- ===== src/Pmm/Init.antt =====
-- `pmm_init` of kernel/memory/pmm.c: which pages are free at boot.
use acorn_os.Common.{
  ◌<◌, ltb, Bool, ℕ, zero, suc, ◌+◌, ◌/◌, ◌≡◌, refl, inl, inr, false, not, ◌&&◌, ◌||◌, arith, ◌==◌,
  List, [], ◌∷◌, leb, Bool-cases,
}
use acorn_os.Pmm.{
  Pmm, E820Entry, e820_usable, page_size, heap_size, bitmap_physical, heap_physical_base,
  bitmap_test, reserve_page, release_page, release_pages, reserve_pages, walk_e820, visit_entry,
  all_used, pmm_init,
}
use acorn_os.Pmm.Bits.{HasBytes}
use acorn_os.Pmm.Alloc.{
  bitmap_test-reserve, bitmap_test-release, reserve-HasBytes, release-HasBytes,
}

-- `q` is one of the `n` pages from `p` on.
abbrev pub in_range : ℕ → ℕ → ℕ → Bool
in_range p n q = leb p q && ltb q (p + n)

-- `q` is a page of a usable entry of the map.
abbrev pub is_usable : List E820Entry → ℕ → Bool
is_usable [] q = false
is_usable (e ∷ es) q =
    (e.type == e820_usable && in_range (e.base / page_size) (e.length / page_size) q)
    || is_usable es q

-- What `pmm_init` reserves: the pages below 0x20000, which it calls the kernel's, those of the bitmap
-- and those of the kernel heap. The kernel image, which boot/stage2.asm puts at 0x100000, is not
-- among them.
abbrev pub is_reserved : ℕ → ℕ → Bool
is_reserved total q =
    in_range 0 32 q
    || in_range (bitmap_physical / page_size) ((total / 8 + 1) / page_size + 1) q
    || in_range (heap_physical_base / page_size) (heap_size / page_size) q

module _ (q : ℕ) where
  release_pages_lem :
      (n p : ℕ) (m : Pmm)
      → HasBytes m
      → (bitmap_test (release_pages n p m) q ≡ in_range p n q || bitmap_test m q)
        × HasBytes (release_pages n p m)
  unfolding release_pages
  release_pages_lem zero p m h = (ground arith, h)
  release_pages_lem (suc n) p m h =
      let (e, k) = release_pages_lem n (p + 1) (release_page m p) (release-HasBytes m p h) in
      (ground (arith, e, bitmap_test-release m p q h), k)

  reserve_pages_lem :
      (n p : ℕ) (m : Pmm)
      → HasBytes m
      → (bitmap_test (reserve_pages n p m) q ≡ not (in_range p n q) && bitmap_test m q)
        × HasBytes (reserve_pages n p m)
  unfolding reserve_pages
  reserve_pages_lem zero p m h = (ground arith, h)
  reserve_pages_lem (suc n) p m h =
      let (e, k) = reserve_pages_lem n (p + 1) (reserve_page m p) (reserve-HasBytes m p h) in
      (ground (arith, e, bitmap_test-reserve m p q h), k)

  visit_entry_lem :
      (e : E820Entry) (m : Pmm)
      → HasBytes m
      → (bitmap_test (visit_entry e m) q
          ≡ (e.type == e820_usable && in_range (e.base / page_size) (e.length / page_size) q)
            || bitmap_test m q)
        × HasBytes (visit_entry e m)
  unfolding visit_entry
  visit_entry_lem e m h = elim (Bool-cases (e.type == e820_usable)) [
    | inl u ↦ rw u (release_pages_lem (e.length / page_size) (e.base / page_size) m h)
    | inr u ↦ rw u (refl, h)
  ]

  walk_e820_lem :
      (es : List E820Entry) (m : Pmm)
      → HasBytes m
      → (bitmap_test (walk_e820 es m) q ≡ is_usable es q || bitmap_test m q)
        × HasBytes (walk_e820 es m)
  unfolding walk_e820
  walk_e820_lem [] m h = (refl, h)
  walk_e820_lem (e ∷ es) m h =
      let (r, k) = visit_entry_lem e m h in
      let (s, l) = walk_e820_lem es (visit_entry e m) k in (ground (arith, r, s), l)

all_used-HasBytes :
    (memory : ℕ → ℕ) (total : ℕ) → ((i : ℕ) → memory i < 256) → HasBytes (all_used memory total)
unfolding all_used
all_used-HasBytes memory total h i = ground (arith, h i)

pub pmm_init-HasBytes :
    (memory : ℕ → ℕ) (map : List E820Entry) (highest_ram : ℕ)
    → ((i : ℕ) → memory i < 256)
    → HasBytes (pmm_init memory map highest_ram)
unfolding pmm_init
pmm_init-HasBytes memory map highest_ram h =
    let total : ℕ = highest_ram / page_size in
    let m1 = walk_e820 map (all_used memory total) in
    let m3 = reserve_page (reserve_page m1 0) 7 in
    let m4 = reserve_pages 31 1 m3 in
    let n = (total / 8 + 1) / page_size + 1 in
    let m5 = reserve_pages n (bitmap_physical / page_size) m4 in
    let k1 = (walk_e820_lem 0 map (all_used memory total) (all_used-HasBytes memory total h)).1 in
    let k3 = reserve-HasBytes (reserve_page m1 0) 7 (reserve-HasBytes m1 0 k1) in
    let k4 = (reserve_pages_lem 0 31 1 m3 k3).1 in
    let k5 = (reserve_pages_lem 0 n (bitmap_physical / page_size) m4 k4).1 in
    (reserve_pages_lem 0 (heap_size / page_size) (heap_physical_base / page_size) m5 k5).1
