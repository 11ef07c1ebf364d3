-- ===== src/Pmm.antt =====
-- kernel/memory/pmm.c: the physical page allocator over a bitmap.
-- The bitmap is memory at PMM_BITMAP_ADDRESS, a function from the byte's index; `used_pages` is a
-- uint64_t that wraps. The prints to the serial port are left out.
mod Tests
pub mod Bits
pub mod Alloc
pub mod Count
pub mod Init
use Prim.Native.Nat.{bit_and, bit_or}
use acorn_os.Common.{
  ℕ, zero, suc, ◌+◌, ◌-◌, ◌*◌, ◌/◌, ◌%◌, ◌^◌, Bool, List, [], ◌∷◌, Option, none, some, ◌==◌, leb,
  if◌then◌else◌, add64, sub64, update,
}

abbrev pub page_size : ℕ
page_size = 4096

abbrev pub heap_size : ℕ
heap_size = 16 * 1024 * 1024

abbrev pub bitmap_physical : ℕ
bitmap_physical = 0x200000

abbrev pub heap_physical_base : ℕ
heap_physical_base = 0x2200000

-- `e820_entry_t`, without its unused `acpi` field
pub record E820Entry : Type 0 where
  pub base : ℕ
  pub length : ℕ
  pub type : ℕ

abbrev pub e820_usable : ℕ
e820_usable = 1

pub record Pmm : Type 0 where
  pub bitmap : ℕ → ℕ
  pub total_pages : ℕ
  pub used_pages : ℕ

unfoldable pub bitmap_set : Pmm → ℕ → Pmm
bitmap_set m page = record m {
  bitmap = update m.bitmap (page / 8) (bit_or (m.bitmap (page / 8)) (2 ^ (page % 8)));
}

-- `~(1 << k)` stored to a byte keeps every bit but k.
unfoldable pub bitmap_clear : Pmm → ℕ → Pmm
bitmap_clear m page = record m {
  bitmap = update m.bitmap (page / 8) (bit_and (m.bitmap (page / 8)) (255 - 2 ^ (page % 8)));
}

-- true: the page is free
unfoldable pub bitmap_test : Pmm → ℕ → Bool
bitmap_test m page = bit_and (m.bitmap (page / 8)) (2 ^ (page % 8)) == 0

-- `bitmap_clear` and `used_pages--`
unfoldable pub release_page : Pmm → ℕ → Pmm
unfolding bitmap_clear
release_page m page = record (bitmap_clear m page) { used_pages = sub64 m.used_pages 1 }

-- `bitmap_set` and `used_pages++`
unfoldable pub reserve_page : Pmm → ℕ → Pmm
unfolding bitmap_set
reserve_page m page = record (bitmap_set m page) { used_pages = add64 m.used_pages 1 }

-- The loops over `n` pages from `page` on.
unfoldable pub release_pages : ℕ → ℕ → Pmm → Pmm
release_pages zero page m = m
release_pages (suc n) page m = release_pages n (page + 1) (release_page m page)

unfoldable pub reserve_pages : ℕ → ℕ → Pmm → Pmm
reserve_pages zero page m = m
reserve_pages (suc n) page m = reserve_pages n (page + 1) (reserve_page m page)

unfoldable pub visit_entry : E820Entry → Pmm → Pmm
visit_entry e m =
    if e.type == e820_usable then release_pages (e.length / page_size) (e.base / page_size) m else m

unfoldable pub walk_e820 : List E820Entry → Pmm → Pmm
walk_e820 [] m = m
walk_e820 (e ∷ es) m = walk_e820 es (visit_entry e m)

-- Bytes of the bitmap beyond `total_pages / 8 + 1` keep what memory held, `memory`.
unfoldable pub all_used : (ℕ → ℕ) → ℕ → Pmm
all_used memory total = record {
  bitmap = λ i. if leb i (total / 8) then 0xFF else memory i;
  total_pages = total;
  used_pages = total;
}

unfoldable pub pmm_init : (ℕ → ℕ) → List E820Entry → ℕ → Pmm
unfolding all_used walk_e820
pmm_init memory map highest_ram =
    let total = highest_ram / page_size in
    let bitmap_bytes = total / 8 + 1 in
    let m = walk_e820 map (all_used memory total) in
    let m = reserve_page m 0 in
    let m = reserve_page m (0x7C00 / page_size) in
    let m = reserve_pages 31 1 m in
    let m = reserve_pages (bitmap_bytes / page_size + 1) (bitmap_physical / page_size) m in
    reserve_pages (heap_size / page_size) (heap_physical_base / page_size) m

-- The search of `pmm_alloc` over `n` pages from `i` on.
unfoldable pub alloc_from : ℕ → ℕ → Pmm → Option (ℕ × Pmm)
unfolding bitmap_test reserve_page
alloc_from zero i m = none
alloc_from (suc n) i m =
    let rest = alloc_from n (i + 1) m in
    if bitmap_test m i then some (i * page_size, reserve_page m i) else rest

-- `none` is the kernel panic on exhausted memory.
unfoldable pub pmm_alloc : Pmm → Option (ℕ × Pmm)
unfolding alloc_from
pmm_alloc m = alloc_from m.total_pages 0 m

unfoldable pub pmm_free : Pmm → ℕ → Pmm
unfolding release_page
pmm_free m page = if page == 0 then m else release_page m (page / page_size)

unfoldable pub pmm_free_pages : Pmm → ℕ
pmm_free_pages m = sub64 m.total_pages m.used_pages

unfoldable pub pmm_used_pages : Pmm → ℕ
pmm_used_pages m = m.used_pages
