-- ===== src/Paging.antt =====
-- kernel/architecture/x86_64/paging.c: the page tables of four levels. A table is the number of its
-- frame and a `page_directory_t*` an address in the direct map. Memory has two views, a frame's 512
-- entries and its bytes; a frame is used through one of them. The flush of the TLB is left out.
mod Tests
pub mod Copy
pub mod Tree
pub mod Link
pub mod Walk
pub mod Map
pub mod Translate
use mathlib.Core.Option
use acorn_os.Pmm.{Pmm, pmm_alloc, pmm_free, page_size}
use acorn_os.Common.{
  ℕ, zero, suc, ◌+◌, ◌-◌, ◌*◌, ◌/◌, ◌%◌, ◌^◌, ◌≤◌, ◌<◌, min, ◌≡◌, refl, sym, ap, ap₂, ◌∙◌, subst,
  ◌≢◌, ◌↔◌, ◌⊎◌, inl, inr, Bool, true, false, ◌&&◌, ◌||◌, not, Option, none, some, List, [], ◌∷◌,
  ◌++◌, map, append-nil, append_assoc, arith, ltb, leb, ◌==◌, if◌then◌else◌, ltb→lt, lt→ltb, leb→le,
  ==_iff, ==_refl, Bool-cases, Option-cases, length, get_elem?, get_or, set, take, drop, replicate,
  length-append, length-set, length-take, length-drop, length-replicate, take-append-drop,
  length-map, add32, sub32, add64, sub64, update,
}

-- `page_entry_t`; `rest` are the bits that paging.c never names.
pub record Entry : Type 0 where
  pub present : Bool
  pub writable : Bool
  pub user : Bool
  pub huge : Bool
  pub frame : ℕ
  pub rest : ℕ

-- `kernel_pml4` and the memory behind the direct map
pub record Memory : Type 0 where
  pub pmm : Pmm
  pub kernel_pml4 : ℕ
  pub entry : ℕ → ℕ → Entry
  pub byte : ℕ → ℕ → ℕ

abbrev pub zero_entry : Entry
zero_entry = record {
  present = false;
  writable = false;
  user = false;
  huge = false;
  frame = 0;
  rest = 0;
}

abbrev pub physical_map_base : ℕ
physical_map_base = 0xFFFF800000000000

abbrev pub physical_to_virtual : ℕ → ℕ
physical_to_virtual physical = add64 physical physical_map_base

abbrev pub virtual_to_physical : ℕ → ℕ
virtual_to_physical virtual = sub64 virtual physical_map_base

-- The frame of the table that a pointer points at, and the pointer to a frame.
abbrev pub frame_of : ℕ → ℕ
frame_of pointer = virtual_to_physical pointer / page_size

abbrev pub pointer_to : ℕ → ℕ
pointer_to frame = physical_to_virtual (frame * page_size)

abbrev pub pml4_index : ℕ → ℕ
pml4_index v = v / 2 ^ 39 % 512

abbrev pub pdpt_index : ℕ → ℕ
pdpt_index v = v / 2 ^ 30 % 512

abbrev pub pd_index : ℕ → ℕ
pd_index v = v / 2 ^ 21 % 512

abbrev pub pt_index : ℕ → ℕ
pt_index v = v / 2 ^ 12 % 512

abbrev pub pg_offset : ℕ → ℕ
pg_offset v = v % 2 ^ 12

-- A store to an entry of a table
unfoldable pub set_entry : Memory → ℕ → ℕ → Entry → Memory
set_entry m table i e = record m { entry = update m.entry table (update (m.entry table) i e) }

-- The new table's frame. `none` is the panic, of this function or of `pmm_alloc`.
unfoldable pub alloc_table : Memory → Option (Memory × ℕ)
alloc_table m = elim (pmm_alloc m.pmm) [
  | none ↦ none
  | some a ↦
      if a.0 == 0
      then none
      else some (
        record m { pmm = a.1; entry = update m.entry (a.0 / page_size) (λ i. zero_entry) },
        a.0 / page_size,
      )
]

-- The entry for a table that `get_pt_entry` made. `frame` has 40 bits.
abbrev pub table_entry : ℕ → Entry
table_entry frame = record zero_entry {
  present = true;
  writable = true;
  user = true;
  frame = frame % 2 ^ 40;
}

-- One level of `get_pt_entry`: the next table. The inner `none` is the return of 0.
unfoldable pub descend : Bool → Memory → ℕ → ℕ → Option (Memory × Option ℕ)
descend create m table i =
    if (m.entry table i).present
    then some (m, some (m.entry table i).frame)
    else if not create
    then some (m, none)
    else Option.map (λ r. (set_entry r.0 table i (table_entry r.1), some (table_entry r.1).frame))
        (alloc_table m)

unfoldable pub and_then :
    Option (Memory × Option ℕ)
    → (Memory → ℕ → Option (Memory × Option ℕ))
    → Option (Memory × Option ℕ)
and_then r f = elim r [
  | none ↦ none
  | some s ↦ elim s.1 [ none ↦ some (s.0, none) | some table ↦ f s.0 table ]
]

-- The page table that holds the entry of `v`; the entry is the one at `pt_index v`.
unfoldable pub get_pt_entry : Bool → Memory → ℕ → ℕ → Option (Memory × Option ℕ)
get_pt_entry create m pml4 v = and_then (descend create m pml4 (pml4_index v)) (λ m pdpt.
    and_then (descend create m pdpt (pdpt_index v)) (λ m pd. descend create m pd (pd_index v)))

abbrev pub page_entry : ℕ → ℕ → Entry
page_entry paddr flags = record zero_entry {
  frame = paddr / page_size % 2 ^ 40;
  present = flags % 2 == 1;
  writable = flags / 2 % 2 == 1;
  user = flags / 4 % 2 == 1;
}

abbrev pub align_page : ℕ → ℕ
align_page a = a / page_size * page_size

-- What both mappings do with the root table
unfoldable pub map_at : Memory → ℕ → ℕ → ℕ → ℕ → Option Memory
map_at m root vaddr paddr flags =
    let v = align_page vaddr in
    elim (get_pt_entry true m root v) [
      | none ↦ none
      | some r ↦ elim r.1 [
        | none ↦ none
        | some pt ↦ some (set_entry r.0 pt (pt_index v) (page_entry (align_page paddr) flags))
      ]
    ]

unfoldable pub map_page : Memory → ℕ → ℕ → ℕ → Option Memory
map_page m vaddr paddr flags = map_at m (frame_of m.kernel_pml4) vaddr paddr flags

unfoldable pub map_page_in : Memory → ℕ → ℕ → ℕ → ℕ → Option Memory
map_page_in m pml4 vaddr paddr flags =
    if pml4 == 0 then none else map_at m (frame_of pml4) vaddr paddr flags

-- The walk that makes no table: the page table, if there is one
unfoldable pub find_table : Memory → ℕ → ℕ → Option ℕ
find_table m root v = elim (get_pt_entry false m root v) [ none ↦ none | some r ↦ r.1 ]

-- `unmap_page` aligns to 256 bytes.
unfoldable pub unmap_page : Memory → ℕ → Memory
unmap_page m vaddr =
    let v = vaddr / 256 * 256 in
    elim (find_table m (frame_of m.kernel_pml4) v) [
      | none ↦ m
      | some pt ↦ set_entry m pt (pt_index v) zero_entry
    ]

unfoldable pub get_physical_at : Memory → ℕ → ℕ → ℕ
get_physical_at m root v = elim (find_table m root v) [
  | none ↦ 0
  | some pt ↦
      let e = m.entry pt (pt_index v) in if e.present then e.frame * page_size + pg_offset v else 0
]

abbrev pub get_physical : Memory → ℕ → ℕ
get_physical m v = get_physical_at m (frame_of m.kernel_pml4) v

abbrev pub get_physical_in : Memory → ℕ → ℕ → ℕ
get_physical_in m pml4 v = get_physical_at m (frame_of pml4) v

-- `paging_clone_directory`: the pointer to the new directory
unfoldable pub paging_clone_directory : Memory → Option (Memory × ℕ)
paging_clone_directory m =
    Option.map
      (λ r. (
        record r.0 {
          entry =
              update r.0.entry r.1
                (λ i. if leb 256 i then r.0.entry (frame_of m.kernel_pml4) i else r.0.entry r.1 i);
        },
        pointer_to r.1,
      ))
      (alloc_table m)
