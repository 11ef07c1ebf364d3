-- ===== src/Paging/Copy.antt =====
-- `paging_deep_copy_directory` and `paging_free_directory` of kernel/architecture/x86_64/paging.c.
-- Each loop over the entries of a table is a function of the number of entries that are left.
use acorn_os.Pmm.{pmm_alloc, page_size}
use acorn_os.Paging.{pointer_to, pmm_free, Pmm, frame_of, Entry, Memory, set_entry, alloc_table}
use acorn_os.Common.{
  ◌*◌, ◌||◌, leb, false, ℕ, zero, suc, ◌-◌, ◌/◌, ◌%◌, ◌^◌, Bool, not, Option, none, some, ◌==◌,
  if◌then◌else◌, update,
}

abbrev pub with_frame : Entry → ℕ → Entry
with_frame e frame = record e { frame = frame % 2 ^ 40 }

-- A copy of a page's bytes in a new frame
unfoldable pub copy_page : Memory → ℕ → Option (Memory × ℕ)
copy_page m page = elim (pmm_alloc m.pmm) [
  | none ↦ none
  | some a ↦
      if a.0 == 0
      then none
      else some (
        record m { pmm = a.1; byte = update m.byte (a.0 / page_size) (m.byte page) },
        a.0 / page_size,
      )
]

-- The loop over the entries of table `src` from `stop - left` up to `stop`. A present entry of `src`
-- is copied to `dst`: as it is when it is `shared`, else with a new frame, which `fill` then fills.
unfoldable pub copy_entries :
    (Memory → ℕ → Option (Memory × ℕ))
    → (Memory → ℕ → ℕ → Option Memory)
    → (Entry → Bool)
    → ℕ
    → ℕ
    → Memory
    → ℕ
    → ℕ
    → Option Memory
copy_entries fresh fill shared stop zero m src dst = some m
copy_entries fresh fill shared stop (suc left) m src dst =
    let i = stop - suc left in
    let e = m.entry src i in
    let step =
      if not e.present
      then some m
      else if shared e
      then some (set_entry m dst i e)
      else elim (fresh m e.frame) [
        | none ↦ none
        | some r ↦ fill (set_entry r.0 dst i (with_frame e r.1)) e.frame r.1
      ] in
    elim step [ none ↦ none | some m' ↦ copy_entries fresh fill shared stop left m' src dst ]

abbrev new_table : Memory → ℕ → Option (Memory × ℕ)
new_table m frame = alloc_table m

-- The loops from the inner one out
abbrev pub copy_pt : Memory → ℕ → ℕ → Option Memory
copy_pt = copy_entries copy_page (λ m src dst. some m) (λ e. false) 512 512

abbrev pub copy_pd : Memory → ℕ → ℕ → Option Memory
copy_pd = copy_entries new_table copy_pt (λ e. e.huge) 512 512

abbrev pub copy_pdpt : Memory → ℕ → ℕ → Option Memory
copy_pdpt = copy_entries new_table copy_pd (λ e. false) 512 512

abbrev pub copy_pml4 : Memory → ℕ → ℕ → Option Memory
copy_pml4 = copy_entries new_table copy_pdpt (λ e. false) 256 256

-- `copy_entries` for the upper half of a root table
abbrev pub share_kernel : Memory → ℕ → ℕ → Memory
share_kernel m src dst = record m {
  entry = update m.entry dst (λ i. if leb 256 i then m.entry src i else m.entry dst i);
}

-- `none` is a panic.
unfoldable pub paging_deep_copy_directory : Memory → ℕ → Option (Memory × ℕ)
paging_deep_copy_directory m src = if src == 0 then none else elim (alloc_table m) [
  | none ↦ none
  | some r ↦ elim (copy_pml4 (share_kernel r.0 (frame_of src) r.1) (frame_of src) r.1) [
    | none ↦ none
    | some m' ↦ some (m', pointer_to r.1)
  ]
]

-- The loop that frees what the entries of a table lead to; the tables are only read.
unfoldable pub free_entries : Memory → (Pmm → ℕ → Pmm) → (Entry → Bool) → ℕ → ℕ → Pmm → ℕ → Pmm
free_entries m free shared stop zero pmm table = pmm
free_entries m free shared stop (suc left) pmm table =
    let e = m.entry table (stop - suc left) in
    let pmm' = if not e.present || shared e then pmm else free pmm e.frame in
    free_entries m free shared stop left pmm' table

abbrev pub free_page : Pmm → ℕ → Pmm
free_page pmm page = pmm_free pmm (page * page_size)

abbrev pub free_pt : Memory → Pmm → ℕ → Pmm
free_pt m pmm pt = free_page (free_entries m free_page (λ e. false) 512 512 pmm pt) pt

abbrev pub free_pd : Memory → Pmm → ℕ → Pmm
free_pd m pmm pd = free_page (free_entries m (free_pt m) (λ e. e.huge) 512 512 pmm pd) pd

abbrev pub free_pdpt : Memory → Pmm → ℕ → Pmm
free_pdpt m pmm pdpt = free_page (free_entries m (free_pd m) (λ e. false) 512 512 pmm pdpt) pdpt

unfoldable pub paging_free_directory : Memory → ℕ → Memory
paging_free_directory m dir =
    let root = frame_of dir in
    if dir == 0 then m else record m {
      pmm = free_page (free_entries m (free_pdpt m) (λ e. false) 256 256 m.pmm root) root;
    }
