-- ===== src/Paging/Translate.antt =====
-- What `map_page_in` and `unmap_page` of kernel/architecture/x86_64/paging.c do to the addresses that
-- `get_physical_in` gives.

use acorn_os.Pmm.{bitmap_test}
use acorn_os.Paging.{
  Entry, Memory, set_entry, descend, and_then, get_pt_entry, find_table, get_physical_at,
  get_physical_in, map_at, map_page_in, page_entry, pml4_index, pdpt_index, pd_index, pt_index,
  pg_offset, page_size, align_page, frame_of,
}
use acorn_os.Paging.Tree.{IsTree, Spare, find}
use acorn_os.Paging.Walk.{translate, get_pt_entry_lem}
use acorn_os.Paging.Map.{page_number, if_present, translate-set_entry, IsTree-set_entry, upper_same}
use acorn_os.Common.{
  suc, ◌≤◌, ℕ, ◌+◌, ◌*◌, ◌%◌, ◌^◌, ◌<◌, ◌≡◌, refl, sym, ap, ap₂, ◌∙◌, ◌≢◌, inl, inr, true, false,
  Option, none, some, List, [], ◌∷◌, arith, ◌==◌, if◌then◌else◌, Bool-cases,
}

abbrev pub physical_of : Option Entry → ℕ → ℕ
physical_of none v = 0
physical_of (some e) v = e.frame * page_size + pg_offset v

-- `get_physical_in` in terms of the entry that four levels of tables lead to, or 0 if there is none
get_physical_at_lem :
    (m : Memory) (root v : ℕ) → get_physical_at m root v ≡ physical_of (translate m root v) v
unfolding get_physical_at find_table get_pt_entry descend and_then find
get_physical_at_lem m root v = elim (Bool-cases (m.entry root (pml4_index v)).present) [
  | inr a ↦ rw (a, get_physical_at) refl
  | inl a ↦
      let pdpt = (m.entry root (pml4_index v)).frame in
      elim (Bool-cases (m.entry pdpt (pdpt_index v)).present) [
        | inr b ↦ rw (a, b, get_physical_at) refl
        | inl b ↦
            let pd = (m.entry pdpt (pdpt_index v)).frame in
            elim (Bool-cases (m.entry pd (pd_index v)).present) [
              | inr c ↦ rw (a, b, c, get_physical_at) refl
              | inl c ↦
                  let pt = (m.entry pd (pd_index v)).frame in
                  elim (Bool-cases (m.entry pt (pt_index v)).present) [
                    | inr d ↦ rw (a, b, c, d, get_physical_at) refl
                    | inl d ↦ rw (a, b, c, d, get_physical_at) refl
                  ]
            ]
      ]
]

-- `map_page_in`, when three pages are to spare: the page of `vaddr` is translated to the new entry,
-- every other page as before, and the tables are a tree as before.
pub map_at_lem :
    (n : ℕ) (place : ℕ → Option (List ℕ)) (root : ℕ) (m : Memory) (vaddr paddr flags : ℕ)
    → IsTree place root m
    → pml4_index vaddr < 256
    → Spare (suc (suc (suc n))) m.pmm
    → (place' : ℕ → Option (List ℕ)) × (m' : Memory) × (map_at m root vaddr paddr flags ≡ some m')
      × IsTree place' root m'
      × ((j : ℕ) → 256 ≤ j → m'.entry root j ≡ m.entry root j)
      × ((w : ℕ)
          → pml4_index w < 256
          → translate m' root w ≡ (
              if page_number w == page_number vaddr
              then if_present (page_entry (align_page paddr) flags)
              else translate m root w))
      × ((q : ℕ) → bitmap_test m.pmm q ≡ false → bitmap_test m'.pmm q ≡ false)
      × (m'.byte ≡ m.byte)
      × Spare n m'.pmm
unfolding map_at set_entry
map_at_lem n place root m vaddr paddr flags tree low s =
    let v = align_page vaddr in
    let e = page_entry (align_page paddr) flags in
    let (place', m', pdpt, pd, pt, eq, walk, ext, spare) =
      get_pt_entry_lem n place root m v tree (omega arith) s in
    (
      place',
      set_entry m' pt (pt_index v) e,
      rw (eq, map_at) refl,
      IsTree-set_entry place' root m' pt (pt_index v)
          (pd_index v ∷ pdpt_index v ∷ pml4_index v ∷ []) e walk.tree walk.at_pt refl,
      λ j h.
          upper_same place' root m' pt (pt_index v) (pd_index v ∷ pdpt_index v ∷ pml4_index v ∷ [])
            e walk.tree walk.at_pt refl root j [] walk.tree.at_root (omega arith)
          ∙ ext.keeps_kernel j h,
      λ w lw.
          translate-set_entry place' root m' v pdpt pd pt e walk w lw
          ∙ ap₂ (λ n t. if page_number w == n then if_present e else t) {x = page_number v}
              {y = page_number vaddr} (omega arith)
              (ext.keeps_find (pdpt_index w ∷ pd_index w ∷ pt_index w ∷ []) root (pml4_index w) []
                tree.at_root refl (λ z. lw)),
      ext.keeps_used,
      ext.keeps_byte,
      spare,
    )

pub is_not_zero : (a : ℕ) → a ≢ 0 → (a == 0) ≡ false
is_not_zero a h = ground arith

is_present : (flags : ℕ) → flags % 2 ≡ 1 → (flags % 2 == 1) ≡ true
is_present flags h = ground arith

-- In a tree of page tables, with three pages to spare, `map_page_in` of a present page at an address
-- of user space does not panic. Afterwards every address of the page of `vaddr` has the physical
-- address in the page of `paddr`, every other address of user space the one that it had, the root's
-- entries for the kernel's half are the same, and the tables are a tree again.
pub map_page_in_lem :
    (place : ℕ → Option (List ℕ)) (m : Memory) (pml4 vaddr paddr flags : ℕ)
    → IsTree place (frame_of pml4) m
    → pml4_index vaddr < 256
    → Spare 3 m.pmm
    → pml4 ≢ 0
    → paddr < 2 ^ 52
    → flags % 2 ≡ 1
    → (place' : ℕ → Option (List ℕ)) × (m' : Memory) × (map_page_in m pml4 vaddr paddr flags
        ≡ some m')
      × IsTree place' (frame_of pml4) m'
      × ((j : ℕ) → 256 ≤ j → m'.entry (frame_of pml4) j ≡ m.entry (frame_of pml4) j)
      × ((w : ℕ)
          → pml4_index w < 256
          → get_physical_in m' pml4 w ≡ (
              if page_number w == page_number vaddr
              then align_page paddr + pg_offset w
              else get_physical_in m pml4 w))
unfolding map_page_in
map_page_in_lem place m pml4 vaddr paddr flags tree low s nz small present =
    let (place', m', eq, tree', kernel, at, used, same_byte, spare) =
      map_at_lem 0 place (frame_of pml4) m vaddr paddr flags tree low s in
    (
      place',
      m',
      rw (is_not_zero pml4 nz, map_page_in) eq,
      tree',
      kernel,
      λ w lw.
          get_physical_at_lem m' (frame_of pml4) w
          ∙ ap (λ t. physical_of t w) (at w lw)
          ∙ elim (Bool-cases (page_number w == page_number vaddr)) [
            | inl t ↦ rw (t, is_present flags present) (omega arith)
            | inr d ↦ rw d (sym (get_physical_at_lem m (frame_of pml4) w))
          ],
    )
