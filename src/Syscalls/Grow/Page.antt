-- ===== src/Syscalls/Grow/Page.antt =====
-- A page of the loop of `sys_heap_grow` of kernel/processes/syscall.c.
use acorn_os.Pmm.{Pmm, pmm_alloc, page_size, bitmap_test}
use acorn_os.Pmm.Alloc.{pmm_alloc-marks, pmm_alloc-eq-reserve, reserve-HasBytes, total-reserve}
use acorn_os.Paging.{
  Memory, map_page_in, frame_of, pg_offset, pml4_index, pdpt_index, pd_index, pt_index,
}
use acorn_os.Paging.Tree.{IsTree, Spare, another, find}
use acorn_os.Paging.Walk.{translate}
use acorn_os.Paging.Map.{page_number}
use acorn_os.Paging.Translate.{map_at_lem, physical_of, is_not_zero}
use acorn_os.Syscalls.{grow_page}
use acorn_os.Common.{
  ℕ, suc, ◌+◌, ◌*◌, ◌/◌, ◌^◌, ◌<◌, ◌≡◌, refl, ap, ◌∙◌, ◌≢◌, inl, inr, true, false, Option, none,
  some, List, [], ◌∷◌, arith, ◌==◌, if◌then◌else◌, ==_refl, Bool-cases, update,
}

-- A page taken from the allocator is no table, and the tables stay a tree.
IsTree-pmm_alloc :
    (place : ℕ → Option (List ℕ)) (root : ℕ) (m : Memory) (pmm : Pmm) (a : ℕ)
    → IsTree place root m
    → pmm_alloc m.pmm ≡ some (a, pmm)
    → IsTree place root (record m { pmm = pmm })
      × (bitmap_test m.pmm (a / page_size) ≡ true)
      × (a / page_size < 2 ^ 40)
      × (bitmap_test pmm (a / page_size) ≡ false)
      × ((q : ℕ) → bitmap_test m.pmm q ≡ false → bitmap_test pmm q ≡ false)
IsTree-pmm_alloc place root m pmm a tree e =
    let (mult, l, free, eq) = pmm_alloc-eq-reserve m.pmm pmm a e in
    let used : (q : ℕ) → bitmap_test m.pmm q ≡ false → bitmap_test pmm q ≡ false =
      λ q u. (pmm_alloc-marks m.pmm pmm a q tree.bytes e).3 ∙ ground (arith, u) in
    (
      record {
        at_root = tree.at_root;
        below = tree.below;
        in_use = λ t path at. used t (tree.in_use t path at);
        bytes = rw eq (reserve-HasBytes m.pmm (a / page_size) tree.bytes);
        few_pages = rw eq (rw (total-reserve m.pmm (a / page_size)) tree.few_pages);
      },
      free,
      omega (arith, l, tree.few_pages),
      (pmm_alloc-marks m.pmm pmm a (a / page_size) tree.bytes e).3
          ∙ rw (==_refl (a / page_size)) refl,
      used,
    )

find_byte :
    (m : Memory) (byte : ℕ → ℕ → ℕ) (js : List ℕ) (u j : ℕ)
    → find (record m { byte = byte }) u j js ≡ find m u j js
unfolding find
find_byte m byte [] u j = refl
find_byte m byte (k ∷ ks) u j =
    ap (λ o. if (m.entry u j).present then o else none) (find_byte m byte ks (m.entry u j).frame k)

find_pmm :
    (m : Memory) (pmm : Pmm) (js : List ℕ) (u j : ℕ)
    → find (record m { pmm = pmm }) u j js ≡ find m u j js
unfolding find
find_pmm m pmm [] u j = refl
find_pmm m pmm (k ∷ ks) u j =
    ap (λ o. if (m.entry u j).present then o else none) (find_pmm m pmm ks (m.entry u j).frame k)

-- What a page of the loop leaves: a tree, the new page at `va`, zeroed, and all else as before.
pub record IsGrown (root : ℕ) (m m' : Memory) (va page : ℕ) : Type 0 where
  pub was_free : bitmap_test m.pmm page ≡ true
  pub is_used : bitmap_test m'.pmm page ≡ false
  pub stays_used : (q : ℕ) → bitmap_test m.pmm q ≡ false → bitmap_test m'.pmm q ≡ false
  pub new_byte : m'.byte ≡ update m.byte page (λ i. 0)
  pub mapped :
      (w : ℕ)
      → pml4_index w < 256
      → physical_of (translate m' root w) w ≡ (
          if page_number w == page_number va
          then page * page_size + pg_offset w
          else physical_of (translate m root w) w)

pub grow_page-IsGrown :
    (n : ℕ) (place : ℕ → Option (List ℕ)) (m : Memory) (dir va : ℕ)
    → IsTree place (frame_of dir) m
    → dir ≢ 0
    → pml4_index va < 256
    → Spare (suc (suc (suc (suc n)))) m.pmm
    → (place' : ℕ → Option (List ℕ)) × (m' : Memory) × (page : ℕ) × (grow_page m dir va ≡ some m')
      × IsTree place' (frame_of dir) m'
      × IsGrown (frame_of dir) m m' va page
      × Spare n m'.pmm
unfolding grow_page map_page_in
grow_page-IsGrown n place m dir va tree nz low (another {pmm' = pmm} {a = a} e anz s) =
    let (tree1, free, small, marked, used) = IsTree-pmm_alloc place (frame_of dir) m pmm a tree e in
    let m1 : Memory = record m { pmm = pmm } in
    let (place', m2, eq, tree2, kernel, at, used2, byte2, s2) =
      map_at_lem n place (frame_of dir) m1 va a 7 tree1 low s in
    (
      place',
      record m2 { byte = update m2.byte (a / page_size) (λ i. 0) },
      a / page_size,
      rw (e, is_not_zero dir nz, eq, grow_page, map_page_in) refl,
      record {
        at_root = tree2.at_root;
        below = tree2.below;
        in_use = tree2.in_use;
        bytes = tree2.bytes;
        few_pages = tree2.few_pages;
      },
      record {
        was_free = free;
        is_used = used2 (a / page_size) marked;
        stays_used = λ q u. used2 q (used q u);
        new_byte = ap (λ b. update b (a / page_size) (λ i. 0)) byte2;
        mapped = λ w lw.
            let js = pdpt_index w ∷ pd_index w ∷ pt_index w ∷ [] in
            ap (λ t. physical_of t w)
              (find_byte m2 (update m2.byte (a / page_size) (λ i. 0)) js (frame_of dir)
                  (pml4_index w)
                ∙ at w lw)
            ∙ elim (Bool-cases (page_number w == page_number va)) [
              | inl t ↦ rw t (omega (arith, small))
              | inr d ↦
                  rw d (ap (λ t. physical_of t w) (find_pmm m pmm js (frame_of dir) (pml4_index w)))
            ];
      },
      s2,
    )
