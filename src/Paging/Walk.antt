-- ===== src/Paging/Walk.antt =====
-- `get_pt_entry` of kernel/architecture/x86_64/paging.c, where it makes tables and where it does not.

use acorn_os.Pmm.{Pmm, bitmap_test}
use acorn_os.Paging.{
  Entry, Memory, table_entry, set_entry, descend, and_then, get_pt_entry, pml4_index, pdpt_index,
  pd_index, pt_index,
}
use acorn_os.Paging.Tree.{IsTree, Spare, enough, another, find, alloc_table-IsNew, set_entry_at}
use acorn_os.Paging.Link.{
  used-linked, byte-linked, kernel-linked, linked_present, linked, placed, find-linked,
  IsTree-linked, placed_old, placed_new, frame_small,
}
use acorn_os.Common.{
  false, ◌≤◌, ℕ, zero, suc, ◌+◌, ◌<◌, ◌≡◌, refl, ap, ◌∙◌, inl, inr, true, Option, some, List, [],
  ◌∷◌, arith, Bool-cases, length,
}

-- The entry that four levels of tables lead to for the page of `v`. Tables of 4 KB pages are meant:
-- like paging.c it takes a present entry of the third level for a table, so it is not the translation
-- of an address in a 2 MB page.
abbrev pub translate : Memory → ℕ → ℕ → Option Entry
translate m root v = find m root (pml4_index v) (pdpt_index v ∷ pd_index v ∷ pt_index v ∷ [])

-- `m'` has all that `m` has, in a tree with more tables.
pub record Extends (place place' : ℕ → Option (List ℕ)) (root : ℕ) (m m' : Memory) : Type 0 where
  pub keeps_place : (u : ℕ) (p : List ℕ) → place u ≡ some p → place' u ≡ some p
  pub keeps_entry :
      (u j : ℕ) (p : List ℕ)
      → place u ≡ some p
      → (m.entry u j).present ≡ true
      → m'.entry u j ≡ m.entry u j
  pub keeps_find :
      (js : List ℕ) (u j : ℕ) (p : List ℕ)
      → place u ≡ some p
      → length p + length js ≡ 3
      → (length p ≡ 0 → j < 256)
      → find m' u j js ≡ find m u j js
  -- the kernel's half of the root
  pub keeps_kernel : (j : ℕ) → 256 ≤ j → m'.entry root j ≡ m.entry root j
  pub keeps_used : (q : ℕ) → bitmap_test m.pmm q ≡ false → bitmap_test m'.pmm q ≡ false
  pub keeps_byte : m'.byte ≡ m.byte

Extends-trans :
    (place place' place'' : ℕ → Option (List ℕ)) (root : ℕ) (m m' m'' : Memory)
    → Extends place place' root m m'
    → Extends place' place'' root m' m''
    → Extends place place'' root m m''
Extends-trans place place' place'' root m m' m'' x y = record {
  keeps_place = λ u p e. y.keeps_place u p (x.keeps_place u p e);
  keeps_entry = λ u j p e pr.
      let same = x.keeps_entry u j p e pr in
      y.keeps_entry u j p (x.keeps_place u p e) (ap (λ z. z.present) same ∙ pr) ∙ same;
  keeps_find = λ js u j p e l low.
      y.keeps_find js u j p (x.keeps_place u p e) l low ∙ x.keeps_find js u j p e l low;
  keeps_kernel = λ j h. y.keeps_kernel j h ∙ x.keeps_kernel j h;
  keeps_used = λ q u. y.keeps_used q (x.keeps_used q u);
  keeps_byte = y.keeps_byte ∙ x.keeps_byte;
}

Spare-pred : (n : ℕ) (pmm : Pmm) → Spare (suc n) pmm → Spare n pmm
Spare-pred zero pmm s = enough
Spare-pred (suc n) pmm (another e nz s) = another e nz (Spare-pred n _ s)

-- What one level leaves: the next table `f` in its place, and the entry that leads to it.
record IsStep (place place' : ℕ → Option (List ℕ)) (root : ℕ) (m m' : Memory) (t i : ℕ)
    (path : List ℕ) (f : ℕ) : Type 0 where
  extends : Extends place place' root m m'
  tree : IsTree place' root m'
  placed_next : place' f ≡ some (i ∷ path)
  present : (m'.entry t i).present ≡ true
  leads : (m'.entry t i).frame ≡ f

descend-IsStep :
    (n : ℕ) (place : ℕ → Option (List ℕ)) (root : ℕ) (m : Memory) (t i : ℕ) (path : List ℕ)
    → IsTree place root m
    → place t ≡ some path
    → length path < 3
    → (length path ≡ 0 → i < 256)
    → Spare (suc n) m.pmm
    → (place' : ℕ → Option (List ℕ)) × (m' : Memory) × (f : ℕ) × (descend true m t i
        ≡ some (m', some f))
      × IsStep place place' root m m' t i path f
      × Spare n m'.pmm
unfolding descend set_entry
descend-IsStep n place root m t i path tree at short low s =
    elim (Bool-cases (m.entry t i).present) [
      | inl pr ↦ (
        place,
        m,
        (m.entry t i).frame,
        rw pr refl,
        record {
          extends = record {
            keeps_place = λ u p e. e;
            keeps_entry = λ u j p e q. refl;
            keeps_find = λ js u j p e l lo. refl;
            keeps_kernel = λ j h. refl;
            keeps_used = λ q u. u;
            keeps_byte = refl;
          };
          tree = tree;
          placed_next = tree.below t i path at short low pr;
          present = pr;
          leads = refl;
        },
        Spare-pred n m.pmm s,
      )
      | inr ab ↦
          let (m', f, e, new, s') = alloc_table-IsNew n m tree.bytes s in
          (
            placed place root m m' f t i path tree new at short ab,
            linked m' t i f,
            f,
            rw (ab, e, frame_small place root m m' f t i path tree new at short ab) refl,
            record {
              extends = record {
                keeps_place = placed_old place root m m' f t i path tree new at short ab;
                keeps_entry = linked_present place root m m' f t i path tree new at short ab;
                keeps_find = find-linked place root m m' f t i path tree new at short ab;
                keeps_kernel =
                    λ j h. kernel-linked place root m m' f t i path tree new at short ab j h low;
                keeps_used = used-linked place root m m' f t i path tree new at short ab;
                keeps_byte = byte-linked place root m m' f t i path tree new at short ab;
              };
              tree = IsTree-linked place root m m' f t i path tree new at short ab;
              placed_next = placed_new place root m m' f t i path tree new at short ab;
              present = ap (λ x. x.present) (set_entry_at m' t i (table_entry f));
              leads =
                  ap (λ x. x.frame) (set_entry_at m' t i (table_entry f))
                  ∙ frame_small place root m m' f t i path tree new at short ab;
            },
            s',
          )
    ]

-- The tables on the way to the entry of `v`, as `get_pt_entry` leaves them.
pub record IsWalk (place : ℕ → Option (List ℕ)) (root : ℕ) (m : Memory) (v pdpt pd pt : ℕ)
    : Type 0 where
  pub tree : IsTree place root m
  pub at_pdpt : place pdpt ≡ some (pml4_index v ∷ [])
  pub at_pd : place pd ≡ some (pdpt_index v ∷ pml4_index v ∷ [])
  pub at_pt : place pt ≡ some (pd_index v ∷ pdpt_index v ∷ pml4_index v ∷ [])
  pub to_pdpt :
      ((m.entry root (pml4_index v)).present ≡ true) × ((m.entry root (pml4_index v)).frame ≡ pdpt)
  pub to_pd :
      ((m.entry pdpt (pdpt_index v)).present ≡ true) × ((m.entry pdpt (pdpt_index v)).frame ≡ pd)
  pub to_pt : ((m.entry pd (pd_index v)).present ≡ true) × ((m.entry pd (pd_index v)).frame ≡ pt)

leads_still :
    (place place' : ℕ → Option (List ℕ)) (root : ℕ) (m m' : Memory) (u j f : ℕ) (p : List ℕ)
    → Extends place place' root m m'
    → place u ≡ some p
    → ((m.entry u j).present ≡ true) × ((m.entry u j).frame ≡ f)
    → ((m'.entry u j).present ≡ true) × ((m'.entry u j).frame ≡ f)
leads_still place place' root m m' u j f p x at (pr, fr) =
    let same = x.keeps_entry u j p at pr in
    (ap (λ e. e.present) same ∙ pr, ap (λ e. e.frame) same ∙ fr)

-- For an address of user space, with three pages and `n` more to spare, `get_pt_entry` makes the tables that are missing on the way to the entry
-- of `v`, and finds its page table; the tables are a tree as before, and nothing is translated otherwise.
pub get_pt_entry_lem :
    (n : ℕ) (place : ℕ → Option (List ℕ)) (root : ℕ) (m : Memory) (v : ℕ)
    → IsTree place root m
    → pml4_index v < 256
    → Spare (suc (suc (suc n))) m.pmm
    → (place' : ℕ → Option (List ℕ)) × (m' : Memory) × (pdpt : ℕ) × (pd : ℕ) × (pt : ℕ)
      × (get_pt_entry true m root v ≡ some (m', some pt))
      × IsWalk place' root m' v pdpt pd pt
      × Extends place place' root m m'
      × Spare n m'.pmm
unfolding get_pt_entry and_then
get_pt_entry_lem n place root m v tree low s =
    let (place1, m1, pdpt, e1, s1, spare1) =
      descend-IsStep (suc (suc n)) place root m root (pml4_index v) [] tree tree.at_root
        (omega arith) (λ z. low) s in
    let (place2, m2, pd, e2, s2, spare2) =
      descend-IsStep (suc n) place1 root m1 pdpt (pdpt_index v) (pml4_index v ∷ []) s1.tree
        s1.placed_next (omega arith) (λ z. absurd (omega arith)) spare1 in
    let (place3, m3, pt, e3, s3, spare3) =
      descend-IsStep n place2 root m2 pd (pd_index v) (pdpt_index v ∷ pml4_index v ∷ []) s2.tree
        s2.placed_next (omega arith) (λ z. absurd (omega arith)) spare2 in
    let x23 = Extends-trans place1 place2 place3 root m1 m2 m3 s2.extends s3.extends in
    (
      place3,
      m3,
      pdpt,
      pd,
      pt,
      rw (e1, e2, e3) refl,
      record {
        tree = s3.tree;
        at_pdpt = x23.keeps_place pdpt (pml4_index v ∷ []) s1.placed_next;
        at_pd = s3.extends.keeps_place pd (pdpt_index v ∷ pml4_index v ∷ []) s2.placed_next;
        at_pt = s3.placed_next;
        to_pdpt =
            leads_still place1 place3 root m1 m3 root (pml4_index v) pdpt [] x23 s1.tree.at_root
              (s1.present, s1.leads);
        to_pd =
            leads_still place2 place3 root m2 m3 pdpt (pdpt_index v) pd (pml4_index v ∷ [])
              s3.extends (s2.extends.keeps_place pdpt (pml4_index v ∷ []) s1.placed_next)
              (s2.present, s2.leads);
        to_pt = (s3.present, s3.leads);
      },
      Extends-trans place place1 place3 root m m1 m3 s1.extends x23,
      spare3,
    )
