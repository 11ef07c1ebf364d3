-- ===== src/Paging/Tree.antt =====
-- The page tables as a tree: what the code of kernel/architecture/x86_64/paging.c finds at an address,
-- and what `alloc_table` does.
use acorn_os.Pmm.{Pmm, pmm_alloc, page_size, bitmap_test}
use acorn_os.Pmm.Bits.{HasBytes}
use acorn_os.Pmm.Alloc.{pmm_alloc-eq-reserve, reserve-HasBytes, bitmap_test-reserve, total-reserve}
use acorn_os.Paging.{Entry, Memory, zero_entry, set_entry, alloc_table}
use acorn_os.Common.{
  ℕ, suc, ◌/◌, ◌^◌, ◌≤◌, ◌<◌, ◌≡◌, refl, sym, ap, ◌∙◌, ◌≢◌, ◌⊎◌, inl, inr, true, false, ◌&&◌,
  Option, none, some, List, [], ◌∷◌, arith, ◌==◌, if◌then◌else◌, ==_refl, Bool-cases, length,
  update,
}

-- The entry that the tables hold at the end of a path of indices, if it is present.
unfoldable pub find : Memory → ℕ → ℕ → List ℕ → Option Entry
find m table i [] = if (m.entry table i).present then some (m.entry table i) else none
find m table i (j ∷ js) =
    let rest = find m (m.entry table i).frame j js in
    if (m.entry table i).present then rest else none

-- `place` gives each table the path that leads to it from the root, the last index first. The root is
-- placed, a table above the last level has its entries' tables below it, and a frame with a place is in
-- use. So no table is reached in two ways. Of the root only the lower half counts, user space: the tables
-- of the kernel's half are shared, and some of its entries are huge pages.
pub record IsTree (place : ℕ → Option (List ℕ)) (root : ℕ) (m : Memory) : Type 0 where
  pub at_root : place root ≡ some []
  pub below :
      (t i : ℕ) (path : List ℕ)
      → place t ≡ some path
      → length path < 3
      → (length path ≡ 0 → i < 256)
      → (m.entry t i).present ≡ true
      → place (m.entry t i).frame ≡ some (i ∷ path)
  pub in_use : (t : ℕ) (path : List ℕ) → place t ≡ some path → bitmap_test m.pmm t ≡ false
  pub bytes : HasBytes m.pmm
  pub few_pages : m.pmm.total_pages ≤ 2 ^ 40

-- `pmm_alloc` gives a page, not the one at 0, `n` times in a row.
pub data Spare : ℕ → Pmm → Type 0 where
  enough : {pmm : Pmm} → Spare 0 pmm
  another :
      {pmm pmm' : Pmm} {n a : ℕ}
      → pmm_alloc pmm ≡ some (a, pmm')
      → a ≢ 0
      → Spare n pmm'
      → Spare (suc n) pmm

-- `m'` is `m` with a new table in the frame `f`, which was free.
pub record IsNew (m m' : Memory) (f : ℕ) : Type 0 where
  pub free : bitmap_test m.pmm f ≡ true
  pub bounded : f < m.pmm.total_pages
  pub zeroed : m'.entry ≡ update m.entry f (λ i. zero_entry)
  pub marked : (q : ℕ) → bitmap_test m'.pmm q ≡ (if f == q then false else bitmap_test m.pmm q)
  pub same_bytes : HasBytes m'.pmm
  pub same_total : m'.pmm.total_pages ≡ m.pmm.total_pages
  pub same_byte : m'.byte ≡ m.byte

pub alloc_table-IsNew :
    (n : ℕ) (m : Memory)
    → HasBytes m.pmm
    → Spare (suc n) m.pmm
    → (m' : Memory) × (f : ℕ) × (alloc_table m ≡ some (m', f)) × IsNew m m' f × Spare n m'.pmm
unfolding alloc_table
alloc_table-IsNew n m h (another {pmm' = pmm'} {a = a} e nz s) =
    let (mult, l, f, eq) = pmm_alloc-eq-reserve m.pmm pmm' a e in
    (
      record m { pmm = pmm'; entry = update m.entry (a / page_size) (λ i. zero_entry) },
      a / page_size,
      rw (e, alloc_table) (ground arith),
      record {
        free = f;
        bounded = l;
        zeroed = refl;
        marked = λ q. rw eq (bitmap_test-reserve m.pmm (a / page_size) q h);
        same_bytes = rw eq (reserve-HasBytes m.pmm (a / page_size) h);
        same_total = rw eq (total-reserve m.pmm (a / page_size));
        same_byte = refl;
      },
      s,
    )

pub set_entry_at : (m : Memory) (t i : ℕ) (e : Entry) → (set_entry m t i e).entry t i ≡ e
unfolding set_entry
set_entry_at m t i e = rw (==_refl t, ==_refl i) refl

pub set_entry_else :
    (m : Memory) (t i : ℕ) (e : Entry) (u j : ℕ)
    → (u ≢ t) ⊎ (j ≢ i)
    → (set_entry m t i e).entry u j ≡ m.entry u j
unfolding set_entry
set_entry_else m t i e u j d = ground arith

-- Two tables with paths of different lengths are different.
pub other_level :
    (place : ℕ → Option (List ℕ)) (t u : ℕ) (p q : List ℕ)
    → place t ≡ some p
    → place u ≡ some q
    → length p ≢ length q
    → u ≢ t
other_level place t u p q e f ne s = ne (same_length (sym e ∙ ap place (sym s) ∙ f))
  where
    same_length : {x y : List ℕ} → some x ≡ some y → length x ≡ length y
    same_length h = ap (λ o. elim o [ none ↦ 0 | some x ↦ length x ]) h

pub find_absent :
    (m : Memory) (js : List ℕ) (u j : ℕ) → (m.entry u j).present ≡ false → find m u j js ≡ none
unfolding find
find_absent m [] u j e = rw e refl
find_absent m (k ∷ ks) u j e = rw e refl

pub apart : (u t j i : ℕ) → (u == t && j == i) ≡ false → (u ≢ t) ⊎ (j ≢ i)
apart u t j i d = elim (Bool-cases (u == t)) [
  | inl a ↦ inr (ground arith)
  | inr b ↦ inl (ground arith)
]
