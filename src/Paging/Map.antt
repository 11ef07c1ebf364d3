-- ===== src/Paging/Map.antt =====
-- `map_page`, `map_page_in` and `get_physical` of kernel/architecture/x86_64/paging.c against the
-- translation of addresses.
use acorn_os.Paging.{Entry, Memory, set_entry, pml4_index, pdpt_index, pd_index, pt_index}
use acorn_os.Paging.Tree.{IsTree, find, set_entry_at, set_entry_else, other_level, apart}
use acorn_os.Paging.Walk.{translate, IsWalk}
use acorn_os.Common.{
  some_injective, ℕ, ◌+◌, ◌/◌, ◌%◌, ◌^◌, ◌<◌, ◌≡◌, refl, sym, ap, ap₂, ◌∙◌, ◌≢◌, inl, inr, true,
  ◌&&◌, Option, none, some, List, [], ◌∷◌, arith, ◌==◌, if◌then◌else◌, ==_iff, Bool-cases, length,
  get_or,
}

-- The page that an address lies in: 36 bits that the four indices are made of.
abbrev pub page_number : ℕ → ℕ
page_number v = v / 2 ^ 12 % 2 ^ 36

abbrev path_end : ℕ → List ℕ → List ℕ → List ℕ
path_end j [] p = j ∷ p
path_end j (k ∷ ks) p = path_end k ks (j ∷ p)

module _ (place : ℕ → Option (List ℕ)) (root : ℕ) (m : Memory) (pt i : ℕ) (path : List ℕ)
    (e : Entry) (tree : IsTree place root m) (at : place pt ≡ some path)
    (last : length path ≡ 3) where
  -- A store in a page table changes no upper table ...
  pub upper_same :
      (u j : ℕ) (p : List ℕ)
      → place u ≡ some p
      → length p < 3
      → (set_entry m pt i e).entry u j ≡ m.entry u j
  upper_same u j p eq l =
      set_entry_else m pt i e u j (inl (other_level place pt u path p at eq (omega arith)))

  -- ... and no translation but the one that ends at the entry.
  find_elsewhere :
      (js : List ℕ) (u j : ℕ) (p : List ℕ)
      → place u ≡ some p
      → length p + length js ≡ 3
      → path_end j js p ≢ i ∷ path
      → (length p ≡ 0 → j < 256)
      → find (set_entry m pt i e) u j js ≡ find m u j js
  unfolding find
  find_elsewhere [] u j p eq l ne low = elim (Bool-cases (u == pt && j == i)) [
    | inl s ↦
        let su : u ≡ pt = ground arith in
        let sj : j ≡ i = ground arith in
        absurd (ne (ap₂ ◌∷◌ sj (some_injective p (sym eq ∙ ap place su ∙ at))))
    | inr d ↦ rw (set_entry_else m pt i e u j (apart u pt j i d)) refl
  ]
  find_elsewhere (k ∷ ks) u j p eq l ne low = elim (Bool-cases (m.entry u j).present) [
    | inl pr ↦
        rw (upper_same u j p eq (omega arith), pr)
          (find_elsewhere ks (m.entry u j).frame k (j ∷ p)
            (tree.below u j p eq (omega arith) low pr) (omega arith) ne (λ z. absurd (omega arith)))
    | inr ab ↦ rw (upper_same u j p eq (omega arith), ab) refl
  ]

  pub IsTree-set_entry : IsTree place root (set_entry m pt i e)
  unfolding set_entry
  IsTree-set_entry = record {
    at_root = tree.at_root;
    below = λ u j p eq l low pr.
        let same = upper_same u j p eq l in
        rw same (tree.below u j p eq l low (sym (ap (λ x. x.present) same) ∙ pr));
    in_use = tree.in_use;
    bytes = tree.bytes;
    few_pages = tree.few_pages;
  }

-- A present entry leads the search on.
find_down :
    (m : Memory) (u j f k : ℕ) (ks : List ℕ)
    → ((m.entry u j).present ≡ true) × ((m.entry u j).frame ≡ f)
    → find m u j (k ∷ ks) ≡ find m f k ks
unfolding find
find_down m u j f k ks (pr, fr) = rw (pr, fr) refl

same_page :
    (v w : ℕ)
    → path_end (pml4_index w) (pdpt_index w ∷ pd_index w ∷ pt_index w ∷ []) []
      ≡ pt_index v ∷ pd_index v ∷ pdpt_index v ∷ pml4_index v ∷ []
    → page_number w ≡ page_number v
same_page v w e = omega (
  arith,
  ap (λ l. get_or l 0 0) e,
  ap (λ l. get_or l 1 0) e,
  ap (λ l. get_or l 2 0) e,
  ap (λ l. get_or l 3 0) e,
)

translate_same_page :
    (m : Memory) (root v w : ℕ)
    → page_number w ≡ page_number v
    → translate m root w ≡ translate m root v
translate_same_page m root v w h =
    ap (λ i. find m root i (pdpt_index w ∷ pd_index w ∷ pt_index w ∷ [])) {x = pml4_index w}
      {y = pml4_index v} (omega arith)
    ∙ ap (λ i. find m root (pml4_index v) (i ∷ pd_index w ∷ pt_index w ∷ [])) {x = pdpt_index w}
        {y = pdpt_index v} (omega arith)
    ∙ ap (λ i. find m root (pml4_index v) (pdpt_index v ∷ i ∷ pt_index w ∷ [])) {x = pd_index w}
        {y = pd_index v} (omega arith)
    ∙ ap (λ i. find m root (pml4_index v) (pdpt_index v ∷ pd_index v ∷ i ∷ [])) {x = pt_index w}
        {y = pt_index v} (omega arith)

abbrev pub if_present : Entry → Option Entry
if_present e = if e.present then some e else none

find_last : (m : Memory) (u j : ℕ) → find m u j [] ≡ if_present (m.entry u j)
unfolding find
find_last m u j = refl

-- After a store to the entry of `v`, its page is translated to the entry and every other page as before.
pub translate-set_entry :
    (place : ℕ → Option (List ℕ)) (root : ℕ) (m : Memory) (v pdpt pd pt : ℕ) (e : Entry)
    → IsWalk place root m v pdpt pd pt
    → (w : ℕ) → pml4_index w < 256
    → translate (set_entry m pt (pt_index v) e) root w
      ≡ (if page_number w == page_number v then if_present e else translate m root w)
translate-set_entry place root m v pdpt pd pt e walk w low =
    let path = pd_index v ∷ pdpt_index v ∷ pml4_index v ∷ [] in
    let upper = upper_same place root m pt (pt_index v) path e walk.tree walk.at_pt refl in
    let still : (u j f : ℕ) (p : List ℕ)
        → place u ≡ some p
        → length p < 3
        → ((m.entry u j).present ≡ true) × ((m.entry u j).frame ≡ f)
        → (((set_entry m pt (pt_index v) e).entry u j).present ≡ true)
          × (((set_entry m pt (pt_index v) e).entry u j).frame ≡ f) =
      λ u j f p eq l h. rw (upper u j p eq l) h in
    elim (Bool-cases (page_number w == page_number v)) [
      | inl s ↦ rw s (
          translate_same_page (set_entry m pt (pt_index v) e) root v w
            ((==_iff (page_number w) (page_number v)).0 s)
          ∙ find_down (set_entry m pt (pt_index v) e) root (pml4_index v) pdpt (pdpt_index v)
              (pd_index v ∷ pt_index v ∷ [])
              (still root (pml4_index v) pdpt [] walk.tree.at_root (omega arith) walk.to_pdpt)
          ∙ find_down (set_entry m pt (pt_index v) e) pdpt (pdpt_index v) pd (pd_index v)
              (pt_index v ∷ [])
              (still pdpt (pdpt_index v) pd (pml4_index v ∷ []) walk.at_pdpt (omega arith)
                walk.to_pd)
          ∙ find_down (set_entry m pt (pt_index v) e) pd (pd_index v) pt (pt_index v) [] (
              still pd (pd_index v) pt (pdpt_index v ∷ pml4_index v ∷ []) walk.at_pd (omega arith)
                walk.to_pt)
          ∙ find_last (set_entry m pt (pt_index v) e) pt (pt_index v)
          ∙ ap if_present (set_entry_at m pt (pt_index v) e))
      | inr d ↦ rw d (
          find_elsewhere place root m pt (pt_index v) path e walk.tree walk.at_pt refl
            (pdpt_index w ∷ pd_index w ∷ pt_index w ∷ []) root (pml4_index w) [] walk.tree.at_root
            refl (λ q. ground (arith, same_page v w q)) (λ z. low))
    ]
