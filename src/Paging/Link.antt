-- ===== src/Paging/Link.antt =====
-- A new table of `get_pt_entry` of kernel/architecture/x86_64/paging.c in the tree of tables: the tree
-- stays one, and no address is translated otherwise.
use acorn_os.Pmm.{bitmap_test}
use acorn_os.Paging.{Memory, zero_entry, table_entry, set_entry}
use acorn_os.Paging.Tree.{
  IsTree, IsNew, find, find_absent, set_entry_at, set_entry_else, other_level, apart,
}
use acorn_os.Common.{
  true_is_not_false, some_injective, ◌≤◌, ℕ, ◌+◌, ◌%◌, ◌^◌, ◌<◌, ◌≡◌, refl, sym, ap, ap₂, ◌∙◌, ◌≢◌,
  ◌⊎◌, inl, inr, true, false, ◌&&◌, Option, some, List, [], ◌∷◌, arith, ◌==◌, ==_refl, Bool-cases,
  length, update,
}

-- `m'` is `m` with a new table that the absent entry `i` of the placed table `t` now leads to.
zero_or_more : (p : List ℕ) → (length p ≡ 0) ⊎ (length p ≢ 0)
zero_or_more [] = inl refl
zero_or_more (x ∷ xs) = inr (λ z. absurd (omega arith))

-- `m'` again
abbrev pub linked : Memory → ℕ → ℕ → ℕ → Memory
linked m t i f = set_entry m t i (table_entry f)

module _ (place : ℕ → Option (List ℕ)) (root : ℕ) (m m' : Memory) (f t i : ℕ) (path : List ℕ)
    (tree : IsTree place root m) (new : IsNew m m' f) (at : place t ≡ some path)
    (short : length path < 3) (absent : (m.entry t i).present ≡ false) where
  fresh_differs : (u : ℕ) (p : List ℕ) → place u ≡ some p → u ≢ f
  fresh_differs u p e s = ground (arith, tree.in_use u p e, new.free, ap (bitmap_test m.pmm) s)

  linked_fresh : (j : ℕ) → (linked m' t i f).entry f j ≡ zero_entry
  linked_fresh j =
      set_entry_else m' t i (table_entry f) f j (inl (λ s. fresh_differs t path at (sym s)))
      ∙ ap (λ g. g f j) new.zeroed
      ∙ rw (==_refl f) refl

  pub linked_else :
      (u j : ℕ) (p : List ℕ)
      → place u ≡ some p
      → (u ≢ t) ⊎ (j ≢ i)
      → (linked m' t i f).entry u j ≡ m.entry u j
  linked_else u j p e d =
      set_entry_else m' t i (table_entry f) u j d
      ∙ ap (λ g. g u j) new.zeroed
      ∙ ground (arith, fresh_differs u p e)

  pub linked_present :
      (u j : ℕ) (p : List ℕ)
      → place u ≡ some p
      → (m.entry u j).present ≡ true
      → (linked m' t i f).entry u j ≡ m.entry u j
  linked_present u j p e pr = elim (Bool-cases (u == t && j == i)) [
    | inl s ↦ absurd (
        true_is_not_false (
          sym pr
          ∙ ap₂ (λ v w. (m.entry v w).present) {x = u} {y = t} (ground arith) (ground arith)
          ∙ absent))
    | inr d ↦ linked_else u j p e (apart u t j i d)
  ]

  pub frame_small : f % 2 ^ 40 ≡ f
  frame_small = omega (arith, new.bounded, tree.few_pages)

  pub find-linked :
      (js : List ℕ) (u j : ℕ) (p : List ℕ)
      → place u ≡ some p
      → length p + length js ≡ 3
      → (length p ≡ 0 → j < 256)
      → find (linked m' t i f) u j js ≡ find m u j js
  unfolding find
  find-linked [] u j p e l low =
      rw (linked_else u j p e (inl (other_level place t u path p at e (omega arith)))) refl
  find-linked (k ∷ ks) u j p e l low = elim (Bool-cases (u == t && j == i)) [
    | inl s ↦
        let su : u ≡ t = ground arith in
        let sj : j ≡ i = ground arith in
        rw (su, sj, set_entry_at m' t i (table_entry f), absent, frame_small)
          (find_absent (linked m' t i f) ks f k (ap (λ g. g.present) (linked_fresh k)))
    | inr d ↦
        let same = linked_else u j p e (apart u t j i d) in
        elim (Bool-cases (m.entry u j).present) [
          | inl pr ↦
              rw (same, pr)
                (find-linked ks (m.entry u j).frame k (j ∷ p)
                  (tree.below u j p e (omega arith) low pr) (omega arith)
                  (λ z. absurd (omega arith)))
          | inr ab ↦ rw (same, ab) refl
        ]
  ]

  abbrev pub placed : ℕ → Option (List ℕ)
  placed = update place f (some (i ∷ path))

  placed_else : (u : ℕ) → (f == u) ≡ false → placed u ≡ place u
  placed_else u d = rw d refl

  pub placed_new : placed f ≡ some (i ∷ path)
  placed_new = rw (==_refl f) refl

  pub placed_old : (u : ℕ) (p : List ℕ) → place u ≡ some p → placed u ≡ some p
  placed_old u p e = placed_else u (ground (arith, fresh_differs u p e)) ∙ e

  -- A place of the new tree is the new table's or an old one.
  placed-cases : (u : ℕ) (p : List ℕ) → placed u ≡ some p → (u ≡ f) ⊎ (place u ≡ some p)
  placed-cases u p e = elim (Bool-cases (f == u)) [
    | inl s ↦ inl (ground arith)
    | inr d ↦ inr (sym (placed_else u d) ∙ e)
  ]

  below-linked :
      (u j : ℕ) (p : List ℕ)
      → placed u ≡ some p
      → length p < 3
      → (length p ≡ 0 → j < 256)
      → ((linked m' t i f).entry u j).present ≡ true
      → placed ((linked m' t i f).entry u j).frame ≡ some (j ∷ p)
  below-linked u j p e l low pr = elim (placed-cases u p e) [
    | inl s ↦ absurd (
        true_is_not_false (
          sym pr
          ∙ ap (λ v. ((linked m' t i f).entry v j).present) s
          ∙ ap (λ x. x.present) (linked_fresh j)))
    | inr old ↦ elim (Bool-cases (u == t && j == i)) [
      | inl s ↦
          let su : u ≡ t = ground arith in
          let sj : j ≡ i = ground arith in
          ap placed {x = ((linked m' t i f).entry u j).frame} {y = f} (
            ap₂ (λ v w. ((linked m' t i f).entry v w).frame) su sj
            ∙ ap (λ x. x.frame) (set_entry_at m' t i (table_entry f))
            ∙ frame_small)
          ∙ placed_new
          ∙ ap₂ (λ x y. some (x ∷ y)) (sym sj)
              (some_injective path (sym at ∙ ap place (sym su) ∙ old))
      | inr d ↦
          let same = linked_else u j p old (apart u t j i d) in
          rw same (
            placed_old (m.entry u j).frame (j ∷ p)
              (tree.below u j p old l low (sym (ap (λ x. x.present) same) ∙ pr)))
    ]
  ]

  -- The kernel's half of the root stays.
  pub kernel-linked :
      (j : ℕ)
      → 256 ≤ j
      → (length path ≡ 0 → i < 256)
      → (linked m' t i f).entry root j ≡ m.entry root j
  kernel-linked j h low = linked_else root j [] tree.at_root (elim (zero_or_more path) [
    | inl z ↦ let l = low z in inr (λ s. absurd (omega arith))
    | inr n ↦ inl (other_level place t root path [] at tree.at_root (λ z. n (z ∙ refl)))
  ])

  in_use-linked :
      (u : ℕ) (p : List ℕ) → placed u ≡ some p → bitmap_test (linked m' t i f).pmm u ≡ false
  unfolding set_entry
  in_use-linked u p e = elim (placed-cases u p e) [
    | inl s ↦ new.marked u ∙ rw (s, ==_refl f) refl
    | inr old ↦ new.marked u ∙ ground (arith, fresh_differs u p old, tree.in_use u p old)
  ]

  pub used-linked :
      (q : ℕ) → bitmap_test m.pmm q ≡ false → bitmap_test (linked m' t i f).pmm q ≡ false
  unfolding set_entry
  used-linked q u = new.marked q ∙ ground (arith, u)

  pub byte-linked : (linked m' t i f).byte ≡ m.byte
  unfolding set_entry
  byte-linked = new.same_byte

  pub IsTree-linked : IsTree placed root (linked m' t i f)
  unfolding set_entry
  IsTree-linked = record {
    at_root = placed_old root [] tree.at_root;
    below = below-linked;
    in_use = in_use-linked;
    bytes = new.same_bytes;
    few_pages = omega (arith, new.same_total, tree.few_pages);
  }
