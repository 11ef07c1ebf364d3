-- ===== src/Pmm/Alloc.antt =====
-- `pmm_alloc` and `pmm_free` of kernel/memory/pmm.c.
use acorn_os.Common.{
  ℕ, zero, suc, ◌+◌, ◌*◌, ◌/◌, ◌%◌, ◌^◌, ◌<◌, ◌≤◌, ◌≡◌, ◌≢◌, ◌⊎◌, refl, inl, inr, ◌∙◌, ap, true,
  false, arith, ◌==◌, if◌then◌else◌, Bool-cases, Option, none, some,
}
use acorn_os.Pmm.{
  Pmm, page_size, bitmap_test, reserve_page, release_page, alloc_from, pmm_alloc, pmm_free,
}
use acorn_os.Pmm.Bits.{
  HasBytes, bitmap_test-set, bitmap_test-clear, bitmap_set-HasBytes, bitmap_clear-HasBytes,
}

pub bitmap_test-reserve :
    (m : Pmm) (p q : ℕ)
    → HasBytes m
    → bitmap_test (reserve_page m p) q ≡ (if p == q then false else bitmap_test m q)
unfolding reserve_page bitmap_test
bitmap_test-reserve m p q h = bitmap_test-set m p q h

pub bitmap_test-release :
    (m : Pmm) (p q : ℕ)
    → HasBytes m
    → bitmap_test (release_page m p) q ≡ (if p == q then true else bitmap_test m q)
unfolding release_page bitmap_test
bitmap_test-release m p q h = bitmap_test-clear m p q h

pub reserve-HasBytes : (m : Pmm) (p : ℕ) → HasBytes m → HasBytes (reserve_page m p)
unfolding reserve_page
reserve-HasBytes m p h = bitmap_set-HasBytes m p h

pub release-HasBytes : (m : Pmm) (p : ℕ) → HasBytes m → HasBytes (release_page m p)
unfolding release_page
release-HasBytes m p h = bitmap_clear-HasBytes m p h

pub total-reserve : (m : Pmm) (p : ℕ) → (reserve_page m p).total_pages ≡ m.total_pages
unfolding reserve_page
total-reserve m p = refl

pub total-release : (m : Pmm) (p : ℕ) → (release_page m p).total_pages ≡ m.total_pages
unfolding release_page
total-release m p = refl

-- Every page from `i` to `j` is in use.
abbrev pub AllUsed : Pmm → ℕ → ℕ → Type 0
AllUsed m i j = (q : ℕ) → i ≤ q → q < j → bitmap_test m q ≡ false

-- The page found: the first free one from `i` on.
abbrev pub Found : Pmm → ℕ → ℕ → Option (ℕ × Pmm) → Type 0
Found m i j r =
    (p : ℕ) × (i ≤ p)
    × (p < j)
    × (bitmap_test m p ≡ true)
    × AllUsed m i p
    × (r ≡ some (p * page_size, reserve_page m p))

AllUsed-cons : (m : Pmm) (i j : ℕ) → bitmap_test m i ≡ false → AllUsed m (i + 1) j → AllUsed m i j
AllUsed-cons m i j e h q l r = elim (Bool-cases (i == q)) [
  | inl s ↦ ap (bitmap_test m) {x = q} {y = i} (ground arith) ∙ e
  | inr d ↦ h q (ground arith) r
]

alloc_from-finds :
    (n i j : ℕ) (m : Pmm)
    → i + n ≡ j
    → (AllUsed m i j × (alloc_from n i m ≡ none)) ⊎ Found m i j (alloc_from n i m)
unfolding alloc_from
alloc_from-finds zero i j m e = inl (λ q l r. absurd (omega arith), refl)
alloc_from-finds (suc n) i j m e = elim (Bool-cases (bitmap_test m i)) [
  | inl free ↦
      rw free (inr (i, omega arith, omega arith, free, λ q l r. absurd (omega arith), refl))
  | inr used ↦ rw used (elim (alloc_from-finds n (i + 1) j m (omega arith)) [
    | inl (all, eq) ↦ inl (AllUsed-cons m i j used all, eq)
    | inr (p, l, r, f, all, eq) ↦ inr (p, omega arith, r, f, AllUsed-cons m i p used all, eq)
  ])
]

-- `pmm_alloc` fails (the kernel panics) exactly when every page is in use; otherwise it returns the
-- address of the first free page, which it marks as used and counts.
pub pmm_alloc_lem :
    (m : Pmm)
    → (AllUsed m 0 m.total_pages × (pmm_alloc m ≡ none)) ⊎ Found m 0 m.total_pages (pmm_alloc m)
unfolding pmm_alloc
pmm_alloc_lem m = alloc_from-finds m.total_pages 0 m.total_pages m (omega arith)

pub pmm_alloc-eq-reserve :
    (m m' : Pmm) (a : ℕ)
    → pmm_alloc m ≡ some (a, m')
    → (a ≡ a / page_size * page_size)
      × (a / page_size < m.total_pages)
      × (bitmap_test m (a / page_size) ≡ true)
      × (m' ≡ reserve_page m (a / page_size))
pmm_alloc-eq-reserve m m' a e = elim (pmm_alloc_lem m) [
  | inl (all, eq) ↦ absurd (ground arith)
  | inr (p, l, r, f, all, eq) ↦
      let pa : p ≡ a / page_size = ground arith in
      (ground arith, ground arith, rw (← pa) f, rw (← pa) (ground arith))
]

-- A page that `pmm_alloc` returned is a page of the machine that was free; after the call it is in
-- use and every other page is as before.
pub pmm_alloc-marks :
    (m m' : Pmm) (a q : ℕ)
    → HasBytes m
    → pmm_alloc m ≡ some (a, m')
    → (a % page_size ≡ 0)
      × (a / page_size < m.total_pages)
      × (bitmap_test m (a / page_size) ≡ true)
      × (bitmap_test m' q ≡ (if a / page_size == q then false else bitmap_test m q))
pmm_alloc-marks m m' a q h e =
    let (mult, l, f, eq) = pmm_alloc-eq-reserve m m' a e in
    (omega arith, l, f, rw eq (bitmap_test-reserve m (a / page_size) q h))

-- Two pages handed out one after the other, with no `pmm_free` between, are different.
pub pmm_alloc-distinct :
    (m m' m'' : Pmm) (a b : ℕ)
    → HasBytes m
    → pmm_alloc m ≡ some (a, m')
    → pmm_alloc m' ≡ some (b, m'')
    → a ≢ b
pmm_alloc-distinct m m' m'' a b h e f s =
    let used = (pmm_alloc-marks m m' a (a / page_size) h e).3 in
    let free = (pmm_alloc-eq-reserve m' m'' b f).2 in
    ground (arith, used, free, ap (λ x. bitmap_test m' (x / page_size)) s)

used-release-reserve :
    (m : Pmm) (p : ℕ)
    → m.used_pages < 2 ^ 64
    → (release_page (reserve_page m p) p).used_pages ≡ m.used_pages
unfolding release_page reserve_page
used-release-reserve m p u = omega arith

-- `pmm_free` of a page that `pmm_alloc` returned makes every page as free as it was before, and
-- puts the count back. (Page 0, at address 0, is never given back.)
pub pmm_free-alloc :
    (m m' : Pmm) (a q : ℕ)
    → HasBytes m
    → m.used_pages < 2 ^ 64
    → pmm_alloc m ≡ some (a, m')
    → a ≢ 0
    → (bitmap_test (pmm_free m' a) q ≡ bitmap_test m q)
      × ((pmm_free m' a).used_pages ≡ m.used_pages)
unfolding pmm_free
pmm_free-alloc m m' a q h u e nz =
    let (mult, l, f, eq) = pmm_alloc-eq-reserve m m' a e in
    let kept = reserve-HasBytes m (a / page_size) h in
    rw eq (
      ground (
        arith,
        f,
        ap (bitmap_test m) {x = a / page_size} {y = q},
        bitmap_test-release (reserve_page m (a / page_size)) (a / page_size) q kept,
        bitmap_test-reserve m (a / page_size) q h,
        used-release-reserve m (a / page_size) u,
      ))
