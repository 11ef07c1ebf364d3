-- ===== src/Pmm/Count.antt =====
-- The counter of used pages of kernel/memory/pmm.c against the bitmap.
use acorn_os.Common.{
  add64, ◌≤◌, ℕ, zero, suc, ◌+◌, ◌/◌, ◌^◌, ◌<◌, ◌≡◌, refl, inl, inr, ◌∙◌, sym, ap, Bool, true,
  false, arith, ◌==◌, if◌then◌else◌, Bool-cases, ==_refl, some,
}
use acorn_os.Pmm.{
  Pmm, page_size, bitmap_test, reserve_page, release_page, pmm_alloc, pmm_free, pmm_free_pages,
}
use acorn_os.Pmm.Bits.{HasBytes}
use acorn_os.Pmm.Alloc.{
  bitmap_test-reserve, bitmap_test-release, release-HasBytes, reserve-HasBytes,
  pmm_alloc-eq-reserve,
}

-- How many of the first `n` pages are free.
abbrev pub count_free : ℕ → (ℕ → Bool) → ℕ
count_free zero f = 0
count_free (suc n) f = if f n then suc (count_free n f) else count_free n f

count_free-le : (n : ℕ) (f : ℕ → Bool) → count_free n f ≤ n
count_free-le zero f = omega arith
count_free-le (suc n) f = ground (arith, count_free-le n f)

count_free-same :
    (n : ℕ) (f g : ℕ → Bool) → ((q : ℕ) → q < n → g q ≡ f q) → count_free n g ≡ count_free n f
count_free-same zero f g h = refl
count_free-same (suc n) f g h =
    ground (arith, h n (omega arith), count_free-same n f g (λ q l. h q (omega arith)))

count_free-flip :
    (n p : ℕ) (f g : ℕ → Bool)
    → p < n
    → f p ≡ true
    → ((q : ℕ) → g q ≡ (if p == q then false else f q))
    → count_free n f ≡ suc (count_free n g)
count_free-flip zero p f g l e h = absurd (omega arith)
count_free-flip (suc n) p f g l e h = elim (Bool-cases (p == n)) [
  | inl last ↦
      let pn : p ≡ n = ground arith in
      let fn : f n ≡ true = ap f (sym pn) ∙ e in
      ground (arith, h n, count_free-same n f g (λ q lt. ground (arith, h q)))
  | inr below ↦ ground (arith, h n, count_free-flip n p f g (ground arith) e h)
]

-- The counter is `drift` above the number of used pages of the bitmap, and the numbers fit their 64
-- bits. `pmm_init` counts some pages twice, so the drift of the running kernel is not 0.
pub record IsCounted (drift : ℕ) (m : Pmm) : Type 0 where
  pub counted : m.used_pages + count_free m.total_pages (bitmap_test m) ≡ m.total_pages + drift
  pub small : m.total_pages + drift < 2 ^ 64

reserve-IsCounted :
    (drift : ℕ) (m : Pmm) (p : ℕ)
    → HasBytes m
    → IsCounted drift m
    → p < m.total_pages
    → bitmap_test m p ≡ true
    → IsCounted drift (reserve_page m p)
unfolding reserve_page
reserve-IsCounted drift m p h c l e = record {
  counted = omega (
    arith,
    c.counted,
    c.small,
    count_free-flip m.total_pages p (bitmap_test m) (bitmap_test (reserve_page m p)) l e
        (λ q. bitmap_test-reserve m p q h),
  );
  small = c.small;
}

count_free-same_pmm :
    (m : Pmm) (p q : ℕ)
    → HasBytes m
    → bitmap_test m p ≡ false
    → bitmap_test m q ≡ (if p == q then false else bitmap_test (release_page m p) q)
count_free-same_pmm m p q h e = elim (Bool-cases (p == q)) [
  | inl s ↦ rw s (ap (bitmap_test m) {x = q} {y = p} (ground arith) ∙ e)
  | inr d ↦ rw d (sym (rw d at (bitmap_test-release m p q h)))
]

release-IsCounted :
    (drift : ℕ) (m : Pmm) (p : ℕ)
    → HasBytes m
    → IsCounted drift m
    → p < m.total_pages
    → bitmap_test m p ≡ false
    → IsCounted drift (release_page m p)
unfolding release_page
release-IsCounted drift m p h c l e = record {
  counted = omega (
    arith,
    c.counted,
    c.small,
    count_free-le m.total_pages (bitmap_test (release_page m p)),
    count_free-flip m.total_pages p (bitmap_test (release_page m p)) (bitmap_test m) l
        (bitmap_test-release m p p h ∙ rw (==_refl p)) (λ q. count_free-same_pmm m p q h e),
  );
  small = c.small;
}

-- `pmm_alloc` keeps the difference between the counter and the used pages of the bitmap, whatever it is.
pub pmm_alloc-IsCounted :
    (drift : ℕ) (m m' : Pmm) (a : ℕ)
    → HasBytes m
    → IsCounted drift m
    → pmm_alloc m ≡ some (a, m')
    → IsCounted drift m' × HasBytes m'
pmm_alloc-IsCounted drift m m' a h c e =
    let (mult, l, f, eq) = pmm_alloc-eq-reserve m m' a e in
    rw eq (reserve-IsCounted drift m (a / page_size) h c l f, reserve-HasBytes m (a / page_size) h)

-- `pmm_free` of a page in use keeps the difference between the counter and the used pages of the
-- bitmap, whatever it is.
pub pmm_free-IsCounted :
    (drift : ℕ) (m : Pmm) (a : ℕ)
    → HasBytes m
    → IsCounted drift m
    → a / page_size < m.total_pages
    → bitmap_test m (a / page_size) ≡ false
    → IsCounted drift (pmm_free m a) × HasBytes (pmm_free m a)
unfolding pmm_free
pmm_free-IsCounted drift m a h c l e = elim (Bool-cases (a == 0)) [
  | inl z ↦ rw z (c, h)
  | inr nz ↦
      rw nz
        (release-IsCounted drift m (a / page_size) h c l e, release-HasBytes m (a / page_size) h)
]

-- What `pmm_free_pages` answers is `drift` below the number of free pages of the bitmap.
pmm_free_pages_lem :
    (drift : ℕ) (m : Pmm)
    → IsCounted drift m
    → add64 (pmm_free_pages m) drift ≡ count_free m.total_pages (bitmap_test m)
unfolding pmm_free_pages
pmm_free_pages_lem drift m c =
    omega (arith, c.counted, c.small, count_free-le m.total_pages (bitmap_test m))
