-- ===== src/Strings/Copy.antt =====
-- `kstrcpy` and `kstrlen` of include/kernel/core/string.h.
use acorn_os.Common.{
  ℕ, zero, suc, ◌+◌, ◌-◌, ◌≤◌, ◌<◌, ◌≡◌, refl, ap, ◌∙◌, sym, inl, inr, List, [], ◌∷◌, ◌++◌, arith,
  ◌==◌, ltb, length, set, take, drop, length-set, set-eq-take-drop, take-set_self, drop-set_lt,
  append_assoc, Bool-cases,
}
use acorn_os.Strings.{c_string, kstrcpy_from, kstrcpy, kstrlen}

-- The length counted by `kstrlen` is that of the text.
pub kstrlen-eq-length : (s : List ℕ) → kstrlen s ≡ length (c_string s)
unfolding kstrlen
kstrlen-eq-length [] = refl
kstrlen-eq-length (c ∷ cs) = ground (arith, kstrlen-eq-length cs)

-- What the buffer holds once the text `t` and its terminator stand at index `i`.
abbrev written_at : List ℕ → ℕ → List ℕ → List ℕ
written_at dst i t = take i dst ++ (t ++ 0 ∷ drop (i + length t + 1) dst)

terminate : (dst : List ℕ) (i : ℕ) → i < length dst → set dst i 0 ≡ written_at dst i []
terminate dst i h =
    set-eq-take-drop dst i 0 h
    ∙ ap (λ k. take i dst ++ 0 ∷ drop k dst) {x = suc i} {y = i + 0 + 1} (omega arith)

advance :
    (dst t : List ℕ) (c i : ℕ)
    → i < length dst
    → written_at (set dst i c) (i + 1) t ≡ written_at dst i (c ∷ t)
advance dst t c i h =
    ap (λ l. l ++ (t ++ 0 ∷ drop (i + 1 + length t + 1) (set dst i c))) first
    ∙ append_assoc (take i dst) (c ∷ []) _
    ∙ ap (λ l. take i dst ++ c ∷ (t ++ 0 ∷ l)) rest
  where
    first : take (i + 1) (set dst i c) ≡ take i dst ++ c ∷ []
    first =
        ap (λ k. take k (set dst i c)) {x = i + 1} {y = suc i} (omega arith)
        ∙ take-set_self dst i c h

    rest : drop (i + 1 + length t + 1) (set dst i c) ≡ drop (i + suc (length t) + 1) dst
    rest =
        drop-set_lt dst i (i + 1 + length t + 1) c (omega arith)
        ∙ ap (λ k. drop k dst) {x = i + 1 + length t + 1} {y = i + suc (length t) + 1} (omega arith)

take-zero : (n : ℕ) (xs : List ℕ) → n ≡ 0 → take n xs ≡ []
take-zero zero xs e = refl
take-zero (suc n) xs e = absurd (omega arith)

take-pos : (n c : ℕ) (xs : List ℕ) → 0 < n → take n (c ∷ xs) ≡ c ∷ take (n - 1) xs
take-pos zero c xs h = absurd (omega arith)
take-pos (suc n) c xs h = ap (λ k. c ∷ take k xs) (omega arith)

take-nil : (n : ℕ) → take {A = ℕ} n [] ≡ []
take-nil zero = refl
take-nil (suc n) = refl

kstrcpy_from_lem :
    (dst src : List ℕ) (max i : ℕ)
    → i < max
    → max ≤ length dst
    → kstrcpy_from dst src max i ≡ written_at dst i (take (max - 1 - i) (c_string src))
unfolding kstrcpy_from
kstrcpy_from_lem dst [] max i hi hm = rw take-nil (terminate dst i (omega arith))
kstrcpy_from_lem dst (c ∷ cs) max i hi hm = elim (Bool-cases (c == 0)) [
  | inl z ↦ rw (z, take-nil) (terminate dst i (omega arith))
  | inr nz ↦ rw nz (elim (Bool-cases (ltb i (max - 1))) [
    | inl more ↦ rw more (
        kstrcpy_from_lem (set dst i c) cs max (i + 1) (ground arith)
          (omega (arith, length-set dst i c))
        ∙ advance dst (take (max - 1 - (i + 1)) (c_string cs)) c i (omega arith)
        ∙ ap (written_at dst i) (
            ap (λ k. c ∷ take k (c_string cs)) {x = max - 1 - (i + 1)} {y = max - 1 - i - 1}
              (omega arith)
            ∙ sym (take-pos (max - 1 - i) c (c_string cs) (ground arith))))
    | inr full ↦ rw full (
        terminate dst i (omega arith)
        ∙ ap (written_at dst i) (sym (take-zero (max - 1 - i) (c ∷ c_string cs) (ground arith))))
  ])
]

-- Where the buffer has room for `max` bytes, `kstrcpy` puts there the first `max - 1` characters of
-- the source's text and a terminator, and leaves every later byte of the buffer as it was.
pub kstrcpy_lem :
    (dst src : List ℕ) (max : ℕ)
    → 0 < max
    → max ≤ length dst
    → let t = take (max - 1) (c_string src) in
      kstrcpy dst src max ≡ t ++ 0 ∷ drop (length t + 1) dst
unfolding kstrcpy
kstrcpy_lem dst src max hp hm =
    kstrcpy_from_lem dst src max 0 hp hm
    ∙ ap (λ n. let t = take n (c_string src) in t ++ 0 ∷ drop (0 + length t + 1) dst)
        {x = max - 1 - 0} {y = max - 1} (omega arith)
    ∙ ap (λ k. take (max - 1) (c_string src) ++ 0 ∷ drop k dst)
        {x = 0 + length (take (max - 1) (c_string src)) + 1}
        {y = length (take (max - 1) (c_string src)) + 1} (omega arith)
