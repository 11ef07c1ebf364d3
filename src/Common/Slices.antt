-- ===== src/Common/Slices.antt =====
-- How `take`, `drop` and `set` act on one another.
use Prim.Native.Nat.{ℕ, zero, suc, ◌+◌, ◌-◌, ◌≤◌, ◌<◌, min}
use mathlib.Core.Path.{◌≡◌, refl, ap, ◌∙◌, sym}
use mathlib.Core.List.{List, [], ◌∷◌, ◌++◌}
use native.Mathlib.Omega.{arith}
use acorn_os.Common.Lists.{length, set, take, drop}

module _ {ℓ} {A : Type ℓ} where
  pub set-eq-take-drop :
      (xs : List A) (i : ℕ) (v : A) → i < length xs → set xs i v ≡ take i xs ++ v ∷ drop (suc i) xs
  set-eq-take-drop [] i v h = absurd (omega arith)
  set-eq-take-drop (x ∷ xs) zero v h = refl
  set-eq-take-drop (x ∷ xs) (suc i) v h = ap (◌∷◌ x) (set-eq-take-drop xs i v (omega arith))

  pub take-set_self :
      (xs : List A) (i : ℕ) (v : A)
      → i < length xs
      → take (suc i) (set xs i v) ≡ take i xs ++ v ∷ []
  take-set_self [] i v h = absurd (omega arith)
  take-set_self (x ∷ xs) zero v h = refl
  take-set_self (x ∷ xs) (suc i) v h = ap (◌∷◌ x) (take-set_self xs i v (omega arith))

  pub drop-set_lt : (xs : List A) (i j : ℕ) (v : A) → i < j → drop j (set xs i v) ≡ drop j xs
  drop-set_lt [] i j v h = refl
  drop-set_lt (x ∷ xs) i zero v h = absurd (omega arith)
  drop-set_lt (x ∷ xs) zero (suc j) v h = refl
  drop-set_lt (x ∷ xs) (suc i) (suc j) v h = drop-set_lt xs i j v (omega arith)

  pub take-all : (n : ℕ) (xs : List A) → length xs ≤ n → take n xs ≡ xs
  take-all zero [] h = refl
  take-all zero (x ∷ xs) h = absurd (omega arith)
  take-all (suc n) [] h = refl
  take-all (suc n) (x ∷ xs) h = ap (◌∷◌ x) (take-all n xs (omega arith))

  pub drop-all : (n : ℕ) (xs : List A) → length xs ≤ n → drop n xs ≡ []
  drop-all zero [] h = refl
  drop-all zero (x ∷ xs) h = absurd (omega arith)
  drop-all (suc n) [] h = refl
  drop-all (suc n) (x ∷ xs) h = drop-all n xs (omega arith)

  pub take-append_le : (n : ℕ) (xs ys : List A) → n ≤ length xs → take n (xs ++ ys) ≡ take n xs
  take-append_le zero xs ys h = refl
  take-append_le (suc n) [] ys h = absurd (omega arith)
  take-append_le (suc n) (x ∷ xs) ys h = ap (◌∷◌ x) (take-append_le n xs ys (omega arith))

  pub take-append_ge :
      (n : ℕ) (xs ys : List A) → length xs ≤ n → take n (xs ++ ys) ≡ xs ++ take (n - length xs) ys
  take-append_ge n [] ys h = ap (λ k. take k ys) (omega arith)
  take-append_ge zero (x ∷ xs) ys h = absurd (omega arith)
  take-append_ge (suc n) (x ∷ xs) ys h =
      ap (◌∷◌ x) (take-append_ge n xs ys (omega arith))
      ∙ ap (λ k. x ∷ (xs ++ take k ys)) {x = n - length xs} {y = suc n - length (x ∷ xs)}
          (omega arith)

  pub drop-append_le :
      (n : ℕ) (xs ys : List A) → n ≤ length xs → drop n (xs ++ ys) ≡ drop n xs ++ ys
  drop-append_le zero xs ys h = refl
  drop-append_le (suc n) [] ys h = absurd (omega arith)
  drop-append_le (suc n) (x ∷ xs) ys h = drop-append_le n xs ys (omega arith)

  pub drop-append_ge :
      (n : ℕ) (xs ys : List A) → length xs ≤ n → drop n (xs ++ ys) ≡ drop (n - length xs) ys
  drop-append_ge n [] ys h = ap (λ k. drop k ys) (omega arith)
  drop-append_ge zero (x ∷ xs) ys h = absurd (omega arith)
  drop-append_ge (suc n) (x ∷ xs) ys h =
      drop-append_ge n xs ys (omega arith)
      ∙ ap (λ k. drop k ys) {x = n - length xs} {y = suc n - length (x ∷ xs)} (omega arith)

  pub take-take_le : (m n : ℕ) (xs : List A) → m ≤ n → take m (take n xs) ≡ take m xs
  take-take_le zero n xs h = refl
  take-take_le (suc m) zero xs h = absurd (omega arith)
  take-take_le (suc m) (suc n) [] h = refl
  take-take_le (suc m) (suc n) (x ∷ xs) h = ap (◌∷◌ x) (take-take_le m n xs (omega arith))

  pub take-add : (m n : ℕ) (xs : List A) → take (m + n) xs ≡ take m xs ++ take n (drop m xs)
  take-add zero n xs = ap (λ k. take k xs) (omega arith)
  take-add (suc m) n [] = cut (suc m + n) n
    where
      cut : (j k : ℕ) → take {A = A} j [] ≡ take k []
      cut zero zero = refl
      cut zero (suc k) = refl
      cut (suc j) zero = refl
      cut (suc j) (suc k) = refl
  take-add (suc m) n (x ∷ xs) =
      ap (λ k. take k (x ∷ xs)) {x = suc m + n} {y = suc (m + n)} (omega arith)
      ∙ ap (◌∷◌ x) (take-add m n xs)

  pub drop-drop : (m n : ℕ) (xs : List A) → drop n (drop m xs) ≡ drop (m + n) xs
  drop-drop zero n xs = ap (λ k. drop k xs) (omega arith)
  drop-drop (suc m) n [] = cut n (suc m + n)
    where
      cut : (j k : ℕ) → drop {A = A} j [] ≡ drop k []
      cut zero zero = refl
      cut zero (suc k) = refl
      cut (suc j) zero = refl
      cut (suc j) (suc k) = refl
  drop-drop (suc m) n (x ∷ xs) =
      drop-drop m n xs ∙ ap (λ k. drop k (x ∷ xs)) {x = suc (m + n)} {y = suc m + n} (omega arith)

  pub drop-take : (k n : ℕ) (xs : List A) → drop k (take n xs) ≡ take (n - k) (drop k xs)
  drop-take zero n xs = ap (λ j. take j xs) (omega arith)
  drop-take (suc k) zero xs =
      ap (λ j. take j (drop (suc k) xs)) {x = 0} {y = 0 - suc k} (omega arith)
  drop-take (suc k) (suc n) [] = cut (suc n - suc k)
    where
      cut : (j : ℕ) → [] ≡ take {A = A} j []
      cut zero = refl
      cut (suc j) = refl
  drop-take (suc k) (suc n) (x ∷ xs) =
      drop-take k n xs ∙ ap (λ j. take j (drop k xs)) {x = n - k} {y = suc n - suc k} (omega arith)

  pub take_of_nil : (n : ℕ) → take {A = A} n [] ≡ []
  take_of_nil zero = refl
  take_of_nil (suc n) = refl

  pub drop_of_nil : (n : ℕ) → drop {A = A} n [] ≡ []
  drop_of_nil zero = refl
  drop_of_nil (suc n) = refl

  pub take_zero : (n : ℕ) (xs : List A) → n ≡ 0 → take n xs ≡ []
  take_zero zero xs e = refl
  take_zero (suc n) xs e = absurd (omega arith)

  pub take-take : (m n : ℕ) (xs : List A) → take m (take n xs) ≡ take (min m n) xs
  take-take zero n xs = sym (take_zero (min 0 n) xs (omega arith))
  take-take (suc m) zero xs = sym (take_zero (min (suc m) 0) xs (omega arith))
  take-take (suc m) (suc n) [] = sym (take_of_nil (min (suc m) (suc n)))
  take-take (suc m) (suc n) (x ∷ xs) =
      ap (◌∷◌ x) (take-take m n xs)
      ∙ ap (λ j. take j (x ∷ xs)) {x = suc (min m n)} {y = min (suc m) (suc n)} (omega arith)
