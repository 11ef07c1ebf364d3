-- ===== src/Kprintf/Digits.antt =====
-- The numbers of kernel/core/kprintf.c read back from their text.
use acorn_os.Kprintf.{
  last_digits, reversed, dec_of, uint_to_dec, uint64_to_dec, hex_digits, hex_loop, uint_to_hex,
  uint64_to_hex, int_to_dec,
}
use acorn_os.Common.{
  every, every_at, ℕ, zero, suc, ◌+◌, ◌-◌, ◌*◌, ◌/◌, ◌%◌, ◌^◌, ◌≤◌, ◌<◌, ◌≡◌, refl, sym, ap, ◌∙◌,
  subst, ◌⊎◌, inl, inr, Bool, true, ◌&&◌, List, [], ◌∷◌, ◌++◌, arith, ltb, leb, ◌==◌, if◌then◌else◌,
  ==_iff, Bool-cases, length, get_or, length-append, sub32,
}

-- The number that a text of decimal digits stands for, after `acc`.
unfoldable pub read_dec : ℕ → List ℕ → ℕ
read_dec acc [] = acc
read_dec acc (c ∷ cs) = read_dec (acc * 10 + (c - 48)) cs

unfoldable pub all_digits : List ℕ → Bool
all_digits [] = true
all_digits (c ∷ cs) = leb 48 c && ltb c 58 && all_digits cs

-- The decimal text of `n`: digits only, no leading zero, and read back they give `n`.
abbrev pub IsDecimal : List ℕ → ℕ → Type 0
IsDecimal text n =
    (read_dec 0 text ≡ n)
    × (all_digits text ≡ true)
    × (0 < length text)
    × (1 < length text → 48 < get_or text 0 0)

read_dec-append :
    (acc : ℕ) (xs ys : List ℕ) → read_dec acc (xs ++ ys) ≡ read_dec (read_dec acc xs) ys
unfolding read_dec
read_dec-append acc [] ys = refl
read_dec-append acc (x ∷ xs) ys = read_dec-append (acc * 10 + (x - 48)) xs ys

all_digits-append :
    (xs ys : List ℕ) → all_digits xs ≡ true → all_digits ys ≡ true → all_digits (xs ++ ys) ≡ true
unfolding all_digits
all_digits-append [] ys h k = k
all_digits-append (x ∷ xs) ys h k = ground (arith, all_digits-append xs ys)

length-reversed : (tmp : List ℕ) (len : ℕ) → length (reversed tmp len) ≡ len
unfolding reversed
length-reversed tmp zero = refl
length-reversed tmp (suc len) = ap suc (length-reversed tmp len)

reversed_cons :
    (d : ℕ) (tmp : List ℕ) (len : ℕ) → reversed (d ∷ tmp) (suc len) ≡ reversed tmp len ++ d ∷ []
unfolding reversed
reversed_cons d tmp zero = refl
reversed_cons d tmp (suc len) = ap (◌∷◌ (get_or tmp len 0)) (reversed_cons d tmp len)

last_digits_of_zero : (fuel : ℕ) → last_digits fuel 0 ≡ []
unfolding last_digits
last_digits_of_zero zero = refl
last_digits_of_zero (suc fuel) = refl

last_digits_step :
    (fuel n : ℕ) → 0 < n → last_digits (suc fuel) n ≡ (48 + n % 10) ∷ last_digits fuel (n / 10)
unfolding last_digits
last_digits_step fuel n h = ground arith

dec_of-last_digits :
    (fuel n : ℕ)
    → 0 < n
    → dec_of (last_digits (suc fuel) n) ≡ dec_of (last_digits fuel (n / 10)) ++ (48 + n % 10) ∷ []
dec_of-last_digits fuel n h =
    ap dec_of (last_digits_step fuel n h)
    ∙ reversed_cons (48 + n % 10) (last_digits fuel (n / 10)) (length (last_digits fuel (n / 10)))

last_digits_of_none : (n : ℕ) → last_digits 0 n ≡ []
unfolding last_digits
last_digits_of_none n = refl

zero_or_pos : (n : ℕ) → (n ≡ 0) ⊎ (0 < n)
zero_or_pos zero = inl refl
zero_or_pos (suc n) = inr (omega arith)

last_digits_if_zero : (fuel n : ℕ) → n ≡ 0 → last_digits fuel n ≡ []
last_digits_if_zero fuel n e = ap (last_digits fuel) e ∙ last_digits_of_zero fuel

length-last_digits : (fuel k n : ℕ) → n < 10 ^ k → length (last_digits fuel n) ≤ k
length-last_digits zero k n h = let e = ap length (last_digits_of_none n) in omega arith
length-last_digits (suc fuel) zero n h =
    let e = ap length (last_digits_if_zero (suc fuel) n (omega arith)) in omega arith
length-last_digits (suc fuel) (suc k) n h = elim (zero_or_pos n) [
  | inl e ↦ let e' = ap length (last_digits_if_zero (suc fuel) n e) in omega arith
  | inr l ↦
      let e = ap length (last_digits_step fuel n l) in
      let i = length-last_digits fuel k (n / 10) (omega arith) in omega arith
]

-- Reads back, digits only.
digits_lem :
    (fuel n : ℕ)
    → n < 10 ^ fuel
    → (read_dec 0 (dec_of (last_digits fuel n)) ≡ n)
      × (all_digits (dec_of (last_digits fuel n)) ≡ true)
unfolding last_digits reversed read_dec all_digits
digits_lem zero n h = (omega arith, refl)
digits_lem (suc fuel) n h = elim (zero_or_pos n) [
  | inl e ↦ rw (last_digits_if_zero (suc fuel) n e) (sym e, refl)
  | inr l ↦
      let (r, d) = digits_lem fuel (n / 10) (omega arith) in
      rw (dec_of-last_digits fuel n l, read_dec-append, r)
        (
          omega arith,
          all_digits-append (dec_of (last_digits fuel (n / 10))) ((48 + n % 10) ∷ []) d
              (ground arith),
        )
]

get_or-append : (xs ys : List ℕ) (i : ℕ) → i < length xs → get_or (xs ++ ys) i 0 ≡ get_or xs i 0
get_or-append [] ys i h = absurd (omega arith)
get_or-append (x ∷ xs) ys zero h = refl
get_or-append (x ∷ xs) ys (suc i) h = get_or-append xs ys i (omega arith)

-- There is a digit, and the first is not 0.
leading_lem :
    (fuel n : ℕ)
    → n < 10 ^ fuel
    → 0 < n
    → (0 < length (dec_of (last_digits fuel n))) × (48 < get_or (dec_of (last_digits fuel n)) 0 0)
unfolding reversed
leading_lem zero n h l = absurd (omega arith)
leading_lem (suc fuel) n h l = elim (zero_or_pos (n / 10)) [
  | inl e ↦
      rw (dec_of-last_digits fuel n l, last_digits_if_zero fuel (n / 10) e)
        (omega arith, omega arith)
  | inr m ↦
      let (some_digit, first) = leading_lem fuel (n / 10) (omega arith) m in
      let front = dec_of (last_digits fuel (n / 10)) in
      rw (dec_of-last_digits fuel n l) (
        omega (arith, length-append front ((48 + n % 10) ∷ [])),
        rw (get_or-append front ((48 + n % 10) ∷ []) 0 some_digit) first,
      )
]

IsDecimal-dec_of : (fuel n : ℕ) → n < 10 ^ fuel → 0 < n → IsDecimal (dec_of (last_digits fuel n)) n
IsDecimal-dec_of fuel n h l =
    let (reads, digits) = digits_lem fuel n h in
    let (some_digit, first) = leading_lem fuel n h l in (reads, digits, some_digit, λ _. first)

length-dec_of : (fuel k n : ℕ) → n < 10 ^ k → length (dec_of (last_digits fuel n)) ≤ k
length-dec_of fuel k n h =
    let e = length-reversed (last_digits fuel n) (length (last_digits fuel n)) in
    omega (arith, length-last_digits fuel k n h)

to_dec_lem :
    (fuel k n : ℕ)
    → n < 10 ^ fuel
    → n < 10 ^ k
    → 0 < k
    → IsDecimal (if n == 0 then 48 ∷ [] else dec_of (last_digits fuel n)) n
      × (length (if n == 0 then 48 ∷ [] else dec_of (last_digits fuel n)) ≤ k)
unfolding read_dec all_digits
to_dec_lem fuel k n h small pos = elim (Bool-cases (n == 0)) [
  | inl e ↦ rw e ((ground arith, refl, omega arith, λ l. absurd (omega arith)), omega arith)
  | inr e ↦ rw e (IsDecimal-dec_of fuel n h (ground arith), length-dec_of fuel k n small)
]

-- The text of a 32-bit number is its decimal one, and its ten digits at most fit `tmp[10]`.
pub uint_to_dec_lem :
    (n : ℕ) → n < 2 ^ 32 → IsDecimal (uint_to_dec n) n × (length (uint_to_dec n) ≤ 10)
unfolding uint_to_dec
uint_to_dec_lem n h = to_dec_lem 32 10 n (omega arith) (omega arith) (omega arith)

-- The text of a 64-bit number is its decimal one, and its twenty digits at most fit `tmp[20]`.
pub uint64_to_dec_lem :
    (n : ℕ) → n < 2 ^ 64 → IsDecimal (uint64_to_dec n) n × (length (uint64_to_dec n) ≤ 20)
unfolding uint64_to_dec
uint64_to_dec_lem n h = to_dec_lem 64 20 n (omega arith) (omega arith) (omega arith)

abbrev pub nibble : ℕ → ℕ
nibble c = if ltb c 58 then c - 48 else c - 55

-- The number that a text of hexadecimal digits stands for, after `acc`.
unfoldable pub read_hex : ℕ → List ℕ → ℕ
read_hex acc [] = acc
read_hex acc (c ∷ cs) = read_hex (acc * 16 + nibble c) cs

nibble-hex_digits : (d : ℕ) → d < 16 → nibble (get_or hex_digits d 0) ≡ d
unfolding every
nibble-hex_digits d h =
    (==_iff (nibble (get_or hex_digits d 0)) d).0
      (every_at (λ d. nibble (get_or hex_digits d 0) == d) 16 d h refl)

read_hex-hex_loop :
    (i n : ℕ) (written : List ℕ)
    → n < 16 ^ i
    → read_hex 0 (hex_loop i n written) ≡ read_hex n written
unfolding hex_loop read_hex
read_hex-hex_loop zero n written h = ap (λ m. read_hex m written) {x = 0} {y = n} (omega arith)
read_hex-hex_loop (suc i) n written h =
    read_hex-hex_loop i (n / 16) (get_or hex_digits (n % 16) 0 ∷ written) (omega arith)
    ∙ ap (λ m. read_hex m written) {x = n / 16 * 16 + nibble (get_or hex_digits (n % 16) 0)} {y = n}
        (omega (arith, nibble-hex_digits (n % 16) (omega arith)))

length-hex_loop : (i n : ℕ) (written : List ℕ) → length (hex_loop i n written) ≡ i + length written
unfolding hex_loop
length-hex_loop zero n written = omega arith
length-hex_loop (suc i) n written =
    omega (arith, length-hex_loop i (n / 16) (get_or hex_digits (n % 16) 0 ∷ written))

-- The hexadecimal texts have 8 and 16 digits and stand for the number.
pub uint_to_hex_lem :
    (n m : ℕ)
    → n < 2 ^ 32
    → m < 2 ^ 64
    → (length (uint_to_hex n) ≡ 8)
      × (read_hex 0 (uint_to_hex n) ≡ n)
      × (length (uint64_to_hex m) ≡ 16)
      × (read_hex 0 (uint64_to_hex m) ≡ m)
unfolding read_hex
uint_to_hex_lem n m h k = (
  length-hex_loop 8 n [],
  read_hex-hex_loop 8 n [] (omega arith),
  length-hex_loop 16 m [],
  read_hex-hex_loop 16 m [] (omega arith),
)

-- Of a negative number the text is a minus and the decimal text of its amount, which also holds of
-- the least number: its amount is `2 ^ 31`.
pub int_to_dec_lem :
    (n : ℕ)
    → n < 2 ^ 32
    → (n < 2 ^ 31 → IsDecimal (int_to_dec n) n)
      × (2 ^ 31 ≤ n → (text : List ℕ) × (int_to_dec n ≡ 45 ∷ text) × IsDecimal text (2 ^ 32 - n))
      × (length (int_to_dec n) ≤ 11)
unfolding int_to_dec
int_to_dec_lem n h = elim (Bool-cases (leb (2 ^ 31) n)) [
  | inl e ↦
      let (good, fits) = uint_to_dec_lem (sub32 0 n) (omega arith) in
      rw e (
        λ l. absurd (ground arith),
        λ _. (
          uint_to_dec (sub32 0 n),
          refl,
          subst (IsDecimal (uint_to_dec (sub32 0 n))) {x = sub32 0 n} {y = 2 ^ 32 - n}
              (ground arith) good,
        ),
        omega arith,
      )
  | inr e ↦
      let (good, fits) = uint_to_dec_lem n h in
      rw e (λ _. good, λ l. absurd (ground arith), omega arith)
]
