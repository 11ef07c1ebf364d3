-- ===== src/Rtc/Calendar.antt =====
-- `days_from_civil` of drivers/rtc/rtc.c against the dates of the Gregorian calendar.
use acorn_os.Rtc.{days_from_civil}
use acorn_os.Rtc.Years.{
  is_leap, days_in_year, days_before, day_of_year, days_in_month, next_year, after_february,
  before_march, short_year, after_epoch,
}
use acorn_os.Common.{every, every_at}
use acorn_os.Common.{
  ℕ, zero, suc, ◌+◌, ◌-◌, ◌≤◌, ◌<◌, ◌≡◌, refl, sym, ap, ◌∙◌, inl, inr, Bool, true, false, ◌||◌,
  arith, ltb, leb, ◌==◌, if◌then◌else◌, ltb→lt, ==_iff, Bool-cases,
}

february_lem : (y : ℕ) → 337 + days_in_month y 2 ≡ days_in_year y
unfolding days_in_month days_in_year
february_lem y = elim (Bool-cases (is_leap y)) [ inl e ↦ rw e refl | inr e ↦ rw e refl ]

month_ok : ℕ → Bool
month_ok m = leb m 2 || (day_of_year (suc m) == day_of_year m + days_in_month 0 m)

month_table : every month_ok 12 ≡ true
unfolding every month_ok day_of_year days_in_month
month_table = refl

other_month : (y m : ℕ) → (m == 2) ≡ false → days_in_month y m ≡ days_in_month 0 m
unfolding days_in_month
other_month y m e = rw e refl

later_month : (y m : ℕ) → 2 < m → m < 12 → day_of_year (suc m) ≡ day_of_year m + days_in_month y m
unfolding month_ok
later_month y m h l =
    let ok = every_at month_ok 12 m l month_table in
    let late : leb m 2 ≡ false = ground arith in
    let same = other_month y m (ground arith) in
    let eq : (day_of_year (suc m) == day_of_year m + days_in_month 0 m) ≡ true = ground arith in
    (==_iff (day_of_year (suc m)) (day_of_year m + days_in_month 0 m)).0 eq
    ∙ ap (λ k. day_of_year m + k) (sym same)

months :
    (day_of_year 1 ≡ 306) × (day_of_year 2 ≡ 337) × (day_of_year 3 ≡ 0) × (day_of_year 12 ≡ 275)
unfolding day_of_year
months = (refl, refl, refl, refl)

lengths : (y : ℕ) → (days_in_month y 1 ≡ 31) × (days_in_month y 12 ≡ 31)
unfolding days_in_month
lengths y = (refl, refl)

-- The date after.
abbrev pub tomorrow : ℕ → ℕ → ℕ → ℕ × ℕ × ℕ
tomorrow y m d =
    if ltb d (days_in_month y m)
    then (y, m, d + 1)
    else if ltb m 12
    then (y, m + 1, 1)
    else (y + 1, 1, 1)

abbrev pub number : ℕ × ℕ × ℕ → ℕ
number (y, m, d) = days_from_civil y m d

early_months : (m : ℕ) → 1 ≤ m → m ≤ 2 → 306 ≤ day_of_year m
unfolding day_of_year
early_months m h l = ground arith

within :
    (y m d : ℕ)
    → 1970 ≤ y
    → 1 ≤ m
    → 1 ≤ d
    → days_from_civil y m (d + 1) ≡ suc (days_from_civil y m d)
within y m d h m1 k = elim (Bool-cases (leb m 2)) [
  | inl e ↦
      let low : m ≤ 2 = ground arith in
      omega (
        arith,
        before_march y m d low k,
        before_march y m (d + 1) low (omega arith),
        after_epoch (y - 1) (omega arith),
        early_months m m1 low,
      )
  | inr e ↦ omega (
    arith,
    after_february y m d (ground arith) k,
    after_february y m (d + 1) (ground arith) (omega arith),
    after_epoch y (omega arith),
  )
]

march : (y : ℕ) → 1970 ≤ y → days_from_civil y 3 1 ≡ suc (days_from_civil y 2 (days_in_month y 2))
march y h =
    let some_days = short_year y in
    let length = february_lem y in
    let a = after_february y 3 1 (omega arith) (omega arith) in
    let b = before_march y 2 (days_in_month y 2) (omega arith) (omega arith) in
    let same : days_before (suc (y - 1)) ≡ days_before y = ap days_before (omega arith) in
    let leap : days_in_year (suc (y - 1)) ≡ days_in_year y = ap days_in_year (omega arith) in
    omega (
      arith,
      a,
      b,
      same,
      leap,
      length,
      some_days,
      next_year (y - 1),
      after_epoch (y - 1) (omega arith),
      months.1,
      months.2,
    )

long_month : (y m : ℕ) → 1 ≤ days_in_month y m
unfolding days_in_month
long_month y m = ground arith

month_end :
    (y m : ℕ)
    → 1970 ≤ y
    → 1 ≤ m
    → m < 12
    → days_from_civil y (m + 1) 1 ≡ suc (days_from_civil y m (days_in_month y m))
month_end y zero h l u = absurd (omega arith)
month_end y (suc zero) h l u =
    let len = (lengths y).0 in
    let a = before_march y 1 (days_in_month y 1) (omega arith) (omega arith) in
    let b = before_march y 2 1 (omega arith) (omega arith) in
    omega (arith, a, b, len, after_epoch (y - 1) (omega arith), months.0, months.1)
month_end y (suc (suc zero)) h l u = march y h
month_end y (suc (suc (suc n))) h l u =
    let m = suc (suc (suc n)) in
    let len = long_month y m in
    let a = after_february y m (days_in_month y m) (omega arith) (omega arith) in
    let b = after_february y (m + 1) 1 (omega arith) (omega arith) in
    let same : day_of_year (m + 1) ≡ day_of_year (suc m) =
      ap day_of_year {x = m + 1} {y = suc m} (omega arith) in
    omega (arith, a, b, same, len, later_month y m (omega arith) u, after_epoch y (omega arith))

year_end :
    (y : ℕ)
    → 1970 ≤ y
    → days_from_civil (y + 1) 1 1 ≡ suc (days_from_civil y 12 (days_in_month y 12))
year_end y h =
    let len = (lengths y).1 in
    let a = after_february y 12 (days_in_month y 12) (omega arith) (omega arith) in
    let b = before_march (y + 1) 1 1 (omega arith) (omega arith) in
    let same : days_before (y + 1 - 1) ≡ days_before y = ap days_before (omega arith) in
    omega (arith, a, b, same, len, after_epoch y (omega arith), months.0, months.3)

abbrev pub IsDate : ℕ → ℕ → ℕ → Type 0
IsDate y m d = (1970 ≤ y) × (1 ≤ m) × (m ≤ 12) × (1 ≤ d) × (d ≤ days_in_month y m)

day_after :
    (y m d : ℕ)
    → 1970 ≤ y
    → 1 ≤ m
    → m ≤ 12
    → 1 ≤ d
    → d ≤ days_in_month y m
    → number (tomorrow y m d) ≡ suc (days_from_civil y m d)
day_after y m d h l u k e = elim (Bool-cases (ltb d (days_in_month y m))) [
  | inl a ↦ rw a (within y m d h l k)
  | inr a ↦
      let last : d ≡ days_in_month y m = ground arith in
      elim (Bool-cases (ltb m 12)) [
        | inl b ↦
            rw (a, b)
              (month_end y m h l (ltb→lt m 12 b) ∙ ap (λ i. suc (days_from_civil y m i)) (sym last))
        | inr b ↦
            let december : m ≡ 12 = ground arith in
            rw (a, b)
              (year_end y h
                ∙ ap (λ n. suc (days_from_civil y n (days_in_month y n))) (sym december)
                ∙ ap (λ i. suc (days_from_civil y m i)) (sym last))
      ]
]

epoch_day : days_from_civil 1970 1 1 ≡ 0
unfolding days_from_civil
epoch_day = refl

-- From 1970 on, `days_from_civil` of the date after a date of the Gregorian calendar is one more than
-- `days_from_civil` of the date, and of 1970-01-01 it is 0: it is the number of days between.
pub days_from_civil_lem :
    (y m d : ℕ)
    → IsDate y m d
    → (number (tomorrow y m d) ≡ suc (days_from_civil y m d)) × (days_from_civil 1970 1 1 ≡ 0)
days_from_civil_lem y m d (h, l, u, k, e) = (day_after y m d h l u k e, epoch_day)
