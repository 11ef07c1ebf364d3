-- ===== src/Rtc/Years.antt =====
-- The years and months that `days_from_civil` of drivers/rtc/rtc.c counts.
use acorn_os.Rtc.{days_from_civil}
use acorn_os.Common.{every, every_at}
use acorn_os.Common.{
  ℕ, zero, suc, ◌+◌, ◌-◌, ◌*◌, ◌/◌, ◌%◌, ◌≤◌, ◌<◌, ◌≡◌, refl, ap, ◌∙◌, subst, inl, inr, Bool, true,
  false, ◌&&◌, ◌||◌, not, arith, ltb, leb, ◌==◌, if◌then◌else◌, ==_iff, Bool-cases,
}

abbrev pub is_leap : ℕ → Bool
is_leap y = (y % 4 == 0) && (not (y % 100 == 0) || (y % 400 == 0))

unfoldable pub days_in_year : ℕ → ℕ
days_in_year y = if is_leap y then 366 else 365

-- The days of `n` years of an era of 400 years.
days_of_years : ℕ → ℕ
days_of_years n = n * 365 + n / 4 - n / 100

-- The days before the first of March of the year `y`, as the code counts them.
pub days_before : ℕ → ℕ
days_before y = y / 400 * 146097 + days_of_years (y - y / 400 * 400)

abbrev year_ok : ℕ → Bool
year_ok r = days_of_years (suc r) == days_of_years r + days_in_year (suc r)

year_table : every year_ok 399 ≡ true
unfolding every days_of_years days_in_year
year_table = refl

in_era : (e r : ℕ) → r < 400 → days_before (e * 400 + r) ≡ e * 146097 + days_of_years r
unfolding days_before
in_era e r h =
    let q : (e * 400 + r) / 400 ≡ e = omega arith in
    let s : e * 400 + r - e * 400 ≡ r = omega arith in
    ap (λ k. k * 146097 + days_of_years (e * 400 + r - k * 400)) q
    ∙ ap (λ k. e * 146097 + days_of_years k) s

leap_in_era : (e r : ℕ) → days_in_year (e * 400 + r) ≡ days_in_year r
unfolding days_in_year
leap_in_era e r =
    let a : (e * 400 + r) % 4 ≡ r % 4 = omega arith in
    let b : (e * 400 + r) % 100 ≡ r % 100 = omega arith in
    let c : (e * 400 + r) % 400 ≡ r % 400 = omega arith in rw (a, b, c) refl

ends : (days_of_years 0 ≡ 0) × (days_of_years 399 ≡ 145731) × (days_in_year 0 ≡ 366)
unfolding days_of_years days_in_year
ends = (refl, refl, refl)

next_in_era :
    (e r : ℕ)
    → r < 400
    → days_before (suc (e * 400 + r)) ≡ days_before (e * 400 + r) + days_in_year (suc (e * 400 + r))
next_in_era e r h = elim (Bool-cases (ltb r 399)) [
  | inl l ↦
      let k : r < 399 = ground arith in
      let step =
        (==_iff (days_of_years (suc r)) (days_of_years r + days_in_year (suc r))).0
          (every_at year_ok 399 r k year_table) in
      let up : suc (e * 400 + r) ≡ e * 400 + suc r = omega arith in
      let later = ap days_before up ∙ in_era e (suc r) (omega arith) in
      let now = in_era e r h in
      let leap = ap days_in_year up ∙ leap_in_era e (suc r) in omega (arith, later, now, step, leap)
  | inr l ↦
      let k : r ≡ 399 = ground arith in
      let up : suc (e * 400 + r) ≡ suc e * 400 + 0 = omega arith in
      let later = ap days_before up ∙ in_era (suc e) 0 (omega arith) in
      let now = in_era e r h ∙ ap (λ i. e * 146097 + days_of_years i) k in
      let leap = ap days_in_year up ∙ leap_in_era (suc e) 0 in
      omega (arith, later, now, leap, ends.0, ends.1, ends.2)
]

pub next_year : (y : ℕ) → days_before (suc y) ≡ days_before y + days_in_year (suc y)
next_year y =
    let split : y / 400 * 400 + y % 400 ≡ y = omega arith in
    subst (λ z. days_before (suc z) ≡ days_before z + days_in_year (suc z)) split
      (next_in_era (y / 400) (y % 400) (omega arith))

-- The days from the first of March to the first of the month `m`.
unfoldable pub day_of_year : ℕ → ℕ
day_of_year m = (153 * (if ltb 2 m then m - 3 else m + 9) + 2) / 5

-- The days of a month of the Gregorian calendar.
unfoldable pub days_in_month : ℕ → ℕ → ℕ
days_in_month y m =
    if m == 2
    then (if is_leap y then 29 else 28)
    else if m == 4 || m == 6 || m == 9 || m == 11
    then 30
    else 31

pub after_february :
    (y m d : ℕ)
    → 2 < m
    → 1 ≤ d
    → days_from_civil y m d ≡ days_before y + (day_of_year m + d - 1) - 719468
unfolding days_from_civil days_before days_of_years day_of_year
after_february y m d h k = let a : leb m 2 ≡ false = ground arith in rw a (omega arith)

pub before_march :
    (y m d : ℕ)
    → m ≤ 2
    → 1 ≤ d
    → days_from_civil y m d ≡ days_before (y - 1) + (day_of_year m + d - 1) - 719468
unfolding days_from_civil days_before days_of_years day_of_year
before_march y m d h k = let a : leb m 2 ≡ true = ground arith in rw a (omega arith)

pub short_year : (y : ℕ) → 365 ≤ days_in_year y
unfolding days_in_year
short_year y = ground arith

epoch : days_before 1969 ≡ 719162
unfolding days_before days_of_years
epoch = refl

since : (k : ℕ) → 719162 + 365 * k ≤ days_before (k + 1969)
since zero = omega (arith, epoch)
since (suc k) =
    let same : days_before (suc k + 1969) ≡ days_before (suc (k + 1969)) =
      ap days_before {x = suc k + 1969} {y = suc (k + 1969)} (omega arith) in
    omega (arith, since k, same, next_year (k + 1969), short_year (suc (k + 1969)))

pub after_epoch : (y : ℕ) → 1969 ≤ y → 719162 + 365 * (y - 1969) ≤ days_before y
after_epoch y h =
    let e : y - 1969 + 1969 ≡ y = omega arith in
    subst (λ z. 719162 + 365 * (y - 1969) ≤ days_before z) e (since (y - 1969))
