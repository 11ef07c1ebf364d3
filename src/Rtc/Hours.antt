-- ===== src/Rtc/Hours.antt =====
-- What drivers/rtc/rtc.c makes of the registers of the clock in its modes.
use acorn_os.Rtc.{Time, from_bcd, hour_from_bcd, to_24_hours, rtc_decode}
use acorn_os.Common.{true, ℕ, ◌+◌, ◌-◌, ◌*◌, ◌/◌, ◌%◌, ◌≤◌, ◌<◌, ◌≡◌, refl, ap, ◌∙◌, arith}

-- A number below 100 in binary coded decimal.
abbrev pub to_bcd : ℕ → ℕ
to_bcd x = x / 10 * 16 + x % 10

-- The registers that a clock in 24-hour BCD mode shows at the time `t`.
abbrev registers : Time → Time
registers t = record {
  second = to_bcd t.second;
  minute = to_bcd t.minute;
  hour = to_bcd t.hour;
  day = to_bcd t.day;
  month = to_bcd t.month;
  year = to_bcd (t.year - 2000);
}

from_bcd-to_bcd : (x : ℕ) → x < 100 → from_bcd (to_bcd x) ≡ x
unfolding from_bcd
from_bcd-to_bcd x h = omega arith

-- In 24-hour BCD mode, `rtc_decode` gives the time that the registers show, of any time of the years
-- 2000 to 2099 with an hour below 24.
rtc_decode-registers :
    (t : Time)
    → t.second < 60
    → t.minute < 60
    → t.hour < 24
    → t.day < 32
    → t.month < 13
    → 2000 ≤ t.year
    → t.year < 2100
    → rtc_decode (registers t) 2 ≡ t
unfolding rtc_decode to_24_hours hour_from_bcd
rtc_decode-registers t s m h d mo lo hi =
    let hour : hour_from_bcd (to_bcd t.hour) % 128 ≡ t.hour = omega arith in
    let year : 2000 + from_bcd (to_bcd (t.year - 2000)) ≡ t.year =
      ap (◌+◌ 2000) (from_bcd-to_bcd (t.year - 2000) (omega arith)) ∙ omega arith in
    rw
      (
        from_bcd-to_bcd t.second (omega arith),
        from_bcd-to_bcd t.minute (omega arith),
        from_bcd-to_bcd t.day (omega arith),
        from_bcd-to_bcd t.month (omega arith),
        hour,
        year,
      )
      refl

-- In 12-hour mode, where a clock shows 128 more after noon, the hours from 1 to 11 become the hours of
-- the day before and after noon that they stand for, but the two hours shown as 12 are swapped:
-- midnight becomes 12, and noon 0.
pub to_24_hours_lem :
    (h : ℕ)
    → 1 ≤ h
    → h < 12
    → (to_24_hours true h ≡ h)
      × (to_24_hours true (h + 128) ≡ h + 12)
      × (to_24_hours true 12 ≡ 12)
      × (to_24_hours true (12 + 128) ≡ 0)
unfolding to_24_hours
to_24_hours_lem h l u = (ground arith, ground arith, refl, refl)
