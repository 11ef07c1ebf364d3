-- ===== src/Rtc.antt =====
-- drivers/rtc/rtc.c: the decoding of the clock's registers, and the count of days.
-- What a stable reading of the CMOS registers gives is an argument.
mod Tests
pub mod Hours
pub mod Years
pub mod Calendar
use acorn_os.Common.{
  ℕ, zero, suc, ◌+◌, ◌-◌, ◌*◌, ◌/◌, ◌%◌, ◌^◌, ◌≤◌, ◌<◌, min, ◌≡◌, refl, sym, ap, ap₂, ◌∙◌, subst,
  ◌≢◌, ◌↔◌, ◌⊎◌, inl, inr, Bool, true, false, ◌&&◌, ◌||◌, not, Option, none, some, List, [], ◌∷◌,
  ◌++◌, map, append-nil, append_assoc, arith, ltb, leb, ◌==◌, if◌then◌else◌, ltb→lt, lt→ltb, leb→le,
  ==_iff, ==_refl, Bool-cases, Option-cases, length, get_elem?, get_or, set, take, drop, replicate,
  length-append, length-set, length-take, length-drop, length-replicate, take-append-drop,
  length-map, add32, sub32, add64, sub64, update,
}

-- `rtc_time_t`, and a raw reading, whose year has two digits
pub record Time : Type 0 where
  pub second : ℕ
  pub minute : ℕ
  pub hour : ℕ
  pub day : ℕ
  pub month : ℕ
  pub year : ℕ

-- (x & 0x0F) + ((x / 16) * 10), of bytes
unfoldable pub from_bcd : ℕ → ℕ
from_bcd x = x % 16 + x / 16 * 10

-- The flag of an hour, `hour & 0x80`
abbrev pub pm_flag : ℕ → ℕ
pm_flag hour = hour / 128 % 2 * 128

-- ((hour & 0x0F) + (((hour & 0x70) / 16) * 10)) | pm_flag
unfoldable pub hour_from_bcd : ℕ → ℕ
hour_from_bcd hour = hour % 16 + hour / 16 % 8 * 10 + pm_flag hour

-- The conversion from 12 hours, where `twelve` is !(status_b & 0x02)
unfoldable pub to_24_hours : Bool → ℕ → ℕ
to_24_hours twelve hour =
    if twelve && not (pm_flag hour == 0) then (hour % 128 + 12) % 24 else hour % 128

-- `rtc_read` from a stable reading on, with Status Register B
unfoldable pub rtc_decode : Time → ℕ → Time
rtc_decode raw status_b =
    let bcd = status_b / 4 % 2 == 0 in
    let twelve = status_b / 2 % 2 == 0 in
    record {
      second = if bcd then from_bcd raw.second else raw.second;
      minute = if bcd then from_bcd raw.minute else raw.minute;
      hour = to_24_hours twelve (if bcd then hour_from_bcd raw.hour else raw.hour);
      day = if bcd then from_bcd raw.day else raw.day;
      month = if bcd then from_bcd raw.month else raw.month;
      year = 2000 + (if bcd then from_bcd raw.year else raw.year);
    }

-- `days_from_civil`, of a year that is not negative. The result stops at 0 where the C result is
-- negative, before 1970.
unfoldable pub days_from_civil : ℕ → ℕ → ℕ → ℕ
days_from_civil year month day =
    let y = if leb month 2 then year - 1 else year in
    let era = y / 400 in
    let year_of_era = y - era * 400 in
    let day_of_year = (153 * (if ltb 2 month then month - 3 else month + 9) + 2) / 5 + day - 1 in
    let day_of_era = year_of_era * 365 + year_of_era / 4 - year_of_era / 100 + day_of_year in
    era * 146097 + day_of_era - 719468

unfoldable pub rtc_now_epoch : Time → ℕ
rtc_now_epoch t =
    days_from_civil t.year t.month t.day * 86400 + t.hour * 3600 + t.minute * 60 + t.second
