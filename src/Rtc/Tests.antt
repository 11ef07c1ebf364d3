-- ===== src/Rtc/Tests.antt =====
-- Days around a leap day.
use acorn_os.Rtc.{days_from_civil}
use acorn_os.Rtc.Years.{days_in_month}
use acorn_os.Rtc.Calendar.{tomorrow, number, IsDate, days_from_civil_lem}
use acorn_os.Common.{suc, ◌≡◌, arith}

leap_day : IsDate 2024 2 29
unfolding days_in_month
leap_day = (omega arith, omega arith, omega arith, omega arith, omega arith)

days_from_civil_lem_example :
    (number (tomorrow 2024 2 29) ≡ suc (days_from_civil 2024 2 29)) × (days_from_civil 1970 1 1 ≡ 0)
days_from_civil_lem_example = days_from_civil_lem 2024 2 29 leap_day
