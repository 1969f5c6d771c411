-- ===== src/Time.antt =====
-- lib/libc/time.c: seconds since 1970 and calendar fields. Times and fields are natural numbers: what
-- the functions do with a negative one is left out, as is the pointer test. The arithmetic is exact,
-- for its overflow is undefined; `(int)t` of the days is `t` below 2^31 days.
pub mod Loops
pub mod Trip
pub mod Weekday
mod Tests
use mathlib.Core.Option
use grace_os.Prelude.{
  ℕ, zero, suc, ◌+◌, ◌-◌, ◌*◌, ◌/◌, ◌%◌, Bool, ◌&&◌, ◌||◌, not, Option, none, some, List, [], ◌∷◌,
  map, ltb, leb, ◌==◌, if◌then◌else◌, get_or,
}

-- `struct tm`
pub record Tm : Type 0 where
  pub tm_sec : ℕ
  pub tm_min : ℕ
  pub tm_hour : ℕ
  pub tm_mday : ℕ
  pub tm_mon : ℕ
  pub tm_year : ℕ
  pub tm_wday : ℕ
  pub tm_yday : ℕ
  pub tm_isdst : ℕ

abbrev pub month_days : List ℕ
month_days = 31 ∷ 28 ∷ 31 ∷ 30 ∷ 31 ∷ 30 ∷ 31 ∷ 31 ∷ 30 ∷ 31 ∷ 30 ∷ 31 ∷ []

unfoldable pub is_leap_year : ℕ → Bool
is_leap_year year = year % 4 == 0 && not (year % 100 == 0) || year % 400 == 0

unfoldable pub days_in_month : ℕ → ℕ → ℕ
days_in_month month year =
    if ltb 11 month
    then 0
    else if month == 1 && is_leap_year year
    then 29
    else get_or month_days month 0

-- The remainder in C has the sign of the dividend.
unfoldable pub day_of_week : ℕ → ℕ → ℕ → ℕ
day_of_week year month day =
    let m = if ltb month 3 then month + 12 else month in
    let y = if ltb month 3 then year - 1 else year in
    let k = y % 100 in
    let j = y / 100 in
    let x = day + 13 * (m + 1) / 5 + k + k / 4 + j / 4 in
    if leb (2 * j) x then ((x - 2 * j) % 7 + 6) % 7 else (6 - (2 * j - x) % 7) % 7

-- `is_leap_year(year) ? 366 : 365`
abbrev pub year_days : ℕ → ℕ
year_days year = if is_leap_year year then 366 else 365

-- The loop of `gmtime_r` over the years, on fuel.
unfoldable pub find_year : ℕ → ℕ → ℕ → Option (ℕ × ℕ)
find_year zero year days = none
find_year (suc n) year days =
    let later = find_year n (year + 1) (days - year_days year) in
    if ltb days (year_days year) then some (year, days) else later

-- The loop of `gmtime_r` over the `n` months from `month` on.
unfoldable pub find_month : ℕ → ℕ → ℕ → ℕ → ℕ × ℕ
find_month zero month year days = (month, days)
find_month (suc n) month year days =
    let later = find_month n (month + 1) year (days - days_in_month month year) in
    if ltb days (days_in_month month year) then (month, days) else later

unfoldable pub gmtime_r : ℕ → Option Tm
gmtime_r t =
    let days = t / 60 / 60 / 24 in
    Option.map
      (λ r.
        let (month, rest) = find_month 12 0 r.0 r.1 in
        record {
          tm_sec = t % 60;
          tm_min = t / 60 % 60;
          tm_hour = t / 60 / 60 % 24;
          tm_mday = rest + 1;
          tm_mon = month;
          tm_year = r.0 - 1900;
          tm_wday = (days + 4) % 7;
          tm_yday = r.1;
          tm_isdst = 0;
        })
      (find_year (days + 1) 1970 days)

-- The profile's offset in seconds, not negative.
unfoldable pub localtime_r : ℕ → ℕ → Option Tm
localtime_r profile_offset t = gmtime_r (t + profile_offset)

-- The loops of `mktime`: the days of `n` years or months from one on.
unfoldable pub year_sum : ℕ → ℕ → ℕ
year_sum zero year = 0
year_sum (suc n) year = year_days year + year_sum n (year + 1)

unfoldable pub month_sum : ℕ → ℕ → ℕ → ℕ
month_sum zero month year = 0
month_sum (suc n) month year = days_in_month month year + month_sum n (month + 1) year

-- The seconds, and the fields with the day of the week and of the year set; for `tm_mday` from 1.
unfoldable pub mktime : Tm → ℕ × Tm
mktime tm =
    let year = tm.tm_year + 1900 in
    let of_month = month_sum tm.tm_mon 0 year in
    let days = year_sum (year - 1970) 1970 + of_month + (tm.tm_mday - 1) in
    (
      days * 86400 + tm.tm_hour * 3600 + tm.tm_min * 60 + tm.tm_sec,
      record tm {
        tm_wday = day_of_week year (tm.tm_mon + 1) tm.tm_mday;
        tm_yday = of_month + (tm.tm_mday - 1);
      },
    )
