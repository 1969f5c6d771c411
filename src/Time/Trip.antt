-- ===== src/Time/Trip.antt =====
-- lib/libc/time.c: from seconds to fields and back.
use grace_os.Time.{
  Tm, days_in_month, year_days, find_year, find_month, gmtime_r, year_sum, month_sum, mktime,
  day_of_week,
}
use grace_os.Time.Weekday.{day_of_week_lem}
use grace_os.Time.Loops.{
  year_sum-long, find_year_lem, find_year-sum, first_months, first_months-sum, month_sum-bound,
}
use grace_os.Prelude.{
  ℕ, ◌+◌, ◌-◌, ◌*◌, ◌/◌, ◌%◌, ◌^◌, ◌≤◌, ◌<◌, ◌≡◌, refl, sym, ap, ◌∙◌, subst, some, arith,
}

-- The fields of a time since 1970, without the days of the week and of the year.
pub record IsCalendar (tm : Tm) : Type 0 where
  pub year : 70 ≤ tm.tm_year
  pub month : tm.tm_mon < 12
  pub day : (1 ≤ tm.tm_mday) × (tm.tm_mday ≤ days_in_month tm.tm_mon (tm.tm_year + 1900))
  pub hour : tm.tm_hour < 24
  pub minute : tm.tm_min < 60
  pub second : tm.tm_sec < 60

abbrev DayOfYear : Tm → Type 0
DayOfYear tm = tm.tm_yday ≡ month_sum tm.tm_mon 0 (tm.tm_year + 1900) + (tm.tm_mday - 1)

-- What `gmtime_r` builds from the results of its loops.
abbrev pub fields : ℕ → ℕ → ℕ → ℕ → ℕ → Tm
fields t i yday month rest = record {
  tm_sec = t % 60;
  tm_min = t / 60 % 60;
  tm_hour = t / 60 / 60 % 24;
  tm_mday = rest + 1;
  tm_mon = month;
  tm_year = 1970 + i - 1900;
  tm_wday = (t / 60 / 60 / 24 + 4) % 7;
  tm_yday = yday;
  tm_isdst = 0;
}

gmtime_r-fields :
    (t i yday month rest : ℕ)
    → find_year (t / 60 / 60 / 24 + 1) 1970 (t / 60 / 60 / 24) ≡ some (1970 + i, yday)
    → find_month 12 0 (1970 + i) yday ≡ (month, rest)
    → gmtime_r t ≡ some (fields t i yday month rest)
unfolding gmtime_r
gmtime_r-fields t i yday month rest y m = rw (y, m) refl

fields-IsCalendar :
    (t i yday month rest : ℕ)
    → month < 12
    → rest < days_in_month month (1970 + i)
    → IsCalendar (fields t i yday month rest)
fields-IsCalendar t i yday month rest less small =
    let back : 1970 + i - 1900 + 1900 ≡ 1970 + i = omega arith in
    record {
      year = omega arith;
      month = less;
      day = (omega arith, ground (arith, small, back));
      hour = omega arith;
      minute = omega arith;
      second = omega arith;
    }

mktime-fields :
    (t i yday month rest : ℕ)
    → t / 60 / 60 / 24 ≡ year_sum i 1970 + yday
    → yday ≡ month_sum month 0 (1970 + i) + rest
    → month < 12
    → mktime (fields t i yday month rest) ≡ (t, fields t i yday month rest)
unfolding mktime
mktime-fields t i yday month rest split parts less =
    let back : 1970 + i - 1900 + 1900 ≡ 1970 + i = omega arith in
    let count : 1970 + i - 1970 ≡ i = omega arith in
    let day : rest + 1 - 1 ≡ rest = omega arith in
    let weekday : day_of_week (1970 + i) (month + 1) (rest + 1) ≡ (t / 60 / 60 / 24 + 4) % 7 =
      day_of_week_lem i month (rest + 1) less (omega arith)
      ∙ ap (λ d. (d + 4) % 7) (omega (arith, split, parts)) in
    let whole : (year_sum i 1970 + month_sum month 0 (1970 + i) + rest) * 86400
          + t / 60 / 60 % 24 * 3600
          + t / 60 % 60 * 60
          + t % 60
        ≡ t =
      omega (arith, split, parts) in
    rw (back, count, day, weekday, sym parts) (ap (λ s. (s, fields t i yday month rest)) whole)

-- `gmtime_r` returns for every time from 1970 on of fewer than 2^31 days, as many as an `int` counts, its
-- fields are a calendar time, and `mktime` gives the time back and leaves the fields as they are.
pub mktime-gmtime_r :
    (t : ℕ)
    → t / 86400 < 2 ^ 31
    → (tm : Tm) × (gmtime_r t ≡ some tm) × IsCalendar tm × (mktime tm ≡ (t, tm))
mktime-gmtime_r t in_int =
    let days = t / 60 / 60 / 24 in
    let (i, yday, at_year, split, fits) = find_year_lem (days + 1) 1970 days (omega arith) in
    let (month, rest, at_month, less, parts, small) = first_months (1970 + i) yday fits in
    (
      fields t i yday month rest,
      gmtime_r-fields t i yday month rest at_year at_month,
      fields-IsCalendar t i yday month rest less small,
      mktime-fields t i yday month rest split parts less,
    )

-- The seconds of a day of year, hour, minute and second come apart again.
seconds-split :
    (t days h m s : ℕ)
    → h < 24
    → m < 60
    → s < 60
    → t ≡ days * 86400 + h * 3600 + m * 60 + s
    → (t / 60 / 60 / 24 ≡ days) × (t / 60 / 60 % 24 ≡ h) × (t / 60 % 60 ≡ m) × (t % 60 ≡ s)
seconds-split t days h m s lh lm ls e = (omega arith, omega arith, omega arith, omega arith)

fields-same :
    (tm : Tm) (t i : ℕ)
    → 1970 + i ≡ tm.tm_year + 1900
    → 1 ≤ tm.tm_mday
    → t / 60 / 60 / 24 ≡ year_sum i 1970 + tm.tm_yday
    → t / 60 / 60 % 24 ≡ tm.tm_hour
    → t / 60 % 60 ≡ tm.tm_min
    → t % 60 ≡ tm.tm_sec
    → fields t i tm.tm_yday tm.tm_mon (tm.tm_mday - 1)
      ≡ record tm { tm_wday = (year_sum i 1970 + tm.tm_yday + 4) % 7; tm_isdst = 0 }
fields-same tm t i y d days h m s =
    let back : 1970 + i - 1900 ≡ tm.tm_year = omega arith in
    let day : tm.tm_mday - 1 + 1 ≡ tm.tm_mday = omega arith in rw (back, day, days, h, m, s) refl

gmtime_r-date :
    (tm : Tm) (t i : ℕ)
    → IsCalendar tm
    → DayOfYear tm
    → 1970 + i ≡ tm.tm_year + 1900
    → t ≡ (year_sum i 1970 + tm.tm_yday) * 86400 + tm.tm_hour * 3600 + tm.tm_min * 60 + tm.tm_sec
    → gmtime_r t
      ≡ some (record tm { tm_wday = (year_sum i 1970 + tm.tm_yday + 4) % 7; tm_isdst = 0 })
gmtime_r-date tm t i c of_year y e =
    let (days, h, m, s) =
      seconds-split t (year_sum i 1970 + tm.tm_yday) tm.tm_hour tm.tm_min tm.tm_sec c.hour c.minute
        c.second e in
    let in_month : tm.tm_mday - 1 < days_in_month tm.tm_mon (1970 + i) =
      subst (λ z. tm.tm_mday - 1 < days_in_month tm.tm_mon z) (sym y) (omega (arith, c.day)) in
    let yday : tm.tm_yday ≡ month_sum tm.tm_mon 0 (1970 + i) + (tm.tm_mday - 1) =
      of_year ∙ ap (λ z. month_sum tm.tm_mon 0 z + (tm.tm_mday - 1)) (sym y) in
    let fits : tm.tm_yday < year_days (1970 + i) =
      omega (arith, yday, in_month, month_sum-bound tm.tm_mon (1970 + i) c.month) in
    let at_year =
      find_year-sum i (year_sum i 1970 + tm.tm_yday + 1) 1970 tm.tm_yday
        (omega (arith, year_sum-long i 1970)) fits in
    let at_month = first_months-sum tm.tm_mon (1970 + i) (tm.tm_mday - 1) c.month in_month in
    gmtime_r-fields t i tm.tm_yday tm.tm_mon (tm.tm_mday - 1)
      (ap (λ d. find_year (d + 1) 1970 d) days ∙ at_year)
      (ap (find_month 12 0 (1970 + i)) yday ∙ at_month)
    ∙ ap some (fields-same tm t i y c.day.0 days h m s)

-- `gmtime_r` gives the fields of a calendar time back from the seconds that `mktime` makes of them,
-- with the days of the week and of the year that `mktime` sets.
pub gmtime_r-mktime :
    (tm : Tm)
    → IsCalendar tm
    → gmtime_r (mktime tm).0 ≡ some (record (mktime tm).1 { tm_isdst = 0 })
unfolding mktime
gmtime_r-mktime tm c =
    let i = tm.tm_year + 1900 - 1970 in
    let y : 1970 + i ≡ tm.tm_year + 1900 = omega (arith, c.year) in
    let tm' = (mktime tm).1 in
    let c' : IsCalendar tm' = record {
      year = c.year;
      month = c.month;
      day = c.day;
      hour = c.hour;
      minute = c.minute;
      second = c.second;
    } in
    let weekday =
      subst
        (λ z.
          day_of_week z (tm.tm_mon + 1) tm.tm_mday
          ≡ (year_sum i 1970 + (month_sum tm.tm_mon 0 z + (tm.tm_mday - 1)) + 4) % 7)
        y
        (day_of_week_lem i tm.tm_mon tm.tm_mday c.month c.day.0 ∙ ap (λ d. d % 7) (omega arith)) in
    gmtime_r-date tm' (mktime tm).0 i c' refl y (omega arith)
    ∙ ap (λ w. some (record tm' { tm_wday = w; tm_isdst = 0 })) (sym weekday)
