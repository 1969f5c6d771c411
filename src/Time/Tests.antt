-- ===== src/Time/Tests.antt =====
-- Runs of lib/libc/time.c: noon on 29 February 2024, a Thursday, and the seconds of it.
use grace_os.Time.{
  Tm, is_leap_year, days_in_month, find_year, find_month, gmtime_r, mktime, year_sum, month_sum,
  day_of_week,
}
use grace_os.Time.Trip.{IsCalendar, gmtime_r-mktime, mktime-gmtime_r}
use grace_os.Prelude.{◌≡◌, refl, some, arith}

abbrev leap_noon : Tm
leap_noon = record {
  tm_sec = 0;
  tm_min = 0;
  tm_hour = 12;
  tm_mday = 29;
  tm_mon = 1;
  tm_year = 124;
  tm_wday = 0;
  tm_yday = 0;
  tm_isdst = 1;
}

leap_noon-IsCalendar : IsCalendar leap_noon
unfolding days_in_month is_leap_year
leap_noon-IsCalendar = record {
  year = omega arith;
  month = omega arith;
  day = (omega arith, omega arith);
  hour = omega arith;
  minute = omega arith;
  second = omega arith;
}

mktime-leap_noon : mktime leap_noon ≡ (1709208000, record leap_noon { tm_wday = 4; tm_yday = 59 })
unfolding mktime year_sum month_sum days_in_month is_leap_year day_of_week
mktime-leap_noon = refl

gmtime_r-leap_noon : gmtime_r 1709208000 ≡ some (record (mktime leap_noon).1 { tm_isdst = 0 })
unfolding gmtime_r find_year find_month mktime year_sum month_sum days_in_month is_leap_year
    day_of_week
gmtime_r-leap_noon = refl

gmtime_r-mktime_example :
    gmtime_r (mktime leap_noon).0 ≡ some (record (mktime leap_noon).1 { tm_isdst = 0 })
gmtime_r-mktime_example = gmtime_r-mktime leap_noon leap_noon-IsCalendar

mktime-gmtime_r_example :
    (tm : Tm) × (gmtime_r 1709208000 ≡ some tm) × IsCalendar tm × (mktime tm ≡ (1709208000, tm))
mktime-gmtime_r_example = mktime-gmtime_r 1709208000 (omega arith)
