-- ===== src/Time/Weekday.antt =====
-- lib/libc/time.c: the congruence of `day_of_week` counts days as `gmtime_r` does.
use grace_os.Time.{is_leap_year, days_in_month, year_days, day_of_week, year_sum, month_sum}
use grace_os.Prelude.{
  ℕ, zero, suc, ◌+◌, ◌-◌, ◌*◌, ◌/◌, ◌%◌, ◌≤◌, ◌<◌, ◌≡◌, refl, sym, ap, ◌∙◌, subst, true, arith,
  dec_lt, ltb, leb, if◌then◌else◌,
}

year_sum-last : (n y : ℕ) → year_sum (suc n) y ≡ year_sum n y + year_days (y + n)
unfolding year_sum
year_sum-last zero y = ground arith
year_sum-last (suc n) y =
    let shift : y + 1 + n ≡ y + suc n = omega arith in
    ground (arith, year_sum-last n (y + 1), shift)

-- A leap day every 4 years, not every 100, but every 400.
leap-step :
    (z : ℕ)
    → 365 * (z + 1) + (z + 1) / 4 + (z + 1) / 400 + z / 100
      ≡ 365 * z + z / 4 + z / 400 + (z + 1) / 100 + year_days (z + 1)
unfolding is_leap_year
leap-step z = ground arith

-- The days before a year, counted from the year 1.
abbrev Closed : ℕ → ℕ → Type 0
Closed n z = year_sum n 1970 + 719162 + z / 100 ≡ 365 * z + z / 4 + z / 400

Closed-step : (n w : ℕ) → w ≡ 1969 + n → Closed n w → Closed (suc n) (w + 1)
Closed-step n w e before =
    let shift : 1970 + n ≡ w + 1 = omega arith in
    let last = year_sum-last n 1970 ∙ ap (λ y. year_sum n 1970 + year_days y) shift in
    omega (arith, last, before, leap-step w)

year_sum-Closed : (n : ℕ) → Closed n (1969 + n)
unfolding year_sum
year_sum-Closed zero = omega arith
year_sum-Closed (suc n) =
    let shift : 1969 + n + 1 ≡ 1969 + suc n = omega arith in
    subst (Closed (suc n)) shift (Closed-step n (1969 + n) refl (year_sum-Closed n))

-- The congruence, for the months from March on.
congruence : ℕ → ℕ → ℕ → ℕ
congruence y m day =
    let k = y % 100 in
    let j = y / 100 in
    let x = day + 13 * (m + 1) / 5 + k + k / 4 + j / 4 in
    if leb (2 * j) x then ((x - 2 * j) % 7 + 6) % 7 else (6 - (2 * j - x) % 7) % 7

congruence-closed :
    (y m day : ℕ)
    → congruence y m day ≡ (day + 13 * (m + 1) / 5 + y + y / 4 + y / 400 + 6 * (y / 100) + 6) % 7
unfolding congruence
congruence-closed y m day = ground arith

day_of_week-March :
    (y month day : ℕ) → 2 ≤ month → day_of_week y (month + 1) day ≡ congruence y (month + 1) day
unfolding day_of_week congruence
day_of_week-March y month day h = ground (arith, h)

day_of_week-January :
    (y month day : ℕ)
    → month < 2
    → day_of_week y (month + 1) day ≡ congruence (y - 1) (month + 13) day
unfolding day_of_week congruence
day_of_week-January y month day h =
    let early : ltb (month + 1) 3 ≡ true = ground (arith, h) in
    let late : month + 1 + 12 ≡ month + 13 = omega arith in rw (early, late) refl

abbrev AllBelow : ℕ → (ℕ → Type 0) → Type 0
AllBelow zero P = Unit
AllBelow (suc n) P = P 0 × AllBelow n (λ i. P (suc i))

each_below : (n : ℕ) (P : ℕ → Type 0) → AllBelow n P → (m : ℕ) → m < n → P m
each_below zero P all m h = absurd (omega arith)
each_below (suc n) P all zero h = all.0
each_below (suc n) P all (suc m) h = each_below n (λ i. P (suc i)) all.1 m (omega arith)

-- What the congruence counts for a month, and what the months before it sum up to.
abbrev MarchOn : ℕ → ℕ → Type 0
MarchOn y month = (month_sum (month + 2) 0 y + 365) % 7 ≡ (13 * (month + 4) / 5 + year_days y) % 7

month_sum-March : (y month : ℕ) → month < 10 → MarchOn y month
unfolding month_sum days_in_month
month_sum-March y = each_below 10 (MarchOn y) (ground arith)

month_sum-January :
    (y month : ℕ) → month < 2 → (month_sum month 0 y + 36) % 7 ≡ 13 * (month + 13 + 1) / 5 % 7
unfolding month_sum days_in_month
month_sum-January y =
    each_below 2 (λ m. (month_sum m 0 y + 36) % 7 ≡ 13 * (m + 13 + 1) / 5 % 7) (ground arith)

before_March :
    (n : ℕ)
    → year_sum n 1970 + year_days (1970 + n) + 719162 + (1970 + n) / 100
      ≡ 365 * (1970 + n) + (1970 + n) / 4 + (1970 + n) / 400
before_March n =
    let next : 1969 + suc n ≡ 1970 + n = omega arith in
    ap (λ s. s + 719162 + (1970 + n) / 100) (sym (year_sum-last n 1970))
    ∙ subst (λ z. Closed (suc n) z) next (year_sum-Closed (suc n))

from_March :
    (y month : ℕ)
    → month < 12
    → 2 ≤ month
    → (month_sum month 0 y + 365) % 7 ≡ (13 * (month + 1 + 1) / 5 + year_days y) % 7
from_March y month lt late =
    let back : month - 2 + 2 ≡ month = omega arith in
    let four : month - 2 + 4 ≡ month + 1 + 1 = omega arith in
    ap (λ m. (month_sum m 0 y + 365) % 7) (sym back)
    ∙ month_sum-March y (month - 2) (omega arith)
    ∙ ap (λ m. (13 * m / 5 + year_days y) % 7) four

march_sum :
    (s m c d q h r y day : ℕ)
    → 1 ≤ day
    → s + d + 719162 + h ≡ 365 * y + q + r
    → (m + 365) % 7 ≡ (c + d) % 7
    → (day + c + y + q + r + 6 * h + 6) % 7 ≡ (s + m + (day - 1) + 4) % 7
march_sum s m c d q h r y day pos years months = omega arith

january_sum :
    (s m c q h r z day : ℕ)
    → 1 ≤ day
    → s + 719162 + h ≡ 365 * z + q + r
    → (m + 36) % 7 ≡ c % 7
    → (day + c + z + q + r + 6 * h + 6) % 7 ≡ (s + m + (day - 1) + 4) % 7
january_sum s m c q h r z day pos years months = omega arith

-- The day of the week of the fields is that of the days since 1970.
pub day_of_week_lem :
    (n month day : ℕ)
    → month < 12
    → 1 ≤ day
    → let y = 1970 + n in
      day_of_week y (month + 1) day ≡ (year_sum n 1970 + month_sum month 0 y + (day - 1) + 4) % 7
day_of_week_lem n month day lt pos = elim (dec_lt month 2) [
  | yes early ↦
      let y = 1970 + n in
      let z : 1970 + n - 1 ≡ 1969 + n = omega arith in
      day_of_week-January y month day early
      ∙ congruence-closed (y - 1) (month + 13) day
      ∙ january_sum (year_sum n 1970) (month_sum month 0 y) (13 * (month + 13 + 1) / 5)
          ((y - 1) / 4) ((y - 1) / 100) ((y - 1) / 400) (y - 1) day pos (rw z (year_sum-Closed n))
          (month_sum-January y month early)
  | no late ↦
      let y = 1970 + n in
      day_of_week-March y month day (omega (arith, late))
      ∙ congruence-closed y (month + 1) day
      ∙ march_sum (year_sum n 1970) (month_sum month 0 y) (13 * (month + 1 + 1) / 5) (year_days y)
          (y / 4) (y / 100) (y / 400) y day pos (before_March n)
          (from_March y month lt (omega (arith, late)))
]
