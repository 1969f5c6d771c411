-- ===== src/Time/Loops.antt =====
-- lib/libc/time.c: what the loops over years and months compute.
use grace_os.Time.{days_in_month, year_days, find_year, find_month, year_sum, month_sum}
use grace_os.Prelude.{
  ℕ, zero, suc, ◌+◌, ◌-◌, ◌≤◌, ◌<◌, ◌≡◌, sym, ap, ◌∙◌, subst, some, arith, dec_lt,
}

year_days-bounds : (y : ℕ) → (365 ≤ year_days y) × (year_days y ≤ 366)
year_days-bounds y = ground arith

-- A year is found, with as much fuel as days, in which the days that are left fit.
pub find_year_lem :
    (n y d : ℕ)
    → d < n
    → (i r : ℕ) × (find_year n y d ≡ some (y + i, r))
      × (d ≡ year_sum i y + r)
      × (r < year_days (y + i))
unfolding find_year year_sum
find_year_lem zero y d lt = absurd (omega arith)
find_year_lem (suc n) y d lt = elim (dec_lt d (year_days y)) [
  | yes fits ↦ (0, d, ground (arith, fits), omega arith, ground (arith, fits))
  | no over ↦
      let b = (year_days-bounds y).0 in
      let (i, r, found, split, fits) =
        find_year_lem n (y + 1) (d - year_days y) (omega (arith, lt, over, b)) in
      let shift : y + 1 + i ≡ y + suc i = omega arith in
      (
        suc i,
        r,
        ground (arith, over, found, shift),
        omega (arith, split, over),
        subst (λ z. r < year_days z) shift fits,
      )
]

-- Days that fit in the year after `i` others lead there.
pub find_year-sum :
    (i n y r : ℕ)
    → i < n
    → r < year_days (y + i)
    → find_year n y (year_sum i y + r) ≡ some (y + i, r)
unfolding find_year year_sum
find_year-sum i zero y r lt fits = absurd (omega arith)
find_year-sum zero (suc n) y r lt fits = ground (arith, fits)
find_year-sum (suc i) (suc n) y r lt fits =
    let shift : y + suc i ≡ y + 1 + i = omega arith in
    let later =
      find_year-sum i n (y + 1) r (omega arith) (subst (λ z. r < year_days z) shift fits) in
    let rest : year_days y + year_sum i (y + 1) + r - year_days y ≡ year_sum i (y + 1) + r =
      omega arith in
    ground (arith, later, rest, shift)

pub year_sum-long : (n y : ℕ) → n ≤ year_sum n y
unfolding year_sum
year_sum-long zero y = omega arith
year_sum-long (suc n) y = omega (arith, year_sum-long n (y + 1), (year_days-bounds y).0)

find_month_lem :
    (n m y d : ℕ)
    → d < month_sum n m y
    → (i r : ℕ) × (find_month n m y d ≡ (m + i, r))
      × (i < n)
      × (d ≡ month_sum i m y + r)
      × (r < days_in_month (m + i) y)
unfolding find_month month_sum
find_month_lem zero m y d lt = absurd (omega arith)
find_month_lem (suc n) m y d lt = elim (dec_lt d (days_in_month m y)) [
  | yes fits ↦ (0, d, ground (arith, fits), omega arith, omega arith, ground (arith, fits))
  | no over ↦
      let (i, r, found, less, split, fits) =
        find_month_lem n (m + 1) y (d - days_in_month m y) (omega (arith, lt, over)) in
      let shift : m + 1 + i ≡ m + suc i = omega arith in
      (
        suc i,
        r,
        ground (arith, over, found, shift),
        omega arith,
        omega (arith, split, over),
        subst (λ z. r < days_in_month z y) shift fits,
      )
]

find_month-sum :
    (i n m y r : ℕ)
    → i < n
    → r < days_in_month (m + i) y
    → find_month n m y (month_sum i m y + r) ≡ (m + i, r)
unfolding find_month month_sum
find_month-sum i zero m y r lt fits = absurd (omega arith)
find_month-sum zero (suc n) m y r lt fits = ground (arith, fits)
find_month-sum (suc i) (suc n) m y r lt fits =
    let shift : m + suc i ≡ m + 1 + i = omega arith in
    let later =
      find_month-sum i n (m + 1) y r (omega arith)
        (subst (λ z. r < days_in_month z y) shift fits) in
    let rest : days_in_month m y + month_sum i (m + 1) y + r - days_in_month m y
        ≡ month_sum i (m + 1) y + r =
      omega arith in
    ground (arith, later, rest, shift)

months_of_year : (y : ℕ) → month_sum 12 0 y ≡ year_days y
unfolding month_sum days_in_month
months_of_year y = ground arith

-- The months from January on.
pub first_months :
    (y d : ℕ)
    → d < year_days y
    → (i r : ℕ) × (find_month 12 0 y d ≡ (i, r))
      × (i < 12)
      × (d ≡ month_sum i 0 y + r)
      × (r < days_in_month i y)
first_months y d lt =
    let (i, r, found, less, split, fits) =
      find_month_lem 12 0 y d (omega (arith, months_of_year y)) in
    let shift : 0 + i ≡ i = omega arith in
    (
      i,
      r,
      found ∙ ap (λ z. (z, r)) shift,
      less,
      split,
      subst (λ z. r < days_in_month z y) shift fits,
    )

pub first_months-sum :
    (i y r : ℕ) → i < 12 → r < days_in_month i y → find_month 12 0 y (month_sum i 0 y + r) ≡ (i, r)
first_months-sum i y r lt fits =
    let shift : 0 + i ≡ i = omega arith in
    find_month-sum i 12 0 y r lt (subst (λ z. r < days_in_month z y) (sym shift) fits)
    ∙ ap (λ z. (z, r)) shift

month_sum-room : (i n m y : ℕ) → i < n → month_sum i m y + days_in_month (m + i) y ≤ month_sum n m y
unfolding month_sum
month_sum-room i zero m y lt = absurd (omega arith)
month_sum-room zero (suc n) m y lt = ground arith
month_sum-room (suc i) (suc n) m y lt =
    let shift : m + 1 + i ≡ m + suc i = omega arith in
    ground (arith, month_sum-room i n (m + 1) y (omega arith), shift)

-- The days before a month and those in it are not more than a year's.
pub month_sum-bound : (i y : ℕ) → i < 12 → month_sum i 0 y + days_in_month i y ≤ year_days y
month_sum-bound i y lt =
    let shift : 0 + i ≡ i = omega arith in
    ground (arith, month_sum-room i 12 0 y lt, months_of_year y, shift)
