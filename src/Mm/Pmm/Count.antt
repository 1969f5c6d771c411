-- ===== src/Mm/Pmm/Count.antt =====
-- kernel/mm/pmm: how many frames satisfy a test, and what one change of it does to the number.
use grace_os.Prelude.{
  ℕ, zero, suc, ◌+◌, ◌≤◌, ◌<◌, ◌≡◌, refl, ◌≢◌, Bool, true, false, arith, ℕ_discrete, if◌then◌else◌,
}

-- The number of `f < n` that pass.
unfoldable pub count : ℕ → (ℕ → Bool) → ℕ
count zero p = 0
count (suc n) p = count n p + (if p n then 1 else 0)

pub count-le : (n : ℕ) (p : ℕ → Bool) → count n p ≤ n
unfolding count
count-le zero p = omega arith
count-le (suc n) p = ground (arith, count-le n p)

pub count_all : (n : ℕ) (p : ℕ → Bool) → ((g : ℕ) → g < n → p g ≡ true) → count n p ≡ n
unfolding count
count_all zero p h = refl
count_all (suc n) p h = ground (arith, count_all n p (λ g lt. h g (omega arith)), h n)

pub count_none : (n : ℕ) (p : ℕ → Bool) → ((g : ℕ) → g < n → p g ≡ false) → count n p ≡ 0
unfolding count
count_none zero p h = refl
count_none (suc n) p h = ground (arith, count_none n p (λ g lt. h g (omega arith)), h n)

pub count_agree : (n : ℕ) (p q : ℕ → Bool) → ((g : ℕ) → g < n → q g ≡ p g) → count n q ≡ count n p
unfolding count
count_agree zero p q h = refl
count_agree (suc n) p q h = rw (h n (omega arith), count_agree n p q (λ g lt. h g (omega arith)))

-- Turning one test from false to true adds one.
pub count_flip :
    (n f : ℕ) (p q : ℕ → Bool)
    → f < n
    → p f ≡ false
    → q f ≡ true
    → ((g : ℕ) → f ≢ g → q g ≡ p g)
    → count n q ≡ count n p + 1
unfolding count
count_flip zero f p q lt hp hq h = absurd (omega arith)
count_flip (suc n) f p q lt hp hq h = elim (ℕ_discrete f n) [
  | yes e ↦
      let below = count_agree n p q (λ g l. h g (omega arith)) in rw (← e, hp, hq, e) (omega arith)
  | no ne ↦ rw (h n ne) (omega (arith, count_flip n f p q (omega arith) hp hq h))
]

pub count_pos : (n f : ℕ) (p : ℕ → Bool) → f < n → p f ≡ true → 0 < count n p
unfolding count
count_pos zero f p lt h = absurd (omega arith)
count_pos (suc n) f p lt h = elim (ℕ_discrete f n) [
  | yes e ↦ rw (← e, h) (omega arith)
  | no ne ↦ omega (arith, count_pos n f p (omega arith) h)
]
