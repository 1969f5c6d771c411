-- ===== src/Net/Checksum/Verify.antt =====
-- kernel/net/ip/ipv4.c: a checksum put into the data that it was computed of verifies.
use mathlib.Core.Option
use grace_os.Net.Checksum.{sum_words, fold_carries, fold_rounds, complement, ipv4_checksum}
use grace_os.Prelude.{
  ℕ, suc, ◌+◌, ◌*◌, ◌/◌, ◌%◌, ◌^◌, ◌≤◌, ◌<◌, ◌≡◌, refl, ap, ◌∙◌, ◌↔◌, true, false, some, List, [],
  ◌∷◌, arith, dec_lt, ◌==◌, length,
}

-- The words of the data, added without wrap.
abbrev pub total : List ℕ → ℕ
total [] = 0
total (a ∷ []) = a * 256
total (a ∷ b ∷ rest) = a * 256 + b + total rest

abbrev pub AreBytes : List ℕ → Type 0
AreBytes [] = Unit
AreBytes (b ∷ bs) = (b < 256) × AreBytes bs

pub total-bound : (xs : List ℕ) → AreBytes xs → total xs ≤ 65535 * length xs
total-bound [] bs = omega arith
total-bound (a ∷ []) bs = omega (arith, bs.0)
total-bound (a ∷ b ∷ rest) bs = omega (arith, bs.0, bs.1.0, total-bound rest bs.1.1)

pub sum_words-total :
    (sum : ℕ) (xs : List ℕ) → sum + total xs < 2 ^ 32 → sum_words sum xs ≡ sum + total xs
unfolding sum_words
sum_words-total sum [] h = omega arith
sum_words-total sum (a ∷ []) h = omega (arith, h)
sum_words-total sum (a ∷ b ∷ rest) h =
    let fits : sum + (a * 256 + b) < 2 ^ 32 = omega (arith, h) in
    let same : (sum + (a * 256 + b)) % 2 ^ 32 ≡ sum + (a * 256 + b) = omega (arith, fits) in
    rw same (sum_words-total (sum + (a * 256 + b)) rest (omega (arith, h)) ∙ omega arith)

pub sum_words-lt : (sum : ℕ) (xs : List ℕ) → sum < 2 ^ 32 → sum_words sum xs < 2 ^ 32
unfolding sum_words
sum_words-lt sum [] lt = lt
sum_words-lt sum (a ∷ []) lt = omega arith
sum_words-lt sum (a ∷ b ∷ rest) lt =
    sum_words-lt ((sum + (a * 256 + b)) % 2 ^ 32) rest (omega arith)

-- One round.
abbrev round : ℕ → ℕ
round sum = sum % 65536 + sum / 65536

fold_done : (n sum : ℕ) → sum < 65536 → fold_carries (suc n) sum ≡ some sum
unfolding fold_carries
fold_done n sum h = let low : (sum / 65536 == 0) ≡ true = ground (arith, h) in rw low refl

fold_more : (n sum : ℕ) → 65536 ≤ sum → fold_carries (suc n) sum ≡ fold_carries n (round sum)
unfolding fold_carries
fold_more n sum h = let high : (sum / 65536 == 0) ≡ false = ground (arith, h) in rw high refl

-- What the folded sum keeps: its remainder, and not being null.
abbrev pub KeepsSum : ℕ → ℕ → Type 0
KeepsSum sum f = (f < 65536) × (f % 65535 ≡ sum % 65535) × ((0 < sum) ↔ (0 < f))

-- The loop ends within its rounds; the folded sum is the sum modulo 65535, and null only for a null
-- sum.
pub fold_carries_lem :
    (sum : ℕ) → sum < 2 ^ 32 → (f : ℕ) × (fold_carries fold_rounds sum ≡ some f) × KeepsSum sum f
fold_carries_lem sum h = elim (dec_lt sum 65536) [
  | yes low ↦ (sum, fold_done 2 sum low, (low, refl, (λ p. p, λ p. p)))
  | no high ↦ elim (dec_lt (round sum) 65536) [
    | yes low ↦ (
      round sum,
      fold_more 2 sum (omega (arith, high)) ∙ fold_done 1 (round sum) low,
      (low, omega (arith, high), (λ p. omega (arith, high), λ p. omega (arith, high))),
    )
    | no again ↦ (
      round (round sum),
      fold_more 2 sum (omega (arith, high))
          ∙ (fold_more 1 (round sum) (omega (arith, again))
              ∙ fold_done 0 (round (round sum)) (omega (arith, h))),
      (
        omega (arith, h),
        omega (arith, high, again),
        (λ p. omega (arith, high), λ p. omega (arith, high)),
      ),
    )
  ]
]

-- What the complement of a folded sum is to the sum.
abbrev pub Verifies : ℕ → ℕ → Type 0
Verifies sum c = (c < 65536) × ((c + sum) % 65535 ≡ 0) × ((c ≡ 0) ↔ ((0 < sum) × (sum % 65535 ≡ 0)))

pub complement_lem : (sum f : ℕ) → KeepsSum sum f → Verifies sum (complement f)
complement_lem sum f (lt, rest, pos) = (
  omega arith,
  omega (arith, lt, rest),
  (
    λ e. (pos.1 (omega (arith, e, lt)), omega (arith, e, lt, rest)),
    λ r. omega (arith, lt, rest, pos.0 r.0, r.1),
  ),
)

-- The bound under which the words are added without wrap.
abbrev pub Fits : List ℕ → Type 0
Fits xs = AreBytes xs × (length xs < 65536)

-- A checksum is computed of any data, and it is null exactly if the words add up to a multiple of
-- 65535 that is not null.
pub ipv4_checksum_lem :
    (xs : List ℕ) → Fits xs → (c : ℕ) × (ipv4_checksum xs ≡ some c) × Verifies (total xs) c
unfolding ipv4_checksum
ipv4_checksum_lem xs (bs, short) =
    let small : total xs < 2 ^ 32 = omega (arith, total-bound xs bs, short) in
    let same : sum_words 0 xs ≡ total xs =
      sum_words-total 0 xs (omega (arith, small)) ∙ omega arith in
    let (f, run, keeps) = fold_carries_lem (total xs) small in
    (
      complement f,
      ap (λ s. Option.map complement (fold_carries fold_rounds s)) same
          ∙ ap (Option.map complement) run,
      complement_lem (total xs) f keeps,
    )
