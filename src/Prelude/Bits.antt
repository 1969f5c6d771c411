-- ===== src/Prelude/Bits.antt =====
-- Bits of a byte: the C operators `|= 1 << i`, `&= ~(1 << i)` and the test `& (1 << i)`, and their
-- laws, by a table over all bytes.
use Prim.Native.Nat.{ℕ, zero, suc, ◌-◌, ◌%◌, ◌^◌, ◌<◌, bit_and, bit_or}
use mathlib.Core.Path.{◌≡◌, refl}
use mathlib.Core.Bool.{Bool, true, false, ◌&&◌, ◌||◌, not}
use native.Mathlib.Omega.{arith}
use grace_os.Prelude.Tests.{◌==◌, if◌then◌else◌}

-- `(b & (1 << i)) != 0`
unfoldable pub test_bit : ℕ → ℕ → Bool
test_bit b i = not (bit_and b (2 ^ i) == 0)

-- `b |= 1 << i` on a `uint8_t`
unfoldable pub set_bit : ℕ → ℕ → ℕ
set_bit b i = bit_or b (2 ^ i) % 2 ^ 8

-- `b &= ~(1 << i)` on a `uint8_t`: the complement is taken in 32 bits.
unfoldable pub clear_bit : ℕ → ℕ → ℕ
clear_bit b i = bit_and b (2 ^ 32 - 1 - 2 ^ i) % 2 ^ 8

-- Whether a test passes at every number under a bound, the greatest first.
passes_under : (ℕ → Bool) → ℕ → Bool
passes_under test zero = true
passes_under test (suc bound) = if test bound then passes_under test bound else false

passes_under_at :
    (test : ℕ → Bool) (bound i : ℕ) → i < bound → passes_under test bound ≡ true → test i ≡ true
unfolding passes_under
passes_under_at test zero i lt ok = absurd (omega arith)
passes_under_at test (suc bound) i lt ok = ground (arith, passes_under_at test bound i)

abbrev same : Bool → Bool → Bool
same true b = b
same false b = not b

same_sound : (a b : Bool) → same a b ≡ true → a ≡ b
same_sound true true h = refl
same_sound true false h = cc
same_sound false true h = cc
same_sound false false h = refl

-- The three laws at one byte and two bit positions.
check_set : ℕ → ℕ → ℕ → Bool
unfolding test_bit set_bit
check_set b i j = same (test_bit (set_bit b i) j) (i == j || test_bit b j)

check_clear : ℕ → ℕ → ℕ → Bool
unfolding test_bit clear_bit
check_clear b i j = same (test_bit (clear_bit b i) j) (not (i == j) && test_bit b j)

abbrev all_bytes : (ℕ → ℕ → ℕ → Bool) → Bool
all_bytes p = passes_under (λ b. passes_under (λ i. passes_under (p b i) 8) 8) 256

all_bytes_sound :
    (p : ℕ → ℕ → ℕ → Bool) (b i j : ℕ)
    → all_bytes p ≡ true
    → b < 256
    → i < 8
    → j < 8
    → p b i j ≡ true
all_bytes_sound p b i j h hb hi hj = passes_under_at (p b i) 8 j hj (
    passes_under_at (λ k. passes_under (p b k) 8) 8 i hi
      (passes_under_at (λ c. passes_under (λ k. passes_under (p c k) 8) 8) 256 b hb h))

set_table : all_bytes check_set ≡ true
unfolding passes_under check_set
set_table = refl

clear_table : all_bytes check_clear ≡ true
unfolding passes_under check_clear
clear_table = refl

pub test_bit-set_bit :
    (b i j : ℕ) → b < 256 → i < 8 → j < 8 → test_bit (set_bit b i) j ≡ (i == j || test_bit b j)
unfolding check_set
test_bit-set_bit b i j hb hi hj =
    same_sound _ _ (all_bytes_sound check_set b i j set_table hb hi hj)

pub test_bit-clear_bit :
    (b i j : ℕ)
    → b < 256
    → i < 8
    → j < 8
    → test_bit (clear_bit b i) j ≡ (not (i == j) && test_bit b j)
unfolding check_clear
test_bit-clear_bit b i j hb hi hj =
    same_sound _ _ (all_bytes_sound check_clear b i j clear_table hb hi hj)

ones_table : passes_under (test_bit 255) 8 ≡ true
unfolding passes_under test_bit
ones_table = refl

pub test_bit-ones : (j : ℕ) → j < 8 → test_bit 255 j ≡ true
test_bit-ones j h = passes_under_at (test_bit 255) 8 j h ones_table

pub set_bit-lt : (b i : ℕ) → set_bit b i < 256
unfolding set_bit
set_bit-lt b i = omega arith

pub clear_bit-lt : (b i : ℕ) → clear_bit b i < 256
unfolding clear_bit
clear_bit-lt b i = omega arith
