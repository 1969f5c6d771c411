-- ===== src/Prelude/Words.antt =====
-- Machine words as native numbers: the wrapping steps of `uint64_t`, `uint32_t` and `uint16_t`.
use Prim.Native.Nat.{ℕ, ◌+◌, ◌-◌, ◌%◌, ◌^◌}

-- `x++` and `x--` on a `uint64_t`
abbrev pub inc64 : ℕ → ℕ
inc64 x = (x + 1) % 2 ^ 64

abbrev pub dec64 : ℕ → ℕ
dec64 x = (x + 2 ^ 64 - 1) % 2 ^ 64

-- the same on a `uint32_t`
abbrev pub inc32 : ℕ → ℕ
inc32 x = (x + 1) % 2 ^ 32

abbrev pub dec32 : ℕ → ℕ
dec32 x = (x + 2 ^ 32 - 1) % 2 ^ 32

abbrev pub inc16 : ℕ → ℕ
inc16 x = (x + 1) % 2 ^ 16
