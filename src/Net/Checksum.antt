-- ===== src/Net/Checksum.antt =====
-- kernel/net/ip/ipv4.c: the checksum over bytes in network order. The operands of `|` have no bit in
-- common for bytes, so it is `+`; `x & 0xFFFF` is `x % 65536`, `x >> 16` is `x / 65536`.
pub mod Verify
use mathlib.Core.Option
use grace_os.Prelude.{
  ℕ, zero, suc, ◌+◌, ◌-◌, ◌*◌, ◌/◌, ◌%◌, ◌^◌, Option, none, some, List, [], ◌∷◌, map, ◌==◌,
  if◌then◌else◌,
}

-- `sum` is a `uint32_t`.
unfoldable pub sum_words : ℕ → List ℕ → ℕ
sum_words sum [] = sum
sum_words sum (a ∷ []) = (sum + a * 256) % 2 ^ 32
sum_words sum (a ∷ b ∷ rest) = sum_words ((sum + (a * 256 + b)) % 2 ^ 32) rest

-- `while (sum >> 16)`, on fuel.
unfoldable pub fold_carries : ℕ → ℕ → Option ℕ
fold_carries zero sum = none
fold_carries (suc n) sum =
    let folded = fold_carries n (sum % 65536 + sum / 65536) in
    if sum / 65536 == 0 then some sum else folded

-- `(uint16_t)(~sum)`, for a sum of 16 bits.
abbrev pub complement : ℕ → ℕ
complement sum = 65535 - sum

-- The rounds of the loop for 32 bits.
abbrev pub fold_rounds : ℕ
fold_rounds = 3

unfoldable pub ipv4_checksum : List ℕ → Option ℕ
ipv4_checksum buf = Option.map complement (fold_carries fold_rounds (sum_words 0 buf))
