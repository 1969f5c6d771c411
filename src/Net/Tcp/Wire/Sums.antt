-- ===== src/Net/Tcp/Wire/Sums.antt =====
-- kernel/net/tcp/tcp.c: the checksum of a segment and its pseudo-header.
use mathlib.Core.Option
use grace_os.Net.Checksum.{fold_carries, fold_rounds, complement}
use grace_os.Net.Checksum.Verify.{
  AreBytes, total, total-bound, sum_words-total, fold_carries_lem, Verifies, complement_lem,
}
use grace_os.Net.Tcp.{Segment}
use grace_os.Net.Tcp.Wire.{pseudo_sum, tcp_checksum, tcp_header}
use grace_os.Prelude.{ℕ, ◌+◌, ◌^◌, ◌≤◌, ◌<◌, ◌≡◌, ap, ◌∙◌, some, List, arith, length}

-- The words of a segment with those of its pseudo-header.
abbrev whole_sum : ℕ → ℕ → List ℕ → ℕ
whole_sum src_ip dst_ip bytes = pseudo_sum src_ip dst_ip (length bytes) + total bytes

tcp_checksum_lem :
    (src_ip dst_ip : ℕ) (bytes : List ℕ)
    → whole_sum src_ip dst_ip bytes < 2 ^ 32
    → (c : ℕ) × (tcp_checksum src_ip dst_ip bytes ≡ some c)
      × Verifies (whole_sum src_ip dst_ip bytes) c
unfolding tcp_checksum
tcp_checksum_lem src_ip dst_ip bytes small =
    let start = pseudo_sum src_ip dst_ip (length bytes) in
    let same = sum_words-total start bytes small in
    let (f, run, keeps) = fold_carries_lem (whole_sum src_ip dst_ip bytes) small in
    (
      complement f,
      ap (λ sum. Option.map complement (fold_carries fold_rounds sum)) same
          ∙ ap (Option.map complement) run,
      complement_lem (whole_sum src_ip dst_ip bytes) f keeps,
    )

header-total :
    (s : Segment) (c : ℕ) → c < 65536 → total (tcp_header s c) ≡ c + total (tcp_header s 0)
header-total s c lt = omega (arith, lt)

header-bound :
    (s : Segment) (c : ℕ)
    → s.flags < 256
    → AreBytes s.payload
    → length s.payload ≤ 1460
    → total (tcp_header s c) < 2 ^ 30
header-bound s c lt bytes short = omega (arith, lt, short, total-bound s.payload bytes)

-- The checksum that is put into a segment of at most 1460 bytes of data is found right by a receiver that computes
-- it again, over the segment with the checksum in it and the same addresses: that gives null.
pub tcp_checksum_verifies :
    (src_ip dst_ip : ℕ) (s : Segment)
    → s.flags < 256
    → AreBytes s.payload
    → length s.payload ≤ 1460
    → (c : ℕ) × (tcp_checksum src_ip dst_ip (tcp_header s 0) ≡ some c)
      × (tcp_checksum src_ip dst_ip (tcp_header s c) ≡ some 0)
tcp_checksum_verifies src_ip dst_ip s lt bytes short =
    let (c, run, fits) =
      tcp_checksum_lem src_ip dst_ip (tcp_header s 0)
        (omega (arith, header-bound s 0 lt bytes short)) in
    let (c', run', fits') =
      tcp_checksum_lem src_ip dst_ip (tcp_header s c)
        (omega (arith, header-bound s c lt bytes short)) in
    let more = header-total s c fits.0 in
    let null : c' ≡ 0 = fits'.2.1 (omega arith, omega (arith, more, fits.1)) in
    (c, run, run' ∙ ap some null)
