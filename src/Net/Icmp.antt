-- ===== src/Net/Icmp.antt =====
-- kernel/net/icmp/icmp.c: echo requests and replies, as lists of their bytes.
use mathlib.Core.Option
use grace_os.Net.Checksum.{sum_words, fold_carries, fold_rounds, complement}
use grace_os.Net.Checksum.Verify.{sum_words-lt, fold_carries_lem}
use grace_os.Net.Ethernet.{put16, get16}
use grace_os.Prelude.{
  ℕ, zero, suc, ◌+◌, ◌*◌, ◌/◌, ◌%◌, ◌<◌, ◌≡◌, refl, ap, Bool, true, false, ◌&&◌, Option, none, some,
  List, [], ◌∷◌, arith, ltb, ◌==◌, if◌then◌else◌, length, get_or, take, drop,
}

-- The reply that is awaited, and whether it came.
pub record IcmpCapture : Type 0 where
  pub reply_received : Bool
  pub expected_id : ℕ
  pub expected_seq : ℕ

abbrev pub icmp_header_len : ℕ
icmp_header_len = 8

abbrev pub icmp_payload_size : ℕ
icmp_payload_size = 32

-- The loops are those of the checksum of IPv4.
unfoldable pub icmp_checksum : List ℕ → Option ℕ
icmp_checksum buf = Option.map complement (fold_carries fold_rounds (sum_words 0 buf))

-- The bytes from `i` on of the pattern.
abbrev pub pattern_bytes : ℕ → ℕ → List ℕ
pattern_bytes zero i = []
pattern_bytes (suc n) i = i % 256 ∷ pattern_bytes n (i + 1)

abbrev pub echo_header : ℕ → ℕ → ℕ → ℕ → List ℕ → List ℕ
echo_header type checksum id seq rest = type ∷ 0 ∷ put16 checksum (put16 id (put16 seq rest))

-- What is given to `ipv4_send`.
unfoldable pub icmp_send_echo : ℕ → ℕ → Option (List ℕ)
icmp_send_echo id seq =
    let pay = pattern_bytes icmp_payload_size 0 in
    Option.map (λ c. echo_header 8 c id seq pay) (icmp_checksum (echo_header 8 0 id seq pay))

-- A packet with another type and a checksum, and the rest of it as it is.
abbrev pub retyped : ℕ → ℕ → List ℕ → List ℕ
retyped type checksum bytes = type ∷ get_or bytes 1 0 ∷ put16 checksum (drop 4 bytes)

-- The capture after a packet, and what is given to `ipv4_send` for its sender.
unfoldable pub icmp_receive : IcmpCapture → List ℕ → IcmpCapture × Option (List ℕ)
icmp_receive capture bytes =
    let kept = take 1488 bytes in
    if ltb (length bytes) icmp_header_len
    then (capture, none)
    else if get_or bytes 0 0 == 0
    then if get16 bytes 4 == capture.expected_id && get16 bytes 6 == capture.expected_seq
      then (record capture { reply_received = true }, none)
      else (capture, none)
    else if get_or bytes 0 0 == 8
    then (capture, Option.map (λ c. retyped 0 c kept) (icmp_checksum (retyped 0 0 kept)))
    else (capture, none)

-- `icmp_ping_one` when it arms the capture.
abbrev pub armed : ℕ → ℕ → IcmpCapture
armed id seq = record { reply_received = false; expected_id = id; expected_seq = seq }

icmp_checksum-some : (buf : List ℕ) → (c : ℕ) × (icmp_checksum buf ≡ some c)
unfolding icmp_checksum
icmp_checksum-some buf =
    let (f, run, keeps) = fold_carries_lem (sum_words 0 buf) (sum_words-lt 0 buf (omega arith)) in
    (complement f, ap (Option.map complement) run)

-- Both numbers of a reply.
reply_captured :
    (id seq c : ℕ) (rest : List ℕ)
    → id < 65536
    → seq < 65536
    → icmp_receive (armed id seq) (echo_header 0 c id seq rest)
      ≡ (record (armed id seq) { reply_received = true }, none)
unfolding icmp_receive
reply_captured id seq c rest lt lt' =
    let same : (id / 256 % 256 * 256 + id % 256 == id) ≡ true = ground (arith, lt) in
    let same' : (seq / 256 % 256 * 256 + seq % 256 == seq) ≡ true = ground (arith, lt') in
    let enough : ltb (length (echo_header 0 c id seq rest)) icmp_header_len ≡ false =
      ground arith in
    rw (enough, same, same') refl

-- The echo that `icmp_send_echo` makes is answered by the end that receives it with a reply that the end that
-- awaits it takes for it, without an answer of its own; the other end's capture stays as it was.
pub icmp_echo_answered :
    (id seq : ℕ) (capture : IcmpCapture)
    → id < 65536
    → seq < 65536
    → (request reply : List ℕ) × (icmp_send_echo id seq ≡ some request)
      × (icmp_receive capture request ≡ (capture, some reply))
      × (icmp_receive (armed id seq) reply
          ≡ (record (armed id seq) { reply_received = true }, none))
unfolding icmp_send_echo icmp_receive
icmp_echo_answered id seq capture lt lt' =
    let pay = pattern_bytes icmp_payload_size 0 in
    let (c, run) = icmp_checksum-some (echo_header 8 0 id seq pay) in
    let (c', run') = icmp_checksum-some (echo_header 0 0 id seq pay) in
    (
      echo_header 8 c id seq pay,
      echo_header 0 c' id seq pay,
      ap (Option.map (λ k. echo_header 8 k id seq pay)) run,
      ap (λ o. (capture, Option.map (λ k. echo_header 0 k id seq pay) o)) run',
      reply_captured id seq c' pay lt lt',
    )
