-- ===== src/Net/Ipv4/Trip.antt =====
-- kernel/net/ip/ipv4.c: what is sent is received.
use mathlib.Core.Option
use grace_os.Net.Checksum.{ipv4_checksum}
use grace_os.Net.Checksum.Verify.{Fits, total, ipv4_checksum_lem}
use grace_os.Net.Ethernet.{NetDevice}
use grace_os.Net.Ipv4.{header_len, header, ipv4_packet, ipv4_receive}
use grace_os.Prelude.{
  ℕ, ◌+◌, ◌-◌, ◌*◌, ◌/◌, ◌%◌, ◌^◌, ◌≤◌, ◌<◌, ◌≡◌, refl, ap, ◌∙◌, false, some, List, [], ◌++◌, arith,
  ltb, length, length-append, take, take_all,
}

header-Fits :
    (len id protocol c src dst : ℕ) → protocol < 256 → Fits (header len id protocol c src dst [])
header-Fits len id protocol c src dst lt = ground (arith, lt)

header-total :
    (len id protocol c src dst : ℕ)
    → c < 65536
    → total (header len id protocol c src dst []) ≡ c + total (header len id protocol 0 src dst [])
header-total len id protocol c src dst lt = omega arith

header-total_pos : (len id protocol c src dst : ℕ) → 0 < total (header len id protocol c src dst [])
header-total_pos len id protocol c src dst = omega arith

-- A header with its checksum put in verifies.
header_verifies :
    (len id protocol src dst : ℕ)
    → protocol < 256
    → (c : ℕ) × (ipv4_checksum (header len id protocol 0 src dst []) ≡ some c)
      × (ipv4_checksum (header len id protocol c src dst []) ≡ some 0)
header_verifies len id protocol src dst lt =
    let (c, run, fits) =
      ipv4_checksum_lem (header len id protocol 0 src dst [])
        (header-Fits len id protocol 0 src dst lt) in
    let (c', run', fits') =
      ipv4_checksum_lem (header len id protocol c src dst [])
        (header-Fits len id protocol c src dst lt) in
    let null : c' ≡ 0 = fits'.2.1 (
      header-total_pos len id protocol c src dst,
      ap (λ s. s % 65535) (header-total len id protocol c src dst fits.0) ∙ fits.1,
    ) in
    (c, run, run' ∙ ap some null)

-- What the receiver does with a header that verifies, in front of a payload and of padding.
receive-header :
    (len id protocol c src dst : ℕ) (payload padding : List ℕ)
    → src < 2 ^ 32
    → len ≡ header_len + length payload
    → len < 65536
    → ipv4_checksum (header len id protocol c src dst []) ≡ some 0
    → ipv4_receive (header len id protocol c src dst (payload ++ padding))
      ≡ some (record { protocol = protocol; src = src; payload = payload })
unfolding ipv4_receive
receive-header len id protocol c src dst payload padding fits whole small verified =
    let rest = payload ++ padding in
    let long = length-append payload padding in
    let total_len : len / 256 % 256 * 256 + len % 256 ≡ len = omega (arith, small) in
    let source : (src / 65536 / 256 % 256 * 256 + src / 65536 % 256) * 65536
          + (src / 256 % 256 * 256 + src % 256)
        ≡ src =
      omega (arith, fits) in
    let body : take (len - header_len) rest ≡ payload =
      ap (λ n. take n rest) (omega (arith, whole)) ∙ take_all payload padding in
    let enough : ltb (length (header len id protocol c src dst rest)) header_len ≡ false =
      ground arith in
    let inside : ltb (length (header len id protocol c src dst rest)) len ≡ false =
      ground (arith, whole, long) in
    let reaches : ltb len header_len ≡ false = ground (arith, whole) in
    rw (total_len, enough, inside, reaches, verified, body, source) refl

-- A packet built for a payload of at most 1500 bytes is 20 bytes longer, and it is received, also with padding
-- behind it, as that payload, from the device's address and with the protocol.
pub ipv4_receive-packet :
    (dev : NetDevice) (id dst_ip protocol : ℕ) (payload padding : List ℕ)
    → dev.ip < 2 ^ 32
    → protocol < 256
    → length payload ≤ 1500
    → (packet : List ℕ) × (ipv4_packet dev id dst_ip protocol payload ≡ some packet)
      × (length packet ≡ header_len + length payload)
      × (ipv4_receive (packet ++ padding)
          ≡ some (record { protocol = protocol; src = dev.ip; payload = payload }))
unfolding ipv4_packet
ipv4_receive-packet dev id dst_ip protocol payload padding fits lt short =
    let len = header_len + length payload in
    let (c, run, verified) = header_verifies len id protocol dev.ip dst_ip lt in
    (
      header len id protocol c dev.ip dst_ip payload,
      ap (Option.map (λ c'. header len id protocol c' dev.ip dst_ip payload)) run,
      omega arith,
      receive-header len id protocol c dev.ip dst_ip payload padding fits refl
          (omega (arith, short)) verified,
    )
