-- ===== src/Net/Ipv4.antt =====
-- kernel/net/ip/ipv4.c: packets as lists of their bytes.
pub mod Trip
use mathlib.Core.Option
use grace_os.Net.Checksum.{ipv4_checksum}
use grace_os.Net.Ethernet.{Mac, NetDevice, put16, put32, get16, get32}
use grace_os.Prelude.{
  ℕ, ◌+◌, ◌-◌, ◌*◌, ◌/◌, ◌%◌, ◌^◌, bit_and, Bool, false, ◌||◌, not, Option, none, some, List, [],
  ◌∷◌, map, ltb, ◌==◌, if◌then◌else◌, length, get_or, take, drop,
}

abbrev pub header_len : ℕ
header_len = 20

-- The identifier counter at the start.
abbrev pub ipv4_init : ℕ
ipv4_init = 1

-- `struct ipv4_header` with a checksum.
abbrev pub header : ℕ → ℕ → ℕ → ℕ → ℕ → ℕ → List ℕ → List ℕ
header len id protocol checksum src dst rest =
    0x45
    ∷ 0
    ∷ put16 len (put16 id (put16 0 (64 ∷ protocol ∷ put16 checksum (put32 src (put32 dst rest)))))

-- The header is filled in with a null checksum, the checksum computed of it and put in.
unfoldable pub ipv4_packet : NetDevice → ℕ → ℕ → ℕ → List ℕ → Option (List ℕ)
ipv4_packet dev id dst_ip protocol payload =
    let len = header_len + length payload in
    Option.map (λ c. header len id protocol c dev.ip dst_ip payload)
      (ipv4_checksum (header len id protocol 0 dev.ip dst_ip []))

unfoldable pub next_hop : NetDevice → ℕ → ℕ
next_hop dev dst_ip =
    if bit_and dst_ip dev.netmask == bit_and dev.ip dev.netmask then dst_ip else dev.gateway

-- What is given to `ethernet_send`, or none for -1, and the identifier counter. `resolve` is what the
-- bounded attempts of `arp_lookup` answer.
unfoldable pub ipv4_send :
    NetDevice → (ℕ → Option Mac) → ℕ → ℕ → ℕ → List ℕ → Option (Mac × List ℕ) × ℕ
ipv4_send dev resolve id dst_ip protocol payload =
    let sent : Option (Mac × List ℕ) × ℕ = elim (resolve (next_hop dev dst_ip)) [
      | none ↦ (none, id)
      | some mac ↦ (
        Option.map (λ packet. (mac, packet)) (ipv4_packet dev id dst_ip protocol payload),
        (id + 1) % 2 ^ 16,
      )
    ] in
    if ltb 1500 (length payload) then (none, id) else sent

-- What is given to the layer above.
pub record Datagram : Type 0 where
  pub protocol : ℕ
  pub src : ℕ
  pub payload : List ℕ

abbrev pub is_null : Option ℕ → Bool
is_null none = false
is_null (some c) = c == 0

unfoldable pub ipv4_receive : List ℕ → Option Datagram
ipv4_receive bytes =
    let len = length bytes in
    let ihl = get_or bytes 0 0 % 16 * 4 in
    let total_len = get16 bytes 2 in
    if ltb len header_len
    then none
    else if not (get_or bytes 0 0 / 16 == 4)
    then none
    else if ltb ihl header_len || ltb len ihl || not (ihl == header_len)
    then none
    else if ltb total_len ihl || ltb len total_len
    then none
    else if not (is_null (ipv4_checksum (take ihl bytes)))
    then none
    else some (record {
      protocol = get_or bytes 9 0;
      src = get32 bytes 12;
      payload = take (total_len - ihl) (drop ihl bytes);
    })
