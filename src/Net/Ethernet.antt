-- ===== src/Net/Ethernet.antt =====
-- kernel/net/net.h, kernel/net/ethernet/ethernet.c: devices and frames, as lists of their bytes. A field is
-- written and read in network order, which is what the byte swaps do on the little-endian machine.
use grace_os.Prelude.{
  ℕ, ◌+◌, ◌*◌, ◌/◌, ◌%◌, ◌≤◌, ◌<◌, ◌≡◌, refl, false, Option, none, some, List, ◌∷◌, ◌++◌, arith,
  ltb, if◌then◌else◌, length, get_or, drop,
}

-- `uint8_t mac[6]`
pub record Mac : Type 0 where
  pub m0 : ℕ
  pub m1 : ℕ
  pub m2 : ℕ
  pub m3 : ℕ
  pub m4 : ℕ
  pub m5 : ℕ

-- The fields of `struct net_device` that the layers read.
pub record NetDevice : Type 0 where
  pub mac : Mac
  pub ip : ℕ
  pub netmask : ℕ
  pub gateway : ℕ

-- `htons16`, `htonl32` and a store: the bytes in network order, in front of others.
abbrev pub put16 : ℕ → List ℕ → List ℕ
put16 v rest = v / 256 % 256 ∷ v % 256 ∷ rest

abbrev pub put32 : ℕ → List ℕ → List ℕ
put32 v rest = put16 (v / 65536) (put16 v rest)

abbrev pub put_mac : Mac → List ℕ → List ℕ
put_mac m rest = m.m0 ∷ m.m1 ∷ m.m2 ∷ m.m3 ∷ m.m4 ∷ m.m5 ∷ rest

-- A load and `ntohs16`, `ntohl32`.
abbrev pub get16 : List ℕ → ℕ → ℕ
get16 bytes i = get_or bytes i 0 * 256 + get_or bytes (i + 1) 0

abbrev pub get32 : List ℕ → ℕ → ℕ
get32 bytes i = get16 bytes i * 65536 + get16 bytes (i + 2)

abbrev pub get_mac : List ℕ → ℕ → Mac
get_mac bytes i = record {
  m0 = get_or bytes i 0;
  m1 = get_or bytes (i + 1) 0;
  m2 = get_or bytes (i + 2) 0;
  m3 = get_or bytes (i + 3) 0;
  m4 = get_or bytes (i + 4) 0;
  m5 = get_or bytes (i + 5) 0;
}

abbrev pub ethernet_max_payload : ℕ
ethernet_max_payload = 1500

abbrev pub ethernet_header_len : ℕ
ethernet_header_len = 14

-- What is given to the device, or none for -1.
unfoldable pub ethernet_send : NetDevice → Mac → ℕ → List ℕ → Option (List ℕ)
ethernet_send dev dst_mac ethertype payload =
    if ltb ethernet_max_payload (length payload)
    then none
    else some (put_mac dst_mac (put_mac dev.mac (put16 ethertype payload)))

-- The type and the payload of a frame that `ethernet_poll` got from the device; none if it is too short.
unfoldable pub ethernet_frame : List ℕ → Option (ℕ × List ℕ)
ethernet_frame frame =
    if ltb (length frame) ethernet_header_len
    then none
    else some (get16 frame 12, drop ethernet_header_len frame)

pub ethernet_frame-send :
    (dev : NetDevice) (dst_mac : Mac) (ethertype : ℕ) (payload padding : List ℕ)
    → ethertype < 65536
    → length payload ≤ ethernet_max_payload
    → (frame : List ℕ) × (ethernet_send dev dst_mac ethertype payload ≡ some frame)
      × (ethernet_frame (frame ++ padding) ≡ some (ethertype, payload ++ padding))
unfolding ethernet_send ethernet_frame
ethernet_frame-send dev dst_mac ethertype payload padding word short =
    let fits : ltb ethernet_max_payload (length payload) ≡ false = ground (arith, short) in
    let same : ethertype / 256 % 256 * 256 + ethertype % 256 ≡ ethertype = omega (arith, word) in
    let frame = put_mac dst_mac (put_mac dev.mac (put16 ethertype payload)) in
    let enough : ltb (length (frame ++ padding)) ethernet_header_len ≡ false = ground arith in
    (frame, rw fits refl, rw (enough, same) refl)
