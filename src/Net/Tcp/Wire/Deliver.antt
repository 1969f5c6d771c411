-- ===== src/Net/Tcp/Wire/Deliver.antt =====
-- kernel/net/tcp/tcp.c, kernel/net/ip/ipv4.c, kernel/net/ethernet/ethernet.c: a segment that is sent reaches
-- `tcp_receive` as it was built.
use mathlib.Core.Option
use grace_os.Net.Checksum.{sum_words, complement}
use grace_os.Net.Checksum.Verify.{sum_words-lt, fold_carries_lem}
use grace_os.Net.Ethernet.{Mac, NetDevice, ethernet_send, ethernet_frame, ethernet_frame-send}
use grace_os.Net.Ipv4.{next_hop, ipv4_packet, ipv4_send, ipv4_receive}
use grace_os.Net.Ipv4.Trip.{ipv4_receive-packet}
use grace_os.Net.Tcp.{TcpConn, Segment, segment}
use grace_os.Net.Tcp.Wire.{
  ip_proto_tcp, tcp_header_len, pseudo_sum, tcp_checksum, tcp_header, segment_bytes,
  tcp_send_segment, dispatch_tcp, if_tcp, if_ipv4, poll_segment,
}
use grace_os.Prelude.{
  ℕ, ◌+◌, ◌*◌, ◌/◌, ◌%◌, ◌^◌, ◌≤◌, ◌<◌, ◌≡◌, refl, ap, ◌∙◌, false, Option, some, List, ◌++◌, arith,
  ltb, length, ◌>>=◌,
}

-- The fields fit in their bytes.
abbrev pub IsSegment : Segment → Type 0
IsSegment s =
    (s.src_port < 65536)
    × (s.dst_port < 65536)
    × (s.seq_num < 2 ^ 32)
    × (s.ack_num < 2 ^ 32)
    × (s.flags < 256)

-- A checksum is always computed.
tcp_checksum-some :
    (src_ip dst_ip : ℕ) (bytes : List ℕ) → (c : ℕ) × (tcp_checksum src_ip dst_ip bytes ≡ some c)
unfolding tcp_checksum
tcp_checksum-some src_ip dst_ip bytes =
    let start = pseudo_sum src_ip dst_ip (length bytes) in
    let (f, run, keeps) =
      fold_carries_lem (sum_words start bytes) (sum_words-lt start bytes (omega arith)) in
    (complement f, ap (Option.map complement) run)

put16_get : (v : ℕ) → v < 65536 → v / 256 % 256 * 256 + v % 256 ≡ v
put16_get v lt = omega (arith, lt)

put32_get :
    (v : ℕ)
    → v < 2 ^ 32
    → (v / 65536 / 256 % 256 * 256 + v / 65536 % 256) * 65536 + (v / 256 % 256 * 256 + v % 256) ≡ v
put32_get v lt = omega (arith, lt)

dispatch_tcp-header : (s : Segment) (c : ℕ) → IsSegment s → dispatch_tcp (tcp_header s c) ≡ some s
unfolding dispatch_tcp
dispatch_tcp-header s c (src, dst, seq, ack, flags) =
    let enough : ltb (length (tcp_header s c)) tcp_header_len ≡ false = ground arith in
    rw
      (
        enough,
        put16_get s.src_port src,
        put16_get s.dst_port dst,
        put32_get s.seq_num seq,
        put32_get s.ack_num ack,
      )
      refl

-- What `ipv4_send` gives to `ethernet_send` when the next hop is known.
ipv4_send-packet :
    (dev : NetDevice) (resolve : ℕ → Option Mac) (id dst_ip protocol : ℕ) (payload packet : List ℕ)
    (mac : Mac)
    → length payload ≤ 1500
    → resolve (next_hop dev dst_ip) ≡ some mac
    → ipv4_packet dev id dst_ip protocol payload ≡ some packet
    → (ipv4_send dev resolve id dst_ip protocol payload).0 ≡ some (mac, packet)
unfolding ipv4_send
ipv4_send-packet dev resolve id dst_ip protocol payload packet mac short known built =
    let fits : ltb 1500 (length payload) ≡ false = ground (arith, short) in
    rw (fits, known, built) refl

-- The connection's numbers fit in the fields.
abbrev pub HasWords : TcpConn → Type 0
HasWords conn =
    (conn.local_port < 65536)
    × (conn.remote_port < 65536)
    × (conn.seq < 2 ^ 32)
    × (conn.ack < 2 ^ 32)

segment-IsSegment :
    (conn : TcpConn) (flags : ℕ) (payload : List ℕ)
    → HasWords conn
    → flags < 256
    → IsSegment (segment conn flags payload)
unfolding segment
segment-IsSegment conn flags payload (src, dst, seq, ack) lt =
    (src, dst, seq, ground (arith, ack), lt)

-- Up from the device.
poll_frame :
    (frame packet : List ℕ) (padding bytes : List ℕ) (src_ip : ℕ) (s : Segment)
    → ethernet_frame (frame ++ padding) ≡ some (0x0800, packet ++ padding)
    → ipv4_receive (packet ++ padding)
      ≡ some (record { protocol = ip_proto_tcp; src = src_ip; payload = bytes })
    → dispatch_tcp bytes ≡ some s
    → poll_segment (frame ++ padding) ≡ some s
unfolding poll_segment
poll_frame frame packet padding bytes src_ip s framed received parsed =
    ap (λ r. r >>= if_ipv4) framed ∙ (ap (λ r. r >>= if_tcp) received ∙ parsed)

-- A segment with at most 1460 bytes of data whose next hop is resolved is put into a frame, and the end that polls
-- that frame, also with padding behind it, gets the same segment.
pub tcp_send_segment-poll :
    (dev : NetDevice) (resolve : ℕ → Option Mac) (id : ℕ) (conn : TcpConn) (flags : ℕ)
    (payload padding : List ℕ) (mac : Mac)
    → dev.ip < 2 ^ 32
    → HasWords conn
    → flags < 256
    → length payload ≤ 1460
    → resolve (next_hop dev conn.remote_ip) ≡ some mac
    → (frame : List ℕ) × (tcp_send_segment dev resolve id conn flags payload ≡ some frame)
      × (poll_segment (frame ++ padding) ≡ some (segment conn flags payload))
unfolding tcp_send_segment segment_bytes
tcp_send_segment-poll dev resolve id conn flags payload padding mac own words lt short known =
    let s = segment conn flags payload in
    let (c, summed) = tcp_checksum-some dev.ip conn.remote_ip (tcp_header s 0) in
    let bytes = tcp_header s c in
    let same : length s.payload ≡ length payload = unfold segment in refl in
    let (packet, built, size, received) =
      ipv4_receive-packet dev id conn.remote_ip ip_proto_tcp bytes padding own (omega arith)
        (omega (arith, same, short)) in
    let (frame, framed, polled) =
      ethernet_frame-send dev mac 0x0800 packet padding (omega arith)
        (omega (arith, size, same, short)) in
    let sent =
      ipv4_send-packet dev resolve id conn.remote_ip ip_proto_tcp bytes packet mac
        (omega (arith, same, short)) known built in
    (
      frame,
      ap
            (λ o.
              Option.map (λ c'. tcp_header s c') o
              >>= (λ b. (ipv4_send dev resolve id conn.remote_ip ip_proto_tcp b).0)
              >>= (λ p. ethernet_send dev p.0 0x0800 p.1))
            summed
          ∙ (ap (λ o. o >>= (λ p. ethernet_send dev p.0 0x0800 p.1)) sent ∙ framed),
      poll_frame frame packet padding bytes dev.ip s polled received
          (dispatch_tcp-header s c (segment-IsSegment conn flags payload words lt)),
    )
