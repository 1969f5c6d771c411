-- ===== src/Net/Tcp/Wire.antt =====
-- kernel/net/tcp/tcp.c, kernel/net/ip/ipv4.c, kernel/net/ethernet/ethernet.c: a segment as bytes, from
-- `tcp_send_segment` down to the device and from `ethernet_poll` up to `tcp_receive`.
pub mod Deliver
pub mod Sums
use mathlib.Core.Option
use grace_os.Net.Checksum.{sum_words, fold_carries, fold_rounds, complement}
use grace_os.Net.Ethernet.{
  Mac, NetDevice, put16, put32, get16, get32, ethernet_send, ethernet_frame,
}
use grace_os.Net.Ipv4.{Datagram, ipv4_send, ipv4_receive}
use grace_os.Net.Tcp.{TcpConn, Segment, segment}
use grace_os.Prelude.{
  ℕ, ◌+◌, ◌*◌, ◌/◌, ◌%◌, ◌||◌, Option, none, some, List, ◌∷◌, map, ltb, ◌==◌, if◌then◌else◌, length,
  get_or, drop, ◌>>=◌,
}

abbrev pub ip_proto_tcp : ℕ
ip_proto_tcp = 6

abbrev pub tcp_header_len : ℕ
tcp_header_len = 20

-- The words of the pseudo-header.
abbrev pub pseudo_sum : ℕ → ℕ → ℕ → ℕ
pseudo_sum src_ip dst_ip len =
    src_ip / 65536 % 65536
    + src_ip % 65536
    + dst_ip / 65536 % 65536
    + dst_ip % 65536
    + ip_proto_tcp
    + len % 65536

unfoldable pub tcp_checksum : ℕ → ℕ → List ℕ → Option ℕ
tcp_checksum src_ip dst_ip tcp_seg =
    Option.map complement
      (fold_carries fold_rounds (sum_words (pseudo_sum src_ip dst_ip (length tcp_seg)) tcp_seg))

-- `struct tcp_header` with a checksum, and the data.
abbrev pub tcp_header : Segment → ℕ → List ℕ
tcp_header s checksum = put16 s.src_port (
    put16 s.dst_port (
      put32 s.seq_num
        (put32 s.ack_num (0x50 ∷ s.flags ∷ put16 4096 (put16 checksum (put16 0 s.payload))))))

-- The bytes that `tcp_send_segment` gives to `ipv4_send`.
unfoldable pub segment_bytes : NetDevice → TcpConn → ℕ → List ℕ → Option (List ℕ)
segment_bytes dev conn flags payload =
    let s = segment conn flags payload in
    Option.map (λ c. tcp_header s c) (tcp_checksum dev.ip conn.remote_ip (tcp_header s 0))

-- The frame that the device gets, or none for -1.
unfoldable pub tcp_send_segment :
    NetDevice → (ℕ → Option Mac) → ℕ → TcpConn → ℕ → List ℕ → Option (List ℕ)
tcp_send_segment dev resolve id conn flags payload =
    segment_bytes dev conn flags payload
    >>= (λ bytes. (ipv4_send dev resolve id conn.remote_ip ip_proto_tcp bytes).0)
    >>= (λ packet. ethernet_send dev packet.0 0x0800 packet.1)

-- The case for TCP of `ipv4_receive`: what is given to `tcp_receive`.
unfoldable pub dispatch_tcp : List ℕ → Option Segment
dispatch_tcp payload =
    let tcp_hdr_len = get_or payload 12 0 / 16 * 4 in
    if ltb (length payload) tcp_header_len
    then none
    else if ltb tcp_hdr_len tcp_header_len || ltb (length payload) tcp_hdr_len
    then none
    else some (record {
      src_port = get16 payload 0;
      dst_port = get16 payload 2;
      seq_num = get32 payload 4;
      ack_num = get32 payload 8;
      flags = get_or payload 13 0;
      payload = drop tcp_hdr_len payload;
    })

abbrev pub if_tcp : Datagram → Option Segment
if_tcp d = if d.protocol == ip_proto_tcp then dispatch_tcp d.payload else none

abbrev pub if_ipv4 : ℕ × List ℕ → Option Segment
if_ipv4 (ethertype, payload) = if ethertype == 0x0800 then ipv4_receive payload >>= if_tcp else none

-- The segment in a frame that `ethernet_poll` gets.
unfoldable pub poll_segment : List ℕ → Option Segment
poll_segment frame = ethernet_frame frame >>= if_ipv4
