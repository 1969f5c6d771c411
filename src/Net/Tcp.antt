-- ===== src/Net/Tcp.antt =====
-- kernel/net/tcp/tcp.c: the connection, the segments built and received. A segment is its fields in the
-- host's order with the bytes behind them. What `tcp_receive` sends is a result, a list of segments: it
-- does not look at how the sending ends. A flag is tested by the bit, `x & f` with `f` a power of two.
pub mod Ring
pub mod Stream
pub mod Receive
pub mod Run
pub mod Ends
pub mod Steps
pub mod Wire
pub mod Connect
mod Tests
use grace_os.Prelude.{
  ℕ, zero, suc, ◌+◌, ◌-◌, ◌/◌, ◌%◌, ◌^◌, Bool, true, false, ◌&&◌, ◌||◌, not, Option, none, some,
  List, [], ◌∷◌, ◌++◌, ltb, leb, ◌==◌, if◌then◌else◌, length, take, put,
}

pub data TcpState : Type 0 where
  closed syn_sent established fin_wait : TcpState

pub record TcpConn : Type 0 where
  pub state : TcpState
  pub remote_ip : ℕ
  pub remote_port : ℕ
  pub local_port : ℕ
  pub seq : ℕ
  pub ack : ℕ
  pub remote_seq : ℕ
  pub recv_buf : ℕ → ℕ
  pub recv_head : ℕ
  pub recv_tail : ℕ
  pub recv_closed : Bool

-- `struct tcp_header` and what follows it.
pub record Segment : Type 0 where
  pub src_port : ℕ
  pub dst_port : ℕ
  pub seq_num : ℕ
  pub ack_num : ℕ
  pub flags : ℕ
  pub payload : List ℕ

abbrev pub recv_size : ℕ
recv_size = 65536

abbrev pub fin : ℕ
fin = 1

abbrev pub syn : ℕ
syn = 2

abbrev pub rst : ℕ
rst = 4

abbrev pub psh : ℕ
psh = 8

abbrev pub ack_flag : ℕ
ack_flag = 16

abbrev pub has : ℕ → ℕ → Bool
has flag flags = flags / flag % 2 == 1

abbrev pub u32 : ℕ → ℕ
u32 n = n % 2 ^ 32

-- The segment that `tcp_send_segment` builds.
unfoldable pub segment : TcpConn → ℕ → List ℕ → Segment
segment conn flags payload = record {
  src_port = conn.local_port;
  dst_port = conn.remote_port;
  seq_num = conn.seq;
  ack_num = if has ack_flag flags then conn.ack else 0;
  flags = flags;
  payload = payload;
}

-- The loop that copies bytes into the ring.
unfoldable pub push_bytes : List ℕ → TcpConn → TcpConn
push_bytes [] conn = conn
push_bytes (b ∷ bs) conn = push_bytes bs (record conn {
  recv_buf = put conn.recv_buf conn.recv_tail b;
  recv_tail = (conn.recv_tail + 1) % recv_size;
})

abbrev pub buf_used : TcpConn → ℕ
buf_used conn =
    if leb conn.recv_head conn.recv_tail
    then conn.recv_tail - conn.recv_head
    else recv_size - conn.recv_head + conn.recv_tail

abbrev pub buf_avail : TcpConn → ℕ
buf_avail conn = recv_size - buf_used conn - 1

-- What fits of a payload is copied, acknowledged first.
abbrev pub accept : TcpConn → List ℕ → TcpConn
accept conn payload =
    let to_copy =
      if ltb (length payload) (buf_avail conn) then length payload else buf_avail conn in
    push_bytes (take to_copy payload) (record conn { ack = u32 (conn.ack + to_copy) })

abbrev pub answered : TcpConn → TcpConn × List Segment
answered conn = (conn, segment conn ack_flag [] ∷ [])

-- `TCP_SYN_SENT`
unfoldable pub receive_syn_sent : TcpConn → Segment → TcpConn × List Segment
receive_syn_sent conn s =
    if has syn s.flags && has ack_flag s.flags
    then if s.ack_num == conn.seq
      then answered
          (record conn { ack = u32 (s.seq_num + 1); remote_seq = s.seq_num; state = established })
      else (conn, [])
    else if has rst s.flags
    then (record conn { state = closed }, [])
    else (conn, [])

-- The validation of the acknowledgement in `TCP_ESTABLISHED`.
abbrev pub advance : TcpConn → Segment → TcpConn
advance conn s =
    if has ack_flag s.flags && ltb conn.seq s.ack_num then record conn { seq = s.ack_num } else conn

abbrev pub take_data : TcpConn → Segment → TcpConn × List Segment
take_data conn s =
    if ltb 0 (length s.payload) && has ack_flag s.flags && s.seq_num == conn.ack
    then answered (accept conn s.payload)
    else (conn, [])

abbrev pub take_fin : Segment → TcpConn × List Segment → TcpConn × List Segment
take_fin s (conn, sent) =
    if has fin s.flags
    then (
      record conn { ack = u32 (conn.ack + 1); recv_closed = true; state = fin_wait },
      sent
          ++ (segment (record conn { ack = u32 (conn.ack + 1); recv_closed = true }) ack_flag []
              ∷ []),
    )
    else (conn, sent)

unfoldable pub receive_established : TcpConn → Segment → TcpConn × List Segment
receive_established conn s =
    if has rst s.flags
    then (record conn { state = closed; recv_closed = true }, [])
    else take_fin s (take_data (advance conn s) s)

unfoldable pub receive_fin_wait : TcpConn → Segment → TcpConn × List Segment
receive_fin_wait conn s =
    if has ack_flag s.flags then (record conn { state = closed }, []) else (conn, [])

abbrev pub receive_in : TcpState → TcpConn → Segment → TcpConn × List Segment
receive_in closed conn s = (conn, [])
receive_in syn_sent conn s = receive_syn_sent conn s
receive_in established conn s = receive_established conn s
receive_in fin_wait conn s = receive_fin_wait conn s

unfoldable pub tcp_receive : TcpConn → Segment → TcpConn × List Segment
tcp_receive conn s =
    if not (s.src_port == conn.remote_port) || not (s.dst_port == conn.local_port)
    then (conn, [])
    else receive_in conn.state conn s

-- The segments of the connection among the frames that a call drains.
unfoldable pub tcp_poll : TcpConn → List Segment → TcpConn
tcp_poll conn [] = conn
tcp_poll conn (s ∷ ss) = tcp_poll (tcp_receive conn s).0 ss

abbrev pub is_established : TcpState → Bool
is_established established = true
is_established _ = false

abbrev pub is_closed : TcpState → Bool
is_closed closed = true
is_closed _ = false

-- `sent_ok` is whether `ipv4_send` succeeds. None is -1.
unfoldable pub tcp_send : Bool → TcpConn → List ℕ → Option Segment × TcpConn
tcp_send sent_ok conn bytes =
    if not (is_established conn.state)
    then (none, conn)
    else if sent_ok
    then (
      some (segment conn (psh + ack_flag) bytes),
      record conn { seq = u32 (conn.seq + length bytes) },
    )
    else (none, conn)

unfoldable pub tcp_recv : ℕ → TcpConn → List ℕ × TcpConn
tcp_recv zero conn = ([], conn)
tcp_recv (suc max_len) conn =
    let (out, rest) =
      tcp_recv max_len (record conn { recv_head = (conn.recv_head + 1) % recv_size }) in
    if conn.recv_head == conn.recv_tail
    then ([], conn)
    else (conn.recv_buf conn.recv_head ∷ out, rest)

-- `tcp_close` up to its wait, and the end of it.
unfoldable pub close_begin : TcpConn → TcpConn × List Segment
close_begin conn =
    let conn1 = record conn { state = fin_wait } in
    if is_closed conn.state
    then (conn, [])
    else (record conn1 { seq = u32 (conn.seq + 1) }, segment conn1 (fin + ack_flag) [] ∷ [])

abbrev pub close_end : TcpConn → TcpConn
close_end conn = record conn { state = closed }
