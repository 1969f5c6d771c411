-- ===== src/Net/Tcp/Connect.antt =====
-- kernel/net/tcp/tcp.c: `tcp_connect`. What arrives while it polls is an argument: for each attempt to
-- send, whether it succeeds or else the segments received after it, and for each round of the wait the segments
-- received in it; the wait ends with the rounds, by the clock.
pub mod Opened
pub mod Ports
use grace_os.Net.Tcp.{
  TcpState, closed, syn_sent, established, TcpConn, Segment, u32, segment, syn, tcp_poll,
  is_established, is_closed,
}
use grace_os.Prelude.{
  ℕ, zero, suc, ◌+◌, ◌*◌, ◌/◌, ◌%◌, ◌^◌, bit_xor, Bool, true, false, ◌||◌, List, [], ◌∷◌, ltb, ◌==◌,
  if◌then◌else◌,
}

pub record TcpGlobals : Type 0 where
  pub isn_seed : ℕ
  pub ephemeral_port : ℕ

-- The seed after a call, and the number.
unfoldable pub generate_isn : ℕ → ℕ → ℕ → ℕ → ℕ × ℕ
generate_isn isn_seed remote_ip remote_port local_port =
    let seed = (isn_seed + 0x9e3779b9) % 2 ^ 32 in
    let mixed =
      bit_xor (bit_xor (bit_xor seed remote_ip) (remote_port * 65536 % 2 ^ 32)) local_port in
    let spread = bit_xor mixed (mixed / 65536) * 0x45d9f3b % 2 ^ 32 in
    let h = bit_xor spread (spread / 65536) in (seed, if h == 0 then 1 else h)

-- The counter after a call, and the port.
unfoldable pub alloc_local_port : ℕ → ℕ × ℕ
alloc_local_port port =
    let next = (port + 1) % 65536 in (if next == 0 || ltb 65534 next then 49152 else next, port)

pub data Attempt : Type 0 where
  sent : Attempt
  unsent : List Segment → Attempt

-- After an attempt, with the attempts that would follow it.
abbrev pub after_attempt : Attempt → TcpConn → (TcpConn → Bool × TcpConn) → Bool × TcpConn
after_attempt sent conn again = (true, record conn { seq = u32 (conn.seq + 1) })
after_attempt (unsent ss) conn again = again (tcp_poll conn ss)

-- `n` attempts from the attempt `i` on: whether one succeeded.
unfoldable pub send_syn : (ℕ → Attempt) → ℕ → ℕ → TcpConn → Bool × TcpConn
send_syn attempts zero i conn = (false, conn)
send_syn attempts (suc n) i conn = after_attempt (attempts i) conn (send_syn attempts n (i + 1))

unfoldable pub wait_syn_ack : List (List Segment) → TcpConn → Bool × TcpConn
wait_syn_ack [] conn = (false, record conn { state = closed })
wait_syn_ack (ss ∷ rounds) conn =
    let conn1 = tcp_poll conn ss in
    let rest = wait_syn_ack rounds conn1 in
    if is_established conn1.state
    then (true, conn1)
    else if is_closed conn1.state
    then (false, conn1)
    else rest

abbrev pub tcp_syn_send_retries : ℕ
tcp_syn_send_retries = 4

-- The connection that is begun.
unfoldable pub new_conn : TcpGlobals → ℕ → ℕ → TcpConn
new_conn g remote_ip remote_port =
    let local_port = (alloc_local_port g.ephemeral_port).1 in
    record {
      state = syn_sent;
      remote_ip = remote_ip;
      remote_port = remote_port;
      local_port = local_port;
      seq = (generate_isn g.isn_seed remote_ip remote_port local_port).1;
      ack = 0;
      remote_seq = 0;
      recv_buf = λ i. 0;
      recv_head = 0;
      recv_tail = 0;
      recv_closed = false;
    }

-- What follows the attempts.
abbrev pub connect_wait : List (List Segment) → Bool × TcpConn → Bool × TcpConn
connect_wait rounds (false, conn) = (false, record conn { state = closed })
connect_wait rounds (true, conn) = wait_syn_ack rounds conn

-- True is 0, false is -1. `dev` is whether there is a device; without one, nothing is touched.
unfoldable pub tcp_connect :
    Bool
    → TcpConn
    → TcpGlobals
    → (ℕ → Attempt)
    → List (List Segment)
    → ℕ
    → ℕ
    → Bool × TcpConn × TcpGlobals
tcp_connect dev conn g attempts rounds remote_ip remote_port =
    let (port', local_port) = alloc_local_port g.ephemeral_port in
    let (seed', isn) = generate_isn g.isn_seed remote_ip remote_port local_port in
    let (ok, conn1) =
      connect_wait rounds
        (send_syn attempts tcp_syn_send_retries 0 (new_conn g remote_ip remote_port)) in
    if dev
    then (ok, conn1, record { isn_seed = seed'; ephemeral_port = port' })
    else (false, conn, g)
