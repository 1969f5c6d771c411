-- ===== src/Net/Tcp/Receive.antt =====
-- kernel/net/tcp/tcp.c: every case of `tcp_receive` keeps the ring in the peer's stream.
use grace_os.Net.Tcp.{
  ack_flag, TcpState, closed, syn_sent, established, fin_wait, TcpConn, Segment, u32, has, rst, fin,
  advance, take_data, take_fin, receive_established, receive_fin_wait, receive_in, tcp_receive,
  is_established,
}
use grace_os.Prelude.{
  ℕ, ◌+◌, ◌^◌, ◌<◌, ◌≡◌, refl, sym, ap, ◌∙◌, inl, inr, Bool, true, ◌&&◌, ◌||◌, not, List, arith,
  ltb, ◌==◌, ltb→lt, Bool-cases, length,
}
use grace_os.Net.Tcp.Stream.{is_syn, Carries, InStream, InStream-keep, accept-InStream}

-- The cases of `tcp_receive`, on the connection alone.
module _ (stream : List ℕ) (base : ℕ) (read : List ℕ) where
  advance-InStream :
      (conn : TcpConn) (s : Segment)
      → InStream stream base read conn
      → InStream stream base read (advance conn s)
  advance-InStream conn s i = elim (Bool-cases (has ack_flag s.flags && ltb conn.seq s.ack_num)) [
    | inl newer ↦ rw newer (
        InStream-keep stream base read conn (record conn { seq = s.ack_num }) refl refl refl
          (λ e. (e, refl)) i.6 i)
    | inr older ↦ rw older i
  ]

  advance-same :
      (conn : TcpConn) (s : Segment)
      → ((advance conn s).state ≡ conn.state) × ((advance conn s).ack ≡ conn.ack)
  advance-same conn s = ground arith

  take_data-InStream :
      (conn : TcpConn) (s : Segment)
      → length stream < 2 ^ 32
      → Carries stream base s
      → is_established conn.state ≡ true
      → InStream stream base read conn
      → InStream stream base read (take_data conn s).0
  take_data-InStream conn s short c est i =
      elim (Bool-cases
        (ltb 0 (length s.payload) && has ack_flag s.flags && s.seq_num == conn.ack)) [
          | inl ok ↦ elim c [
            | inl none_there ↦ absurd (
                omega
                  (arith, ap length none_there, ltb→lt 0 (length s.payload) (ground (arith, ok))))
            | inr part ↦
                rw ok
                  (accept-InStream stream base read conn s short part est (ground (arith, ok)) i)
          ]
          | inr bad ↦ rw bad i
        ]

  take_fin-InStream :
      (r : TcpConn × List Segment) (s : Segment)
      → InStream stream base read r.0
      → InStream stream base read (take_fin s r).0
  take_fin-InStream (conn, sent) s i = elim (Bool-cases (has fin s.flags)) [
    | inl ends ↦ rw ends (
        InStream-keep stream base read conn
          (record conn { ack = u32 (conn.ack + 1); recv_closed = true; state = fin_wait }) refl refl
          refl (λ e. absurd (ground (arith, e))) refl i)
    | inr goes_on ↦ rw goes_on i
  ]

  closed-InStream :
      (conn : TcpConn) (ended : Bool)
      → InStream stream base read conn
      → InStream stream base read (record conn { state = closed; recv_closed = ended })
  closed-InStream conn ended i =
      InStream-keep stream base read conn (record conn { state = closed; recv_closed = ended }) refl
        refl refl (λ e. absurd (ground (arith, e))) refl i

  receive_established-InStream :
      (conn : TcpConn) (s : Segment)
      → length stream < 2 ^ 32
      → Carries stream base s
      → is_established conn.state ≡ true
      → InStream stream base read conn
      → InStream stream base read (receive_established conn s).0
  unfolding receive_established
  receive_established-InStream conn s short c est i = elim (Bool-cases (has rst s.flags)) [
    | inl reset ↦ rw reset (closed-InStream conn true i)
    | inr on ↦
        let est' = ap is_established (advance-same conn s).0 ∙ est in
        rw on (
          take_fin-InStream (take_data (advance conn s) s) s
            (take_data-InStream (advance conn s) s short c est' (advance-InStream conn s i)))
  ]

  receive_fin_wait-InStream :
      (conn : TcpConn) (s : Segment)
      → InStream stream base read conn
      → InStream stream base read (receive_fin_wait conn s).0
  unfolding receive_fin_wait
  receive_fin_wait-InStream conn s i = elim (Bool-cases (has ack_flag s.flags)) [
    | inl ok ↦ rw ok (closed-InStream conn conn.recv_closed i)
    | inr bad ↦ rw bad i
  ]

  receive_in-InStream :
      (st : TcpState) (conn : TcpConn) (s : Segment)
      → length stream < 2 ^ 32
      → Carries stream base s
      → conn.state ≡ st
      → InStream stream base read conn
      → InStream stream base read (receive_in st conn s).0
  receive_in-InStream closed conn s short c e i = i
  receive_in-InStream syn_sent conn s short c e i = absurd (ground (arith, sym (ap is_syn e) ∙ i.6))
  receive_in-InStream established conn s short c e i =
      receive_established-InStream conn s short c (ap is_established e) i
  receive_in-InStream fin_wait conn s short c e i = receive_fin_wait-InStream conn s i

  pub tcp_receive-InStream :
      (conn : TcpConn) (s : Segment)
      → length stream < 2 ^ 32
      → Carries stream base s
      → InStream stream base read conn
      → InStream stream base read (tcp_receive conn s).0
  unfolding tcp_receive
  tcp_receive-InStream conn s short c i =
      elim (Bool-cases
        (not (s.src_port == conn.remote_port) || not (s.dst_port == conn.local_port))) [
          | inl foreign ↦ rw foreign i
          | inr ours ↦ rw ours (receive_in-InStream conn.state conn s short c refl i)
        ]
