-- ===== src/Net/Tcp/Connect/Opened.antt =====
-- kernel/net/tcp/tcp.c: a connection from its beginning on.
use grace_os.Net.Tcp.{
  ack_flag, closed, syn_sent, established, TcpConn, Segment, u32, has, rst, syn, receive_syn_sent,
  receive_in, tcp_receive, tcp_poll, is_established, is_closed,
}
use grace_os.Net.Tcp.Stream.{Carries, InStream, InStream-keep}
use grace_os.Net.Tcp.Receive.{tcp_receive-InStream}
use grace_os.Net.Tcp.Run.{Event, run, AllCarry, empty-InStream, InStream-Prefix}
use grace_os.Net.Tcp.Connect.{
  TcpGlobals, Attempt, sent, unsent, after_attempt, send_syn, wait_syn_ack, tcp_syn_send_retries,
  new_conn, connect_wait, tcp_connect,
}
use grace_os.Text.{Prefix}
use grace_os.Prelude.{
  ℕ, zero, suc, ◌+◌, ◌^◌, ◌<◌, ◌≡◌, refl, sym, ap, ◌∙◌, subst, ◌⊎◌, inl, inr, Bool, true, false,
  ◌&&◌, ◌||◌, not, List, [], ◌∷◌, arith, ◌==◌, Bool-cases, length,
}

abbrev has_syn_ack : Segment → Bool
has_syn_ack s = has syn s.flags && has ack_flag s.flags

-- A segment of the peer: no data or a part of its stream, and with SYN and ACK the number before the stream.
abbrev pub IsPeers : List ℕ → ℕ → Segment → Type 0
IsPeers stream base s =
    Carries stream base s × (has_syn_ack s ≡ true → u32 (s.seq_num + 1) ≡ u32 base)

abbrev pub ArePeers : List ℕ → ℕ → List Segment → Type 0
ArePeers stream base [] = Unit
ArePeers stream base (s ∷ ss) = IsPeers stream base s × ArePeers stream base ss

abbrev pub ArePeersRounds : List ℕ → ℕ → List (List Segment) → Type 0
ArePeersRounds stream base [] = Unit
ArePeersRounds stream base (ss ∷ rounds) =
    ArePeers stream base ss × ArePeersRounds stream base rounds

abbrev pub ArePeersAfter : List ℕ → ℕ → Attempt → Type 0
ArePeersAfter stream base sent = Unit
ArePeersAfter stream base (unsent ss) = ArePeers stream base ss

-- Waiting for the SYN and ACK with an empty ring, or in the stream.
abbrev IsOpening : List ℕ → ℕ → TcpConn → Type 0
IsOpening stream base conn =
    ((conn.state ≡ syn_sent) × (conn.recv_head ≡ 0) × (conn.recv_tail ≡ 0))
    ⊎ InStream stream base [] conn

module _ (stream : List ℕ) (base : ℕ) (short : length stream < 2 ^ 32) where
  syn_sent-IsOpening :
      (conn : TcpConn) (s : Segment)
      → IsPeers stream base s
      → conn.state ≡ syn_sent
      → conn.recv_head ≡ 0
      → conn.recv_tail ≡ 0
      → IsOpening stream base (receive_syn_sent conn s).0
  unfolding receive_syn_sent
  syn_sent-IsOpening conn s (c, numbered) e head tail = elim (Bool-cases (has_syn_ack s)) [
    | inl both ↦ elim (Bool-cases (s.ack_num == conn.seq)) [
      | inl right ↦
          rw (both, right)
            (inr (
              empty-InStream stream base short
                (record conn {
                  ack = u32 (s.seq_num + 1);
                  remote_seq = s.seq_num;
                  state = established;
                })
                (omega (arith, head)) (tail ∙ sym head) (λ _. numbered both) refl))
      | inr wrong ↦ rw (both, wrong) (inl (e, head, tail))
    ]
    | inr not_both ↦ elim (Bool-cases (has rst s.flags)) [
      | inl reset ↦
          rw (not_both, reset)
            (inr (
              empty-InStream stream base short (record conn { state = closed })
                (omega (arith, head)) (tail ∙ sym head) (λ f. absurd (ground (arith, f))) refl))
      | inr other ↦ rw (not_both, other) (inl (e, head, tail))
    ]
  ]

  receive-IsOpening :
      (conn : TcpConn) (s : Segment)
      → IsPeers stream base s
      → IsOpening stream base conn
      → IsOpening stream base (tcp_receive conn s).0
  unfolding tcp_receive
  receive-IsOpening conn s p (inr i) = inr (tcp_receive-InStream stream base [] conn s short p.0 i)
  receive-IsOpening conn s p (inl (e, head, tail)) =
      elim (Bool-cases
        (not (s.src_port == conn.remote_port) || not (s.dst_port == conn.local_port))) [
          | inl foreign ↦ rw foreign (inl (e, head, tail))
          | inr ours ↦ rw ours (
              subst (λ st. IsOpening stream base (receive_in st conn s).0) (sym e)
                (syn_sent-IsOpening conn s p e head tail))
        ]

  poll-IsOpening :
      (ss : List Segment) (conn : TcpConn)
      → ArePeers stream base ss
      → IsOpening stream base conn
      → IsOpening stream base (tcp_poll conn ss)
  unfolding tcp_poll
  poll-IsOpening [] conn p i = i
  poll-IsOpening (s ∷ ss) conn p i =
      poll-IsOpening ss (tcp_receive conn s).0 p.1 (receive-IsOpening conn s p.0 i)

  after_sent :
      (conn : TcpConn)
      → IsOpening stream base conn
      → IsOpening stream base (record conn { seq = u32 (conn.seq + 1) })
  after_sent conn (inl fresh) = inl fresh
  after_sent conn (inr i) = inr (
      InStream-keep stream base [] conn (record conn { seq = u32 (conn.seq + 1) }) refl refl refl
        (λ e. (e, refl)) i.6 i)

  after_attempt-IsOpening :
      (a : Attempt) (conn : TcpConn) (again : TcpConn → Bool × TcpConn)
      → ArePeersAfter stream base a
      → ((c : TcpConn) → IsOpening stream base c → IsOpening stream base (again c).1)
      → IsOpening stream base conn
      → IsOpening stream base (after_attempt a conn again).1
  after_attempt-IsOpening sent conn again p next o = after_sent conn o
  after_attempt-IsOpening (unsent ss) conn again p next o =
      next (tcp_poll conn ss) (poll-IsOpening ss conn p o)

  send_syn-IsOpening :
      (attempts : ℕ → Attempt) (n i : ℕ) (conn : TcpConn)
      → ((j : ℕ) → ArePeersAfter stream base (attempts j))
      → IsOpening stream base conn
      → IsOpening stream base (send_syn attempts n i conn).1
  unfolding send_syn
  send_syn-IsOpening attempts zero i conn p o = o
  send_syn-IsOpening attempts (suc n) i conn p o =
      after_attempt-IsOpening (attempts i) conn (send_syn attempts n (i + 1)) (p i)
        (λ c. send_syn-IsOpening attempts n (i + 1) c p) o

  wait-IsOpening :
      (rounds : List (List Segment)) (conn : TcpConn)
      → ArePeersRounds stream base rounds
      → IsOpening stream base conn
      → (wait_syn_ack rounds conn).0 ≡ true
      → IsOpening stream base (wait_syn_ack rounds conn).1
  unfolding wait_syn_ack
  wait-IsOpening [] conn p o = λ ok. absurd (ground (arith, ok))
  wait-IsOpening (ss ∷ rounds) conn p o =
      let polled = poll-IsOpening ss conn p.0 o in
      elim (Bool-cases (is_established (tcp_poll conn ss).state)) [
        | inl up ↦ rw up (λ ok. polled)
        | inr not_up ↦ elim (Bool-cases (is_closed (tcp_poll conn ss).state)) [
          | inl down ↦ rw (not_up, down) (λ ok. polled)
          | inr waiting ↦ rw (not_up, waiting) (wait-IsOpening rounds (tcp_poll conn ss) p.1 polled)
        ]
      ]

-- What a result says of the state.
abbrev pub Tells : Bool × TcpConn → Type 0
Tells (ok, conn) =
    (ok ≡ true → is_established conn.state ≡ true) × (ok ≡ false → is_closed conn.state ≡ true)

wait-Tells : (rounds : List (List Segment)) (conn : TcpConn) → Tells (wait_syn_ack rounds conn)
unfolding wait_syn_ack
wait-Tells [] conn = (λ e. absurd (ground (arith, e)), λ e. refl)
wait-Tells (ss ∷ rounds) conn = elim (Bool-cases (is_established (tcp_poll conn ss).state)) [
  | inl up ↦ rw up (λ e. up, λ e. absurd (ground (arith, e)))
  | inr not_up ↦ elim (Bool-cases (is_closed (tcp_poll conn ss).state)) [
    | inl down ↦ rw (not_up, down) (λ e. absurd (ground (arith, e)), λ e. down)
    | inr waiting ↦ rw (not_up, waiting) (wait-Tells rounds (tcp_poll conn ss))
  ]
]

connect_wait-Tells :
    (rounds : List (List Segment)) (r : Bool × TcpConn) → Tells (connect_wait rounds r)
connect_wait-Tells rounds (false, conn) = (λ e. absurd (ground (arith, e)), λ e. refl)
connect_wait-Tells rounds (true, conn) = wait-Tells rounds conn

connect_wait-InStream :
    (stream : List ℕ) (base : ℕ)
    → length stream < 2 ^ 32
    → (rounds : List (List Segment)) (r : Bool × TcpConn) → ArePeersRounds stream base rounds
    → IsOpening stream base r.1
    → (connect_wait rounds r).0 ≡ true
    → InStream stream base [] (connect_wait rounds r).1
connect_wait-InStream stream base short rounds (false, conn) p o ok = absurd (ground (arith, ok))
connect_wait-InStream stream base short rounds (true, conn) p o ok =
    let up = (wait-Tells rounds conn).0 ok in
    elim (wait-IsOpening stream base short rounds conn p o ok) [
      | inl (e, head, tail) ↦ absurd (ground (arith, sym up ∙ ap is_established e))
      | inr i ↦ i
    ]

-- Without a device, `tcp_connect` fails and touches nothing. With one, it succeeds with the connection
-- established, and fails with it closed. When it succeeds, and the segments that arrived from its
-- beginning on were the peer's, its SYN and ACK numbered just before its stream of less than 4 GB,
-- then whatever happens to the connection afterwards, with segments without data or with parts of that
-- stream, what is read from it is a beginning of that stream.
pub tcp_connect-read :
    (dev : Bool) (stream : List ℕ) (base : ℕ) (before : TcpConn) (g : TcpGlobals)
    (attempts : ℕ → Attempt) (rounds : List (List Segment)) (remote_ip remote_port : ℕ)
    → length stream < 2 ^ 32
    → ((j : ℕ) → ArePeersAfter stream base (attempts j))
    → ArePeersRounds stream base rounds
    → (ok : Bool) × (conn : TcpConn) × (g' : TcpGlobals) × (tcp_connect dev before g attempts rounds
          remote_ip remote_port
        ≡ (ok, conn, g'))
      × (dev ≡ false → (ok ≡ false) × (conn ≡ before) × (g' ≡ g))
      × (dev ≡ true → Tells (ok, conn))
      × (ok ≡ true
          → (es : List Event) → AllCarry stream base es
          → Prefix (run (conn, []) es).1 stream)
unfolding tcp_connect new_conn
tcp_connect-read false stream base before g attempts rounds remote_ip remote_port short p q = (
  false,
  before,
  g,
  refl,
  λ e. (refl, refl, refl),
  λ e. absurd (ground (arith, e)),
  λ e. absurd (ground (arith, e)),
)
tcp_connect-read true stream base before g attempts rounds remote_ip remote_port short p q =
    let begun = new_conn g remote_ip remote_port in
    let tried = send_syn attempts tcp_syn_send_retries 0 begun in
    let opening =
      send_syn-IsOpening stream base short attempts tcp_syn_send_retries 0 begun p
        (inl (refl, refl, refl)) in
    (
      (connect_wait rounds tried).0,
      (connect_wait rounds tried).1,
      (tcp_connect true before g attempts rounds remote_ip remote_port).2,
      refl,
      λ e. absurd (ground (arith, e)),
      λ e. connect_wait-Tells rounds tried,
      λ ok es c.
          InStream-Prefix stream base (connect_wait rounds tried).1 es short
            (connect_wait-InStream stream base short rounds tried q opening ok) c,
    )
