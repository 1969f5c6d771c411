-- ===== src/Net/Tcp/Run.antt =====
-- kernel/net/tcp/tcp.c: runs of a connection.
use grace_os.Net.Tcp.{
  established, fin_wait, TcpConn, Segment, recv_size, u32, tcp_receive, tcp_recv, tcp_send,
  close_begin, is_established, is_closed,
}
use grace_os.Net.Tcp.Ring.{tcp_recv-Reads}
use grace_os.Net.Tcp.Stream.{is_syn, Carries, InStream, InStream-keep}
use grace_os.Net.Tcp.Receive.{tcp_receive-InStream}
use grace_os.Text.{Prefix}
use grace_os.Prelude.{
  ℕ, ◌+◌, ◌^◌, ◌<◌, ◌≡◌, refl, sym, ap, ◌∙◌, inl, inr, Bool, true, false, not, List, [], ◌∷◌, ◌++◌,
  append_assoc, arith, Bool-cases, length, drop, take-append-drop,
}

-- What happens to a connection: a segment arrives, bytes are read, bytes are sent, it is closed.
pub data Event : Type 0 where
  arrives : Segment → Event
  reads : ℕ → Event
  sends : Bool → List ℕ → Event
  closes : Event

-- The connection and what was read of it.
abbrev pub step : TcpConn × List ℕ → Event → TcpConn × List ℕ
step (conn, read) (arrives s) = ((tcp_receive conn s).0, read)
step (conn, read) (reads n) = ((tcp_recv n conn).1, read ++ (tcp_recv n conn).0)
step (conn, read) (sends ok bytes) = ((tcp_send ok conn bytes).1, read)
step (conn, read) closes = ((close_begin conn).0, read)

unfoldable pub run : TcpConn × List ℕ → List Event → TcpConn × List ℕ
run r [] = r
run r (e ∷ es) = run (step r e) es

abbrev pub CarriesIn : List ℕ → ℕ → Event → Type 0
CarriesIn stream base (arrives s) = Carries stream base s
CarriesIn stream base (reads n) = Unit
CarriesIn stream base (sends ok bytes) = Unit
CarriesIn stream base closes = Unit

-- Every segment that arrives is a part of the stream.
abbrev pub AllCarry : List ℕ → ℕ → List Event → Type 0
AllCarry stream base [] = Unit
AllCarry stream base (e ∷ es) = CarriesIn stream base e × AllCarry stream base es

-- A connection just established, with `base` expected.
pub record IsOpened (base : ℕ) (conn : TcpConn) : Type 0 where
  pub state : conn.state ≡ established
  pub ack : conn.ack ≡ u32 base
  pub head_in : conn.recv_head < recv_size
  pub empty : conn.recv_tail ≡ conn.recv_head

module _ (stream : List ℕ) (base : ℕ) (short : length stream < 2 ^ 32) where
  pub empty-InStream :
      (conn : TcpConn)
      → conn.recv_head < recv_size
      → conn.recv_tail ≡ conn.recv_head
      → (is_established conn.state ≡ true → conn.ack ≡ u32 base)
      → is_syn conn.state ≡ false
      → InStream stream base [] conn
  empty-InStream conn head_in empty next old = (
    0,
    [],
    omega arith,
    record {
      head_in = head_in;
      tail = omega (arith, empty, head_in);
      room = omega arith;
      each = λ i lt. absurd (omega (arith, lt));
    },
    refl,
    λ e. next e ∙ ap u32 (omega arith),
    old,
  )

  reads-InStream :
      (n : ℕ) (conn : TcpConn) (read : List ℕ)
      → InStream stream base read conn
      → InStream stream base (read ++ (tcp_recv n conn).0) (tcp_recv n conn).1
  reads-InStream n conn read (m, held, le, v, whole, next, old) =
      let (out, rest, state, ack) = tcp_recv-Reads n conn held v in
      (
        m,
        drop n held,
        le,
        rest,
        append_assoc read (tcp_recv n conn).0 (drop n held)
            ∙ ap (λ t. read ++ t) (ap (λ t. t ++ drop n held) out ∙ take-append-drop n held)
            ∙ whole,
        λ e. ack ∙ next (sym (ap is_established state) ∙ e),
        ap is_syn state ∙ old,
      )

  sends-InStream :
      (ok : Bool) (bytes : List ℕ) (conn : TcpConn) (read : List ℕ)
      → InStream stream base read conn
      → InStream stream base read (tcp_send ok conn bytes).1
  unfolding tcp_send
  sends-InStream ok bytes conn read i = elim (Bool-cases (not (is_established conn.state))) [
    | inl idle ↦ rw idle i
    | inr live ↦ elim (Bool-cases ok) [
      | inl good ↦
          rw (live, good)
            (InStream-keep stream base read conn
              (record conn { seq = u32 (conn.seq + length bytes) }) refl refl refl (λ e. (e, refl))
              i.6 i)
      | inr bad ↦ rw (live, bad) i
    ]
  ]

  closes-InStream :
      (conn : TcpConn) (read : List ℕ)
      → InStream stream base read conn
      → InStream stream base read (close_begin conn).0
  unfolding close_begin
  closes-InStream conn read i = elim (Bool-cases (is_closed conn.state)) [
    | inl done ↦ rw done i
    | inr live ↦ rw live (
        InStream-keep stream base read conn
          (record conn { state = fin_wait; seq = u32 (conn.seq + 1) }) refl refl refl
          (λ e. absurd (ground (arith, e))) refl i)
  ]

  step-InStream :
      (conn : TcpConn) (read : List ℕ) (e : Event)
      → CarriesIn stream base e
      → InStream stream base read conn
      → InStream stream base (step (conn, read) e).1 (step (conn, read) e).0
  step-InStream conn read (arrives s) c i = tcp_receive-InStream stream base read conn s short c i
  step-InStream conn read (reads n) c i = reads-InStream n conn read i
  step-InStream conn read (sends ok bytes) c i = sends-InStream ok bytes conn read i
  step-InStream conn read closes c i = closes-InStream conn read i

  pub run-InStream :
      (es : List Event) (conn : TcpConn) (read : List ℕ)
      → AllCarry stream base es
      → InStream stream base read conn
      → InStream stream base (run (conn, read) es).1 (run (conn, read) es).0
  unfolding run
  run-InStream [] conn read c i = i
  run-InStream (e ∷ es) conn read c i =
      run-InStream es (step (conn, read) e).0 (step (conn, read) e).1 c.1
        (step-InStream conn read e c.0 i)

-- Of a connection in order, what is read is a beginning of the stream.
pub InStream-Prefix :
    (stream : List ℕ) (base : ℕ) (conn : TcpConn) (es : List Event)
    → length stream < 2 ^ 32
    → InStream stream base [] conn
    → AllCarry stream base es
    → Prefix (run (conn, []) es).1 stream
InStream-Prefix stream base conn es short i c =
    let (n, held, le, v, whole, next, old) = run-InStream stream base short es conn [] c i in
    (
      held ++ drop n stream,
      sym (take-append-drop n stream)
          ∙ ap (λ t. t ++ drop n stream) (sym whole)
          ∙ append_assoc (run (conn, []) es).1 held (drop n stream),
    )

-- Whatever segments without data or with a part of the peer's stream arrive, lost, repeated or in any
-- order, and whatever else happens to a connection just established, what was read is a beginning of
-- the stream, if that is shorter than 4 GB.
pub read-Prefix :
    (stream : List ℕ) (base : ℕ) (conn : TcpConn) (es : List Event)
    → length stream < 2 ^ 32
    → IsOpened base conn
    → AllCarry stream base es
    → Prefix (run (conn, []) es).1 stream
read-Prefix stream base conn es short o c =
    InStream-Prefix stream base conn es short
      (empty-InStream stream base short conn o.head_in o.empty (λ e. o.ack) (ap is_syn o.state)) c
