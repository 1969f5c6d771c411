-- ===== src/Net/Tcp/Steps.antt =====
-- kernel/net/tcp/tcp.c: what `tcp_receive` does with one segment.
use grace_os.Net.Tcp.{
  ack_flag, TcpState, closed, syn_sent, established, fin_wait, TcpConn, Segment, recv_size, u32,
  has, rst, fin, accept, answered, advance, take_data, take_fin, segment, receive_established,
  receive_fin_wait, receive_in, tcp_receive, tcp_poll,
}
use grace_os.Net.Tcp.Ring.{
  Buffers, Buffers-agree, buf_used_lem, push_bytes-Buffers, push_bytes-rest,
}
use grace_os.Net.Tcp.Stream.{copied_len, copied_len-bounds}
use grace_os.Prelude.{
  ℕ, ◌+◌, ◌-◌, ◌<◌, ◌≡◌, refl, sym, ap, ◌∙◌, subst, ◌≢◌, inl, inr, Bool, true, false, ◌&&◌, ◌||◌,
  not, List, [], ◌∷◌, ◌++◌, arith, ltb, ◌==◌, if◌then◌else◌, Bool-cases, length, take, length-take,
}

-- A segment of this connection's ports.
abbrev pub IsFor : TcpConn → Segment → Type 0
IsFor conn s = (s.src_port ≡ conn.remote_port) × (s.dst_port ≡ conn.local_port)

ours-receive_in :
    (conn : TcpConn) (s : Segment)
    → IsFor conn s
    → tcp_receive conn s ≡ receive_in conn.state conn s
unfolding tcp_receive
ours-receive_in conn s (src, dst) =
    let ours : (not (s.src_port == conn.remote_port) || not (s.dst_port == conn.local_port))
        ≡ false =
      ground (arith, src, dst) in
    rw ours refl

-- A segment of an established connection without reset.
live-receive :
    (conn : TcpConn) (s : Segment)
    → conn.state ≡ established
    → IsFor conn s
    → has rst s.flags ≡ false
    → tcp_receive conn s ≡ take_fin s (take_data (advance conn s) s)
unfolding receive_established
live-receive conn s est for on =
    ours-receive_in conn s for ∙ ap (λ st. receive_in st conn s) est ∙ (rw on refl)

-- The room that is left in a ring with these bytes.
abbrev pub room_for : List ℕ → List ℕ → ℕ
room_for held payload =
    if ltb (length payload) (65535 - length held) then length payload else 65535 - length held

-- What is done with data.
abbrev pub Taken : TcpConn → List ℕ → List ℕ → TcpConn × List Segment → Type 0
Taken conn held bytes (conn', sent) =
    Buffers conn' (held ++ bytes)
    × (conn'.state ≡ established)
    × (conn'.ack ≡ u32 (conn.ack + length bytes))
    × (sent ≡ segment conn' ack_flag [] ∷ [])

advance-keeps :
    (conn : TcpConn) (s : Segment) (held : List ℕ)
    → Buffers conn held
    → Buffers (advance conn s) held
      × ((advance conn s).state ≡ conn.state)
      × ((advance conn s).ack ≡ conn.ack)
advance-keeps conn s held v = elim (Bool-cases (has ack_flag s.flags && ltb conn.seq s.ack_num)) [
  | inl newer ↦
      rw newer
        (Buffers-agree conn (record conn { seq = s.ack_num }) held refl refl refl v, refl, refl)
  | inr older ↦ rw older (v, refl, refl)
]

accept-Taken :
    (conn : TcpConn) (payload held : List ℕ)
    → conn.state ≡ established
    → Buffers conn held
    → Taken conn held (take (room_for held payload) payload) (answered (accept conn payload))
accept-Taken conn payload held est v =
    let k = copied_len conn payload in
    let (fits, room) = copied_len-bounds conn payload held v in
    let same_len : k ≡ room_for held payload =
      ap
        (λ used.
          if ltb (length payload) (recv_size - used - 1)
          then length payload
          else recv_size - used - 1)
        (buf_used_lem conn held v)
      ∙ ground (arith, v.room) in
    let conn1 = record conn { ack = u32 (conn.ack + k) } in
    let len : length (take k payload) ≡ k = length-take k payload ∙ omega (arith, fits) in
    let rest = push_bytes-rest (take k payload) conn1 in
    subst (λ j. Taken conn held (take j payload) (answered (accept conn payload))) same_len
      (
        push_bytes-Buffers (take k payload) conn1 held (omega (arith, len, room))
            (Buffers-agree conn conn1 held refl refl refl v),
        rest.0 ∙ est,
        rest.1 ∙ ap (λ j. u32 (conn.ack + j)) (sym len),
        refl,
      )

-- An established connection takes the expected segment, without FIN or RST: as much of its data as the ring has
-- room for is put behind what the ring holds, and exactly that much is acknowledged.
pub tcp_receive-next :
    (conn : TcpConn) (s : Segment) (held : List ℕ)
    → conn.state ≡ established
    → Buffers conn held
    → IsFor conn s
    → has rst s.flags ≡ false
    → has fin s.flags ≡ false
    → has ack_flag s.flags ≡ true
    → 0 < length s.payload
    → s.seq_num ≡ conn.ack
    → Taken conn held (take (room_for held s.payload) s.payload) (tcp_receive conn s)
tcp_receive-next conn s held est v for on open_end acked some_data next =
    let conn1 = advance conn s in
    let (v1, st, ack) = advance-keeps conn s held v in
    let good : (ltb 0 (length s.payload) && has ack_flag s.flags && s.seq_num == conn1.ack) ≡ true =
      ground (arith, some_data, acked, next ∙ sym ack) in
    let taken : take_data conn1 s ≡ answered (accept conn1 s.payload) = rw good refl in
    let kept : take_fin s (answered (accept conn1 s.payload)) ≡ answered (accept conn1 s.payload) =
      rw open_end refl in
    let (bytes, state, acked_up, sent) = accept-Taken conn1 s.payload held (st ∙ est) v1 in
    subst (Taken conn held (take (room_for held s.payload) s.payload))
      (sym (live-receive conn s est for on ∙ ap (take_fin s) taken ∙ kept))
      (
        bytes,
        state,
        acked_up ∙ ap (λ a. u32 (a + length (take (room_for held s.payload) s.payload))) ack,
        sent,
      )

-- The ring is as it was.
abbrev pub KeepsRing : TcpConn → TcpConn → Type 0
KeepsRing conn conn' =
    (conn'.recv_head ≡ conn.recv_head)
    × (conn'.recv_tail ≡ conn.recv_tail)
    × (conn'.recv_buf ≡ conn.recv_buf)

-- No more data are received.
abbrev pub has_ended : TcpState → Bool
has_ended fin_wait = true
has_ended closed = true
has_ended _ = false

-- A connection without more to receive, with the ring of another.
abbrev pub Stays : TcpConn → TcpConn → Type 0
Stays conn conn' = (has_ended conn'.state ≡ true) × KeepsRing conn conn'

receive_in-Stays :
    (st : TcpState) (conn : TcpConn) (s : Segment)
    → conn.state ≡ st
    → has_ended st ≡ true
    → Stays conn (receive_in st conn s).0
unfolding receive_fin_wait
receive_in-Stays closed conn s e ended = (ap has_ended e, (refl, refl, refl))
receive_in-Stays syn_sent conn s e ended = absurd (ground (arith, ended))
receive_in-Stays established conn s e ended = absurd (ground (arith, ended))
receive_in-Stays fin_wait conn s e ended = elim (Bool-cases (has ack_flag s.flags)) [
  | inl ok ↦ rw ok (refl, (refl, refl, refl))
  | inr bad ↦ rw bad (ap has_ended e, (refl, refl, refl))
]

tcp_receive-Stays :
    (conn : TcpConn) (s : Segment) → has_ended conn.state ≡ true → Stays conn (tcp_receive conn s).0
unfolding tcp_receive
tcp_receive-Stays conn s ended =
    elim (Bool-cases
      (not (s.src_port == conn.remote_port) || not (s.dst_port == conn.local_port))) [
        | inl foreign ↦ rw foreign (ended, (refl, refl, refl))
        | inr ours ↦ rw ours (receive_in-Stays conn.state conn s refl ended)
      ]

-- Of any segments that arrive.
after_end :
    (ss : List Segment) (conn : TcpConn)
    → has_ended conn.state ≡ true
    → Stays conn (tcp_poll conn ss)
unfolding tcp_poll
after_end [] conn ended = (ended, (refl, refl, refl))
after_end (s ∷ ss) conn ended =
    let (e, (h, t, b)) = tcp_receive-Stays conn s ended in
    let (e', (h', t', b')) = after_end ss (tcp_receive conn s).0 e in (e', (h' ∙ h, t' ∙ t, b' ∙ b))

early_fin :
    (conn : TcpConn) (s : Segment)
    → s.seq_num ≢ conn.ack
    → has fin s.flags ≡ true
    → Stays conn (take_fin s (take_data (advance conn s) s)).0
early_fin conn s ahead ends =
    let skip : (ltb 0 (length s.payload)
          && has ack_flag s.flags
          && s.seq_num == (advance conn s).ack)
        ≡ false =
      ground (arith, ahead) in
    rw (skip, ends) (refl, ground arith)

-- A FIN that is not the segment that an established connection expects ends the receiving: the ring is
-- as it was, and no segment that arrives later, such as the data ahead of the FIN, changes it.
pub early_fin_loses :
    (conn : TcpConn) (s : Segment) (ss : List Segment)
    → conn.state ≡ established
    → IsFor conn s
    → has rst s.flags ≡ false
    → has fin s.flags ≡ true
    → s.seq_num ≢ conn.ack
    → Stays conn (tcp_poll conn (s ∷ ss))
unfolding tcp_poll
early_fin_loses conn s ss est for on ends ahead =
    let (e, (h, t, b)) =
      subst (λ r. Stays conn r.0) (sym (live-receive conn s est for on))
        (early_fin conn s ahead ends) in
    let (e', (h', t', b')) = after_end ss (tcp_receive conn s).0 e in (e', (h' ∙ h, t' ∙ t, b' ∙ b))
