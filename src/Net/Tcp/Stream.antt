-- ===== src/Net/Tcp/Stream.antt =====
-- kernel/net/tcp/tcp.c: what is read from a connection is what the peer sent, in order.
use grace_os.Net.Tcp.{
  TcpState, syn_sent, TcpConn, Segment, recv_size, u32, buf_avail, accept, is_established,
}
use grace_os.Net.Tcp.Ring.{
  Buffers, Buffers-agree, buf_used_lem, push_bytes-Buffers, push_bytes-rest,
}
use grace_os.Prelude.{
  ℕ, ◌+◌, ◌-◌, ◌^◌, ◌≤◌, ◌<◌, ◌≡◌, refl, sym, ap, ◌∙◌, ◌⊎◌, Bool, true, false, List, [], ◌++◌,
  append_assoc, arith, ltb, if◌then◌else◌, length, length-append, take, drop, length-take,
  length-drop, take-append, take_add,
}

abbrev pub is_syn : TcpState → Bool
is_syn syn_sent = true
is_syn _ = false

-- A segment with a part of the stream, numbered from `base` on.
abbrev pub HasPart : List ℕ → ℕ → Segment → Type 0
HasPart stream base s =
    (off : ℕ) × (rest : List ℕ) × (off ≤ length stream)
    × (s.seq_num ≡ u32 (base + off))
    × (drop off stream ≡ s.payload ++ rest)

abbrev pub Carries : List ℕ → ℕ → Segment → Type 0
Carries stream base s = (s.payload ≡ []) ⊎ HasPart stream base s

-- What was read and what the ring holds are the first `n` bytes of the stream; while the connection is
-- established, the next is expected.
abbrev pub InStream : List ℕ → ℕ → List ℕ → TcpConn → Type 0
InStream stream base read conn =
    (n : ℕ) × (held : List ℕ) × (n ≤ length stream)
    × Buffers conn held
    × (read ++ held ≡ take n stream)
    × (is_established conn.state ≡ true → conn.ack ≡ u32 (base + n))
    × (is_syn conn.state ≡ false)

-- A change that leaves the ring, and leaves what is expected or ends the connection.
pub InStream-keep :
    (stream : List ℕ) (base : ℕ) (read : List ℕ) (conn conn' : TcpConn)
    → conn'.recv_head ≡ conn.recv_head
    → conn'.recv_tail ≡ conn.recv_tail
    → conn'.recv_buf ≡ conn.recv_buf
    → (is_established conn'.state ≡ true
        → (is_established conn.state ≡ true) × (conn'.ack ≡ conn.ack))
    → is_syn conn'.state ≡ false
    → InStream stream base read conn
    → InStream stream base read conn'
InStream-keep stream base read conn conn' head tail buf goes_on started
      (n, held, le, v, whole, next, old) =
    (
      n,
      held,
      le,
      Buffers-agree conn conn' held head tail buf v,
      whole,
      λ e. let (was, same) = goes_on e in same ∙ next was,
      started,
    )

-- The segment that is expected begins where the stream was cut.
expected_off :
    (stream : List ℕ) (base off n : ℕ)
    → length stream < 2 ^ 32
    → off ≤ length stream
    → n ≤ length stream
    → u32 (base + off) ≡ u32 (base + n)
    → off ≡ n
expected_off stream base off n short lo hi e = omega (arith, short, lo, hi, e)

-- How much of a payload is copied.
abbrev pub copied_len : TcpConn → List ℕ → ℕ
copied_len conn payload =
    if ltb (length payload) (buf_avail conn) then length payload else buf_avail conn

pub copied_len-bounds :
    (conn : TcpConn) (payload held : List ℕ)
    → Buffers conn held
    → (copied_len conn payload ≤ length payload)
      × (length held + copied_len conn payload < recv_size)
copied_len-bounds conn payload held v =
    let used = buf_used_lem conn held v in ground (arith, used, v.room)

stream_part :
    (stream payload rest : List ℕ) (n k : ℕ)
    → drop n stream ≡ payload ++ rest
    → k ≤ length payload
    → n ≤ length stream
    → (n + k ≤ length stream) × (take n stream ++ take k payload ≡ take (n + k) stream)
stream_part stream payload rest n k part fits le =
    let lengths : length stream - n ≡ length payload + length rest =
      sym (length-drop n stream) ∙ ap length part ∙ length-append payload rest in
    (
      omega (arith, lengths, fits, le),
      ap (λ t. take n stream ++ t) (sym (ap (take k) part ∙ take-append k payload rest fits))
          ∙ take_add n k stream,
    )

next_ack : (a base n k : ℕ) → a ≡ u32 (base + n) → u32 (a + k) ≡ u32 (base + (n + k))
next_ack a base n k e = omega (arith, e)

pub accept-InStream :
    (stream : List ℕ) (base : ℕ) (read : List ℕ) (conn : TcpConn) (s : Segment)
    → length stream < 2 ^ 32
    → HasPart stream base s
    → is_established conn.state ≡ true
    → s.seq_num ≡ conn.ack
    → InStream stream base read conn
    → InStream stream base read (accept conn s.payload)
accept-InStream stream base read conn s short (off, rest, lo, seq, part) est match_ack
      (n, held, le, v, whole, next, old) =
    let k = copied_len conn s.payload in
    let (fits, room) = copied_len-bounds conn s.payload held v in
    let conn1 = record conn { ack = u32 (conn.ack + k) } in
    let v1 = Buffers-agree conn conn1 held refl refl refl v in
    let at : off ≡ n =
      expected_off stream base off n short lo le (sym seq ∙ match_ack ∙ next est) in
    let len : length (take k s.payload) ≡ k = length-take k s.payload ∙ omega (arith, fits) in
    let v2 = push_bytes-Buffers (take k s.payload) conn1 held (omega (arith, len, room)) v1 in
    let same = push_bytes-rest (take k s.payload) conn1 in
    let start : drop n stream ≡ s.payload ++ rest = ap (λ o. drop o stream) (sym at) ∙ part in
    let (inside, longer) = stream_part stream s.payload rest n k start fits le in
    (
      n + k,
      held ++ take k s.payload,
      inside,
      v2,
      sym (append_assoc read held (take k s.payload))
          ∙ ap (λ t. t ++ take k s.payload) whole
          ∙ longer,
      λ e. same.1 ∙ next_ack conn.ack base n k (next est),
      ap is_syn same.0 ∙ old,
    )
