-- ===== src/Net/Tcp/Ring.antt =====
-- kernel/net/tcp/tcp.c: the ring of received bytes holds a list of them, the next to read first.
use grace_os.Net.Tcp.{TcpConn, recv_size, push_bytes, buf_used, tcp_recv}
use grace_os.Prelude.{
  ℕ, zero, suc, ◌+◌, ◌%◌, ◌<◌, ◌≡◌, refl, sym, ap, ◌∙◌, ap₂, subst, ◌≢◌, true, List, [], ◌∷◌, ◌++◌,
  append-nil, append_assoc, arith, ℕ_discrete, ◌==◌, ==_ne, length, length-append, get_or, take,
  drop, put, put_self, put_ne, get_or-append, get_or-last,
}

-- The ring holds these bytes.
pub record Buffers (conn : TcpConn) (xs : List ℕ) : Type 0 where
  pub head_in : conn.recv_head < recv_size
  pub tail : conn.recv_tail ≡ (conn.recv_head + length xs) % recv_size
  pub room : length xs < recv_size
  pub each :
      (i : ℕ) → i < length xs → conn.recv_buf ((conn.recv_head + i) % recv_size) ≡ get_or xs i 0

-- The length that the source computes from the two ends.
pub buf_used_lem : (conn : TcpConn) (xs : List ℕ) → Buffers conn xs → buf_used conn ≡ length xs
buf_used_lem conn xs v = ground (arith, v.tail, v.room, v.head_in)

-- A change of the other fields.
pub Buffers-agree :
    (conn conn' : TcpConn) (xs : List ℕ)
    → conn'.recv_head ≡ conn.recv_head
    → conn'.recv_tail ≡ conn.recv_tail
    → conn'.recv_buf ≡ conn.recv_buf
    → Buffers conn xs
    → Buffers conn' xs
Buffers-agree conn conn' xs head tail buf v = record {
  head_in = omega (arith, head, v.head_in);
  tail = tail ∙ v.tail ∙ ap (λ h. (h + length xs) % recv_size) (sym head);
  room = v.room;
  each = λ i lt.
      ap (λ b. b ((conn'.recv_head + i) % recv_size)) buf
      ∙ ap (λ h. conn.recv_buf ((h + i) % recv_size)) head
      ∙ v.each i lt;
}

-- The loop's body.
abbrev pub pushed : ℕ → TcpConn → TcpConn
pushed b conn = record conn {
  recv_buf = put conn.recv_buf conn.recv_tail b;
  recv_tail = (conn.recv_tail + 1) % recv_size;
}

pushed-Buffers :
    (b : ℕ) (conn : TcpConn) (xs : List ℕ)
    → length xs + 1 < recv_size
    → Buffers conn xs
    → Buffers (pushed b conn) (xs ++ (b ∷ []))
pushed-Buffers b conn xs free v =
    let more = length-append xs (b ∷ []) in
    record {
      head_in = v.head_in;
      tail = omega (arith, v.tail, more);
      room = omega (arith, more, free);
      each = λ i lt. elim (ℕ_discrete i (length xs)) [
        | yes last ↦
            let here : (conn.recv_head + i) % recv_size ≡ conn.recv_tail =
              omega (arith, last, v.tail) in
            ap (pushed b conn).recv_buf here
            ∙ put_self conn.recv_buf conn.recv_tail b
            ∙ sym (ap (λ j. get_or (xs ++ (b ∷ [])) j 0) last ∙ get_or-last xs b 0)
        | no ne ↦
            let inside : i < length xs = omega (arith, lt, ne, more) in
            let apart : conn.recv_tail ≢ (conn.recv_head + i) % recv_size =
              omega (arith, inside, v.tail, v.room, v.head_in) in
            put_ne conn.recv_buf conn.recv_tail _ b apart
            ∙ v.each i inside
            ∙ sym (get_or-append xs (b ∷ []) i 0 inside)
      ];
    }

pub push_bytes-Buffers :
    (bs : List ℕ) (conn : TcpConn) (xs : List ℕ)
    → length xs + length bs < recv_size
    → Buffers conn xs
    → Buffers (push_bytes bs conn) (xs ++ bs)
unfolding push_bytes
push_bytes-Buffers [] conn xs free v = subst (Buffers conn) (sym (append-nil xs)) v
push_bytes-Buffers (b ∷ bs) conn xs free v =
    subst (Buffers (push_bytes bs (pushed b conn))) (append_assoc xs (b ∷ []) bs) (
      push_bytes-Buffers bs (pushed b conn) (xs ++ (b ∷ []))
        (omega (arith, free, length-append xs (b ∷ [])))
        (pushed-Buffers b conn xs (omega (arith, free)) v))

-- The loop leaves the other fields.
pub push_bytes-rest :
    (bs : List ℕ) (conn : TcpConn)
    → ((push_bytes bs conn).state ≡ conn.state)
      × ((push_bytes bs conn).ack ≡ conn.ack)
      × ((push_bytes bs conn).seq ≡ conn.seq)
      × ((push_bytes bs conn).recv_closed ≡ conn.recv_closed)
unfolding push_bytes
push_bytes-rest [] conn = (refl, refl, refl, refl)
push_bytes-rest (b ∷ bs) conn = push_bytes-rest bs (pushed b conn)

abbrev popped : TcpConn → TcpConn
popped conn = record conn { recv_head = (conn.recv_head + 1) % recv_size }

recv_empty :
    (n : ℕ) (conn : TcpConn) → conn.recv_head ≡ conn.recv_tail → tcp_recv (suc n) conn ≡ ([], conn)
unfolding tcp_recv
recv_empty n conn e =
    let done : (conn.recv_head == conn.recv_tail) ≡ true = ground (arith, e) in rw done refl

recv_more :
    (n : ℕ) (conn : TcpConn)
    → conn.recv_head ≢ conn.recv_tail
    → tcp_recv (suc n) conn
      ≡ (conn.recv_buf conn.recv_head ∷ (tcp_recv n (popped conn)).0, (tcp_recv n (popped conn)).1)
unfolding tcp_recv
recv_more n conn ne = rw (==_ne conn.recv_head conn.recv_tail ne) refl

popped-Buffers :
    (conn : TcpConn) (x : ℕ) (xs : List ℕ) → Buffers conn (x ∷ xs) → Buffers (popped conn) xs
popped-Buffers conn x xs v = record {
  head_in = omega arith;
  tail = omega (arith, v.tail);
  room = omega (arith, v.room);
  each = λ i lt.
      let there : ((conn.recv_head + 1) % recv_size + i) % recv_size
          ≡ (conn.recv_head + suc i) % recv_size =
        omega arith in
      ap conn.recv_buf there ∙ v.each (suc i) (omega (arith, lt));
}

-- The first bytes read, in order, and the others left.
abbrev pub Reads : ℕ → TcpConn → List ℕ → List ℕ × TcpConn → Type 0
Reads n conn xs (out, conn') =
    (out ≡ take n xs)
    × Buffers conn' (drop n xs)
    × (conn'.state ≡ conn.state)
    × (conn'.ack ≡ conn.ack)

pub tcp_recv-Reads :
    (n : ℕ) (conn : TcpConn) (xs : List ℕ) → Buffers conn xs → Reads n conn xs (tcp_recv n conn)
tcp_recv-Reads zero conn xs v = unfold tcp_recv in (refl, v, refl, refl)
tcp_recv-Reads (suc n) conn [] v =
    subst (Reads (suc n) conn []) (sym (recv_empty n conn (omega (arith, v.tail, v.head_in))))
      (refl, v, refl, refl)
tcp_recv-Reads (suc n) conn (x ∷ xs) v =
    let ne : conn.recv_head ≢ conn.recv_tail = omega (arith, v.tail, v.head_in, v.room) in
    let (out, rest, state, ack) = tcp_recv-Reads n (popped conn) xs (popped-Buffers conn x xs v) in
    let here : conn.recv_head ≡ (conn.recv_head + 0) % recv_size = omega (arith, v.head_in) in
    subst (Reads (suc n) conn (x ∷ xs)) (sym (recv_more n conn ne))
      (ap₂ ◌∷◌ (ap conn.recv_buf here ∙ v.each 0 (omega arith)) out, rest, state, ack)
