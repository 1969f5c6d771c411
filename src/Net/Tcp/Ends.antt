-- ===== src/Net/Tcp/Ends.antt =====
-- kernel/net/tcp/tcp.c: the two ends of a connection.
use mathlib.Core.List.{Memᴰ}
use mathlib.Core.List.Memᴰ
use grace_os.Net.Tcp.{TcpConn, Segment, u32, psh, ack_flag, segment, tcp_send, is_established}
use grace_os.Net.Tcp.Stream.{HasPart}
use grace_os.Net.Tcp.Run.{
  CarriesIn, Event, arrives, reads, sends, closes, run, IsOpened, AllCarry, read-Prefix,
}
use grace_os.Text.{Prefix}
use grace_os.Prelude.{
  ℕ, ◌+◌, ◌^◌, ◌<◌, ◌≡◌, sym, subst, ◌⊎◌, inl, inr, true, List, [], ◌∷◌, ◌++◌, append_assoc, arith,
  length, length-append, drop_all,
}

-- The segments of sending one piece after the other.
unfoldable pub send_all : TcpConn → List (List ℕ) → List Segment
send_all conn [] = []
send_all conn (bytes ∷ pieces) =
    segment conn (psh + ack_flag) bytes ∷ send_all (tcp_send true conn bytes).1 pieces

abbrev pub joined : List (List ℕ) → List ℕ
joined [] = []
joined (bytes ∷ pieces) = bytes ++ joined pieces

first-HasPart :
    (bytes later : List ℕ) (conn : TcpConn) (base flags : ℕ) (before : List ℕ)
    → conn.seq ≡ u32 (base + length before)
    → HasPart (before ++ (bytes ++ later)) base (segment conn flags bytes)
unfolding segment
first-HasPart bytes later conn base flags before seq = (
  length before,
  later,
  omega (arith, length-append before (bytes ++ later)),
  seq,
  drop_all before (bytes ++ later),
)

-- The sender after a piece.
sent_on :
    (bytes : List ℕ) (conn : TcpConn) (base : ℕ) (before : List ℕ)
    → is_established conn.state ≡ true
    → conn.seq ≡ u32 (base + length before)
    → (is_established (tcp_send true conn bytes).1.state ≡ true)
      × ((tcp_send true conn bytes).1.seq ≡ u32 (base + length (before ++ bytes)))
unfolding tcp_send
sent_on bytes conn base before est seq =
    rw est (est, omega (arith, seq, length-append before bytes))

-- What is sent after `before` are parts of the stream behind it.
sent-HasPart :
    (pieces : List (List ℕ)) (conn : TcpConn) (base : ℕ) (before : List ℕ) (s : Segment)
    → is_established conn.state ≡ true
    → conn.seq ≡ u32 (base + length before)
    → Memᴰ s (send_all conn pieces)
    → HasPart (before ++ joined pieces) base s
unfolding send_all
sent-HasPart [] conn base before s est seq mem = absurd (Memᴰ.not-nil mem)
sent-HasPart (bytes ∷ pieces) conn base before s est seq mem = elim (Memᴰ.cases_cons mem) [
  | inl e ↦
      subst (HasPart (before ++ (bytes ++ joined pieces)) base) (sym e)
        (first-HasPart bytes (joined pieces) conn base (psh + ack_flag) before seq)
  | inr later ↦
      let (est', seq') = sent_on bytes conn base before est seq in
      subst (λ stream. HasPart stream base s) (append_assoc before bytes (joined pieces))
        (sent-HasPart pieces (tcp_send true conn bytes).1 base (before ++ bytes) s est' seq' later)
]

-- A segment without data, or one of those sent.
abbrev pub SentIn : List Segment → Event → Type 0
SentIn sent (arrives s) = (s.payload ≡ []) ⊎ Memᴰ s sent
SentIn sent (reads n) = Unit
SentIn sent (sends ok bytes) = Unit
SentIn sent closes = Unit

abbrev pub AllSent : List Segment → List Event → Type 0
AllSent sent [] = Unit
AllSent sent (e ∷ es) = SentIn sent e × AllSent sent es

module _ (sender : TcpConn) (pieces : List (List ℕ)) (est : is_established sender.state ≡ true)
    (word : sender.seq < 2 ^ 32) where
  sent-Carries :
      (e : Event) → SentIn (send_all sender pieces) e → CarriesIn (joined pieces) sender.seq e
  sent-Carries (arrives s) (inl nothing) = inl nothing
  sent-Carries (arrives s) (inr mem) =
      inr (sent-HasPart pieces sender sender.seq [] s est (omega (arith, word)) mem)
  sent-Carries (reads n) c = c
  sent-Carries (sends ok bytes) c = c
  sent-Carries closes c = c

  sent-AllCarry :
      (es : List Event)
      → AllSent (send_all sender pieces) es
      → AllCarry (joined pieces) sender.seq es
  sent-AllCarry [] c = c
  sent-AllCarry (e ∷ es) c = (sent-Carries e c.0, sent-AllCarry es c.1)

-- From one end to the other: when every segment with data that arrives at a connection just established
-- is one that `tcp_send` built for the pieces sent by its peer, whose next number it expects, then what
-- is read there is a beginning of what was sent, however segments are lost, repeated or reordered, if
-- less than 4 GB are sent.
pub read-sent :
    (sender receiver : TcpConn) (pieces : List (List ℕ)) (es : List Event)
    → is_established sender.state ≡ true
    → sender.seq < 2 ^ 32
    → IsOpened sender.seq receiver
    → length (joined pieces) < 2 ^ 32
    → AllSent (send_all sender pieces) es
    → Prefix (run (receiver, []) es).1 (joined pieces)
read-sent sender receiver pieces es est word opened short c =
    read-Prefix (joined pieces) sender.seq receiver es short opened
      (sent-AllCarry sender pieces est word es c)
