-- ===== src/Proc/Pipe/Ring.antt =====
-- kernel/proc/pipe.c: the bytes that a pipe holds, and what the loops of `pipe_read` and
-- `pipe_write` do to them.
use grace_os.Prelude.{
  ℕ, zero, suc, ◌+◌, ◌-◌, ◌%◌, ◌≤◌, ◌<◌, min, ◌≡◌, refl, sym, ap, ◌∙◌, ap₂, ◌≢◌, List, [], ◌∷◌,
  ◌++◌, append-nil, append_assoc, arith, dec_lt, ℕ_discrete, lt→ltb, le→ltb, ==_iff, ==_ne, length,
  set, length-set, get_or, take, drop, length-replicate, get_or-set_self, get_or-set_ne,
}
use grace_os.Proc.Pipe.{
  Pipe, zeroed, opened, pipe_buffer_size, drop_byte, add_byte, read_bytes, write_bytes,
}

-- The ring invariant: the positions lie in the buffer, and `count` bytes lie between them.
pub record IsValid (p : Pipe) : Type 0 where
  pub room : length p.buf ≡ pipe_buffer_size
  pub read_in : p.read_pos < pipe_buffer_size
  pub count_in : p.count ≤ pipe_buffer_size
  pub tail : p.write_pos ≡ (p.read_pos + p.count) % pipe_buffer_size

-- The `n` bytes of the ring from position `r` on.
abbrev pub bytes_from : List ℕ → ℕ → ℕ → List ℕ
bytes_from buf r zero = []
bytes_from buf r (suc n) = get_or buf r 0 ∷ bytes_from buf ((r + 1) % pipe_buffer_size) n

abbrev pub contents : Pipe → List ℕ
contents p = bytes_from p.buf p.read_pos p.count

pub length-bytes_from : (buf : List ℕ) (r n : ℕ) → length (bytes_from buf r n) ≡ n
length-bytes_from buf r zero = refl
length-bytes_from buf r (suc n) = ap suc (length-bytes_from buf ((r + 1) % pipe_buffer_size) n)

bytes_from_pos :
    (buf : List ℕ) (r n : ℕ)
    → n ≢ 0
    → bytes_from buf r n ≡ get_or buf r 0 ∷ bytes_from buf ((r + 1) % pipe_buffer_size) (n - 1)
bytes_from_pos buf r zero h = absurd (h refl)
bytes_from_pos buf r (suc n) h =
    ap (λ k. get_or buf r 0 ∷ bytes_from buf ((r + 1) % pipe_buffer_size) k) (omega arith)

-- A byte stored just behind the last extends them.
bytes_from-set :
    (buf : List ℕ) (b n r w : ℕ)
    → length buf ≡ pipe_buffer_size
    → r < pipe_buffer_size
    → n < pipe_buffer_size
    → w ≡ (r + n) % pipe_buffer_size
    → bytes_from (set buf w b) r (suc n) ≡ bytes_from buf r n ++ (b ∷ [])
bytes_from-set buf b zero r w len hr hn e =
    let here : w ≡ r = omega arith in rw (here, get_or-set_self buf r b 0 (omega arith))
bytes_from-set buf b (suc n) r w len hr hn e =
    ap₂ ◌∷◌ (get_or-set_ne buf w r b 0 (λ same. absurd (omega arith))) (
      bytes_from-set buf b n ((r + 1) % pipe_buffer_size) w len (omega arith) (omega arith)
        (omega arith))

length-zeroed : length zeroed.buf ≡ pipe_buffer_size
unfolding zeroed
length-zeroed = length-replicate pipe_buffer_size (let x : ℕ = 0 in x)

pub opened-IsValid : IsValid opened
unfolding zeroed
opened-IsValid = record {
  room = length-zeroed;
  read_in = omega arith;
  count_in = omega arith;
  tail = refl;
}

pub drop_byte-IsValid : (p : Pipe) → IsValid p → p.count ≢ 0 → IsValid (drop_byte p)
drop_byte-IsValid p v h = omega arith

pub add_byte-IsValid :
    (b : ℕ) (p : Pipe) → IsValid p → p.count < pipe_buffer_size → IsValid (add_byte b p)
add_byte-IsValid b p v h = record {
  room = length-set p.buf p.write_pos b ∙ v.room;
  read_in = v.read_in;
  count_in = omega arith;
  tail = omega (arith, v.tail, v.read_in);
}

pub contents-drop_byte :
    (p : Pipe)
    → IsValid p
    → p.count ≢ 0
    → contents p ≡ get_or p.buf p.read_pos 0 ∷ contents (drop_byte p)
contents-drop_byte p v h =
    bytes_from_pos p.buf p.read_pos p.count h
    ∙ ap₂ (λ r n. get_or p.buf p.read_pos 0 ∷ bytes_from p.buf r n) (omega arith) (omega arith)

pub contents-add_byte :
    (b : ℕ) (p : Pipe)
    → IsValid p
    → p.count < pipe_buffer_size
    → contents (add_byte b p) ≡ contents p ++ (b ∷ [])
contents-add_byte b p v h =
    ap (bytes_from (set p.buf p.write_pos b) p.read_pos) {y = suc p.count} (omega arith)
    ∙ bytes_from-set p.buf b p.count p.read_pos p.write_pos v.room v.read_in h v.tail

-- The ends and the flag are those of before.
pub record SameEnds (p q : Pipe) : Type 0 where
  pub readers : q.readers ≡ p.readers
  pub writers : q.writers ≡ p.writers
  pub valid : q.valid ≡ p.valid

contents-empty : (p : Pipe) → p.count ≡ 0 → contents p ≡ []
contents-empty p e = ap (bytes_from p.buf p.read_pos) e

-- What `pipe_read` leaves after taking at most `n` bytes.
pub record HasRead (n : ℕ) (p : Pipe) (r : List ℕ × Pipe) : Type 0 where
  pub bytes : r.0 ≡ take n (contents p)
  pub left : contents r.1 ≡ drop n (contents p)
  pub valid : IsValid r.1
  pub ends : SameEnds p r.1

pub read_bytes-HasRead : (n : ℕ) (p : Pipe) → IsValid p → HasRead n p (read_bytes n p)
unfolding read_bytes
read_bytes-HasRead zero p v = record {
  bytes = refl;
  left = refl;
  valid = v;
  ends = record { readers = refl; writers = refl; valid = refl };
}
read_bytes-HasRead (suc n) p v = elim (ℕ_discrete p.count 0) [
  | yes e ↦ rw ((==_iff p.count 0).1 e) (record {
    bytes = rw (contents-empty p e);
    left = rw (contents-empty p e) refl;
    valid = v;
    ends = record { readers = refl; writers = refl; valid = refl };
  })
  | no ne ↦
      let ih = read_bytes-HasRead n (drop_byte p) (drop_byte-IsValid p v ne) in
      rw (==_ne p.count 0 ne) (record {
        bytes = rw (contents-drop_byte p v ne) (ap (◌∷◌ (get_or p.buf p.read_pos 0)) ih.bytes);
        left = rw (contents-drop_byte p v ne) ih.left;
        valid = ih.valid;
        ends = record {
          readers = ih.ends.readers;
          writers = ih.ends.writers;
          valid = ih.ends.valid;
        };
      })
]

-- What `pipe_write` leaves after putting in what fits.
pub record HasWritten (src : List ℕ) (p : Pipe) (r : ℕ × Pipe) : Type 0 where
  pub number : r.0 ≡ min (length src) (pipe_buffer_size - p.count)
  pub added : contents r.1 ≡ contents p ++ take (pipe_buffer_size - p.count) src
  pub valid : IsValid r.1
  pub ends : SameEnds p r.1

take-nil : (n : ℕ) → take {A = ℕ} n [] ≡ []
take-nil zero = refl
take-nil (suc n) = refl

take-cons : (n b : ℕ) (bs : List ℕ) → n ≢ 0 → take n (b ∷ bs) ≡ b ∷ take (n - 1) bs
take-cons zero b bs h = absurd (h refl)
take-cons (suc n) b bs h = ap (λ k. b ∷ take k bs) (omega arith)

nothing_written :
    (src : List ℕ) (p : Pipe)
    → IsValid p
    → take (pipe_buffer_size - p.count) src ≡ []
    → min (length src) (pipe_buffer_size - p.count) ≡ 0
    → HasWritten src p (0, p)
nothing_written src p v none_fits number = record {
  number = sym number;
  added = rw (none_fits, append-nil);
  valid = v;
  ends = record { readers = refl; writers = refl; valid = refl };
}

pub write_bytes-HasWritten :
    (src : List ℕ) (p : Pipe) → IsValid p → HasWritten src p (write_bytes src p)
unfolding write_bytes
write_bytes-HasWritten [] p v = nothing_written [] p v (take-nil _) (omega arith)
write_bytes-HasWritten (b ∷ bs) p v = elim (dec_lt p.count pipe_buffer_size) [
  | yes h ↦
      let ih = write_bytes-HasWritten bs (add_byte b p) (add_byte-IsValid b p v h) in
      rw (lt→ltb p.count pipe_buffer_size h) (record {
        number = omega (arith, ih.number);
        added =
            rw
              (
                ih.added,
                contents-add_byte b p v h,
                append_assoc,
                take-cons (pipe_buffer_size - p.count) b bs (omega arith),
              )
              (ap (λ k. contents p ++ b ∷ take k bs) (omega arith));
        valid = ih.valid;
        ends = record {
          readers = ih.ends.readers;
          writers = ih.ends.writers;
          valid = ih.ends.valid;
        };
      })
  | no h ↦
      let full : pipe_buffer_size - p.count ≡ 0 = omega arith in
      rw (le→ltb p.count pipe_buffer_size (omega arith))
        (nothing_written (b ∷ bs) p v (ap (λ k. take k (b ∷ bs)) full) (omega arith))
]
