-- ===== src/Proc/Pipe/Channel.antt =====
-- kernel/proc/pipe.c against a bounded channel of bytes: what a client sees of one pipe.
use grace_os.Prelude.{
  ℕ, zero, suc, ◌-◌, ◌≤◌, ◌<◌, min, ◌≡◌, refl, ap, ◌∙◌, ap₂, Bool, true, false, ◌&&◌, ◌||◌, not,
  List, [], ◌∷◌, ◌++◌, arith, ◌==◌, if◌then◌else◌, length, take, drop, length-take,
}
use grace_os.Prelude.Int.{ℤ, pos, negsuc}
use grace_os.Proc.Pipe.{
  Pipe, opened, pipe_buffer_size, read_bytes, write_bytes, read_pipe, write_pipe, close_read_end,
  close_write_end, zeroed,
}
use grace_os.Proc.Pipe.Ring.{
  IsValid, contents, SameEnds, read_bytes-HasRead, write_bytes-HasWritten, length-bytes_from,
  opened-IsValid,
}

-- The bytes in order, the open ends, and whether the slot is in use.
pub record Channel : Type 0 where
  pub items : List ℕ
  pub readers : ℕ
  pub writers : ℕ
  pub open_ : Bool

pub data Op : Type 0 where
  read : ℕ → Op
  write : List ℕ → Op
  close_read : Op
  close_write : Op

-- The status and the bytes that a call returns.
abbrev pub Reply : Type 0
Reply = ℤ × List ℕ

-- The end closes the channel with the other.
abbrev settle : Channel → Channel
settle c = if c.readers == 0 && c.writers == 0 then record c { open_ = false } else c

-- The specification of each call.
unfoldable pub serve : Channel → Op → Reply × Channel
serve c (read n) =
    if not c.open_
    then ((negsuc 0, []), c)
    else if length c.items == 0
    then ((if c.writers == 0 then pos 0 else negsuc 1, []), c)
    else ((pos (min n (length c.items)), take n c.items), record c { items = drop n c.items })
serve c (write bs) =
    let room = pipe_buffer_size - length c.items in
    if not c.open_ || c.readers == 0
    then ((negsuc 0, []), c)
    else ((pos (min (length bs) room), []), record c { items = c.items ++ take room bs })
serve c close_read =
    ((pos 0, []), settle (if c.open_ then record c { readers = c.readers - 1 } else c))
serve c close_write =
    ((pos 0, []), settle (if c.open_ then record c { writers = c.writers - 1 } else c))

unfoldable pub serve_all : Channel → List Op → List Reply
serve_all c [] = []
serve_all c (o ∷ os) = let (r, d) = serve c o in r ∷ serve_all d os

-- The same call of the pipe. The two closes return nothing in C.
unfoldable pub call : Pipe → Op → Reply × Pipe
call p (read n) = let (r, bytes, q) = read_pipe n p in ((r, bytes), q)
call p (write bs) = let (r, q) = write_pipe bs p in ((r, []), q)
call p close_read = ((pos 0, []), close_read_end p)
call p close_write = ((pos 0, []), close_write_end p)

unfoldable pub call_all : Pipe → List Op → List Reply
call_all p [] = []
call_all p (o ∷ os) = let (r, q) = call p o in r ∷ call_all q os

-- The channel that a pipe stands for.
abbrev pub view : Pipe → Channel
view p = record { items = contents p; readers = p.readers; writers = p.writers; open_ = p.valid }

view_eq :
    (p q : Pipe) (items : List ℕ)
    → contents q ≡ items
    → SameEnds p q
    → view q ≡ record (view p) { items = items }
view_eq p q items e s = ground (arith, s.readers, s.writers, s.valid)

length-contents : (p : Pipe) → length (contents p) ≡ p.count
length-contents p = length-bytes_from p.buf p.read_pos p.count

-- Each call of a valid pipe returns what the channel returns, keeps the pipe valid, and leaves the
-- pipe standing for the channel's next state.
pub call_refines :
    (o : Op) (p : Pipe)
    → IsValid p
    → let (r, q) = call p o in IsValid q × ((r, view q) ≡ serve (view p) o)
unfolding call serve read_pipe write_pipe close_read_end close_write_end
call_refines (read n) p v =
    let h = read_bytes-HasRead n p v in
    ground (
      arith,
      length-contents p,
      h,
      length-take n (contents p),
      view_eq p (read_bytes n p).1 (drop n (contents p)) h.left h.ends,
    )
call_refines (write bs) p v =
    let h = write_bytes-HasWritten bs p v in
    let room : pipe_buffer_size - length (contents p) ≡ pipe_buffer_size - p.count =
      ap (λ k. pipe_buffer_size - k) (length-contents p) in
    ground (
      arith,
      room,
      h,
      view_eq p (write_bytes bs p).1 (contents p ++ take (pipe_buffer_size - p.count) bs) h.added
          h.ends,
    )
call_refines close_read p v = ground arith
call_refines close_write p v = ground arith

-- So no sequence of calls tells a valid pipe from the bounded channel of its bytes.
pub call_all_refines : (os : List Op) (p : Pipe) → IsValid p → call_all p os ≡ serve_all (view p) os
unfolding call_all serve_all
call_all_refines [] p v = refl
call_all_refines (o ∷ os) p v =
    let (next, same) = call_refines o p v in
    ap₂ ◌∷◌ (ap (λ r. r.0) same)
      (call_all_refines os (call p o).1 next ∙ ap (λ r. serve_all r.1 os) same)

take_all : (n : ℕ) (xs : List ℕ) → length xs ≤ n → take n xs ≡ xs
take_all zero [] h = refl
take_all zero (x ∷ xs) h = absurd (omega arith)
take_all (suc n) [] h = refl
take_all (suc n) (x ∷ xs) h = ap (◌∷◌ x) (take_all n xs (omega arith))

drop_all : (n : ℕ) (xs : List ℕ) → length xs ≤ n → drop n xs ≡ []
drop_all zero [] h = refl
drop_all zero (x ∷ xs) h = absurd (omega arith)
drop_all (suc n) [] h = refl
drop_all (suc n) (x ∷ xs) h = drop_all n xs (omega arith)

abbrev fresh : List ℕ → Channel
fresh bs = record { items = bs; readers = 1; writers = 1; open_ = true }

view-opened : view opened ≡ fresh []
unfolding zeroed
view-opened = refl

serve-write :
    (bs : List ℕ)
    → length bs ≤ pipe_buffer_size
    → serve (fresh []) (write bs) ≡ ((pos (length bs), []), fresh bs)
unfolding serve
serve-write bs fits = ground (arith, take_all pipe_buffer_size bs fits)

serve-read :
    (bs : List ℕ) (n : ℕ)
    → 0 < length bs
    → length bs ≤ n
    → serve (fresh bs) (read n) ≡ ((pos (length bs), bs), fresh [])
unfolding serve
serve-read bs n some_bytes all = ground (arith, take_all n bs all, drop_all n bs all)

serve-fresh :
    (bs : List ℕ) (n : ℕ)
    → 0 < length bs
    → length bs ≤ pipe_buffer_size
    → length bs ≤ n
    → serve_all (fresh []) (write bs ∷ read n ∷ read n ∷ [])
      ≡ (pos (length bs), []) ∷ (pos (length bs), bs) ∷ (negsuc 1, []) ∷ []
unfolding serve_all
serve-fresh bs n some_bytes fits all =
    rw (serve-write bs fits, serve-read bs n some_bytes all) (unfold serve in refl)

-- What is written to a pipe that was just opened is what is read from it, in order, and a reader
-- then waits for more.
pub write_then_read :
    (bs : List ℕ) (n : ℕ)
    → 0 < length bs
    → length bs ≤ pipe_buffer_size
    → length bs ≤ n
    → call_all opened (write bs ∷ read n ∷ read n ∷ [])
      ≡ (pos (length bs), []) ∷ (pos (length bs), bs) ∷ (negsuc 1, []) ∷ []
write_then_read bs n some_bytes fits all =
    call_all_refines _ opened opened-IsValid
    ∙ (ap (λ c. serve_all c (write bs ∷ read n ∷ read n ∷ [])) view-opened
        ∙ serve-fresh bs n some_bytes fits all)
