-- ===== src/Proc/Pipe.antt =====
-- kernel/proc/pipe.c: the table of pipes, each a ring of 4096 bytes with its open ends counted. The
-- table is a function of the slot. A call runs under the pipe lock as one step.
pub mod Ring
pub mod Channel
pub mod Slots
mod Tests
use grace_os.Prelude.{
  ℕ, zero, suc, ◌+◌, ◌-◌, ◌%◌, Bool, true, false, ◌&&◌, ◌||◌, not, Option, none, some, List, [],
  ◌∷◌, ltb, ◌==◌, if◌then◌else◌, length, set, get_or, replicate, put, inc32, dec32,
}
use grace_os.Prelude.Int.{ℤ, pos, negsuc, pos_part}

pub record Pipe : Type 0 where
  pub buf : List ℕ
  pub read_pos : ℕ
  pub write_pos : ℕ
  pub count : ℕ
  pub readers : ℕ
  pub writers : ℕ
  pub valid : Bool

abbrev pub pipe_table_size : ℕ
pipe_table_size = 64

abbrev pub pipe_buffer_size : ℕ
pipe_buffer_size = 4096

abbrev pub Table : Type 0
Table = ℕ → Pipe

-- `memset` to 0.
unfoldable pub zeroed : Pipe
zeroed = record {
  buf = replicate pipe_buffer_size 0;
  read_pos = 0;
  write_pos = 0;
  count = 0;
  readers = 0;
  writers = 0;
  valid = false;
}

abbrev pub pipe_init : Table
pipe_init i = zeroed

-- A slot as `pipe_alloc` sets it up.
abbrev pub opened : Pipe
opened = record zeroed { valid = true; readers = 1; writers = 1 }

-- The search of `pipe_alloc` among `n` slots from `i` on.
unfoldable pub alloc_from : ℕ → ℕ → Table → ℤ × Table
alloc_from zero i t = (negsuc 0, t)
alloc_from (suc n) i t =
    let rest = alloc_from n (i + 1) t in if (t i).valid then rest else (pos i, put t i opened)

unfoldable pub pipe_alloc : Table → ℤ × Table
pipe_alloc = alloc_from pipe_table_size 0

-- `read_pos` moves on and a byte is gone.
abbrev pub drop_byte : Pipe → Pipe
drop_byte p = record p { read_pos = inc32 p.read_pos % pipe_buffer_size; count = dec32 p.count }

-- The loop of `pipe_read`, with at most `n` bytes to go: the bytes read, and the pipe.
unfoldable pub read_bytes : ℕ → Pipe → List ℕ × Pipe
read_bytes zero p = ([], p)
read_bytes (suc n) p =
    let rest = read_bytes n (drop_byte p) in
    if p.count == 0 then ([], p) else (get_or p.buf p.read_pos 0 ∷ rest.0, rest.1)

abbrev pub add_byte : ℕ → Pipe → Pipe
add_byte b p = record p {
  buf = set p.buf p.write_pos b;
  write_pos = inc32 p.write_pos % pipe_buffer_size;
  count = inc32 p.count;
}

-- The loop of `pipe_write` over the bytes left: how many were written, and the pipe.
unfoldable pub write_bytes : List ℕ → Pipe → ℕ × Pipe
write_bytes [] p = (0, p)
write_bytes (b ∷ bs) p =
    let rest = write_bytes bs (add_byte b p) in
    if ltb p.count pipe_buffer_size then (rest.0 + 1, rest.1) else (0, p)

-- -1 for an error, 0 at the end of the stream, -2 where the call would block.
unfoldable pub read_pipe : ℕ → Pipe → ℤ × List ℕ × Pipe
read_pipe len p =
    if not p.valid
    then (negsuc 0, [], p)
    else if p.count == 0
    then (if p.writers == 0 then pos 0 else negsuc 1, [], p)
    else let (bytes, q) = read_bytes len p in (pos (length bytes), bytes, q)

unfoldable pub write_pipe : List ℕ → Pipe → ℤ × Pipe
write_pipe src p =
    if not p.valid || p.readers == 0
    then (negsuc 0, p)
    else let (n, q) = write_bytes src p in (pos n, q)

-- Both ends closed: the slot is free.
abbrev pub drop_if_closed : Pipe → Pipe
drop_if_closed p = if p.readers == 0 && p.writers == 0 then record p { valid = false } else p

unfoldable pub close_read_end : Pipe → Pipe
close_read_end p =
    drop_if_closed (if p.valid && ltb 0 p.readers then record p { readers = p.readers - 1 } else p)

unfoldable pub close_write_end : Pipe → Pipe
close_write_end p =
    drop_if_closed (if p.valid && ltb 0 p.writers then record p { writers = p.writers - 1 } else p)

-- The calls: the slot is checked, then the call is that of the slot. A negative `len` reads nothing.
unfoldable pub pipe_read : Table → ℤ → ℤ → ℤ × List ℕ × Table
pipe_read t (pos i) len =
    let r = read_pipe (pos_part len) (t i) in
    if ltb i pipe_table_size then (r.0, r.1, put t i r.2) else (negsuc 0, [], t)
pipe_read t (negsuc i) len = (negsuc 0, [], t)

unfoldable pub pipe_write : Table → ℤ → List ℕ → ℤ × Table
pipe_write t (pos i) src =
    let r = write_pipe src (t i) in
    if ltb i pipe_table_size then (r.0, put t i r.1) else (negsuc 0, t)
pipe_write t (negsuc i) src = (negsuc 0, t)

unfoldable pub pipe_close_read : Table → ℤ → Table
pipe_close_read t (pos i) = if ltb i pipe_table_size then put t i (close_read_end (t i)) else t
pipe_close_read t (negsuc i) = t

unfoldable pub pipe_close_write : Table → ℤ → Table
pipe_close_write t (pos i) = if ltb i pipe_table_size then put t i (close_write_end (t i)) else t
pipe_close_write t (negsuc i) = t

unfoldable pub pipe_get : Table → ℤ → Option Pipe
pipe_get t (pos i) =
    if ltb i pipe_table_size then if (t i).valid then some (t i) else none else none
pipe_get t (negsuc i) = none
