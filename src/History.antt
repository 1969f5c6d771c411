-- ===== src/History.antt =====
-- userland/shell/history.c: the ring of the last commands. The buffer is a function from slots; a
-- returned pointer into it is the string there, a null pointer `none`. A null command, for which
-- `hist_add` does what it does for an empty one, and a negative index are left out.
pub mod Entries
pub mod Browse
mod Tests
use grace_os.Text.{Text, same_text, copied}
use grace_os.Prelude.{
  ℕ, ◌+◌, ◌-◌, ◌%◌, Bool, true, false, ◌&&◌, ◌||◌, not, Option, none, some, [], ◌∷◌, ltb, leb, ◌==◌,
  if◌then◌else◌, put,
}

pub record History : Type 0 where
  pub hist : ℕ → Text
  pub head : ℕ
  pub count : ℕ
  pub pos : ℕ
  pub browsing : Bool

abbrev pub hist_max : ℕ
hist_max = 32

-- `HIST_LEN - 1`
abbrev pub hist_room : ℕ
hist_room = 255

unfoldable pub hist_init : History
hist_init = record { hist = λ i. []; head = 0; count = 0; pos = 0; browsing = false }

-- `(head - 1 + HIST_MAX) % HIST_MAX`
abbrev pub newest : History → ℕ
newest s = (s.head + hist_max - 1) % hist_max

-- `(head - count + HIST_MAX) % HIST_MAX`
abbrev pub oldest : History → ℕ
oldest s = (s.head + hist_max - s.count) % hist_max

abbrev pub is_empty : Text → Bool
is_empty [] = true
is_empty (c ∷ cs) = false

abbrev pub enter : History → Text → History
enter s cmd = record {
  hist = put s.hist s.head (copied hist_room cmd);
  head = (s.head + 1) % hist_max;
  count = if ltb s.count hist_max then s.count + 1 else s.count;
  pos = (s.head + 1) % hist_max;
  browsing = false;
}

unfoldable pub hist_add : History → Text → History
hist_add s cmd =
    if is_empty cmd
    then s
    else if ltb 0 s.count && same_text cmd (s.hist (newest s))
    then s
    else enter s cmd

unfoldable pub hist_prev : History → Option Text × History
hist_prev s =
    let prev = (s.pos + hist_max - 1) % hist_max in
    if s.count == 0
    then (none, s)
    else if not s.browsing
    then (some (s.hist (newest s)), record s { pos = newest s; browsing = true })
    else if s.pos == oldest s
    then (some (s.hist s.pos), s)
    else (some (s.hist prev), record s { pos = prev })

unfoldable pub hist_next : History → Option Text × History
hist_next s =
    let next = (s.pos + 1) % hist_max in
    if s.count == 0 || not s.browsing
    then (none, s)
    else if s.pos == newest s
    then (none, record s { browsing = false })
    else (some (s.hist next), record s { pos = next })

unfoldable pub hist_get : History → ℕ → Option Text
hist_get s index = if leb s.count index then none else some (s.hist ((oldest s + index) % hist_max))

abbrev pub hist_count : History → ℕ
hist_count s = s.count

abbrev pub hist_reset_pos : History → History
hist_reset_pos s = record s { pos = s.head; browsing = false }
