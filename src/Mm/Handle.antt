-- ===== src/Mm/Handle.antt =====
-- kernel/mm/sasy/handle.c: the handle table. A `segment_t*` is an address, 0 is NULL; the segments'
-- reference counts, which `handle_dup` changes, are a memory.
pub mod Slots
pub mod Total
mod Tests
use grace_os.Prelude.{
  ℕ, zero, suc, ◌+◌, ◌-◌, ◌%◌, ◌^◌, Bool, true, false, ◌&&◌, ◌||◌, not, Option, none, some, ltb,
  ◌==◌, if◌then◌else◌, put, modify,
}

pub record Handle : Type 0 where
  pub seg : ℕ
  pub refs : ℕ
  pub owner_pid : ℕ
  pub valid : Bool

pub record Handles : Type 0 where
  pub handles : ℕ → Handle
  pub handle_count : ℕ
  pub next_handle : ℕ

abbrev pub max_handles : ℕ
max_handles = 8192

-- `(seg_handle_t)-1`
abbrev pub invalid_handle : ℕ
invalid_handle = 0xffffffff

abbrev pub no_handle : Handle
no_handle = record { seg = 0; refs = 0; owner_pid = 0; valid = false }

-- The slots are those below `max_handles`; the function has the same value beyond.
unfoldable pub handle_init : Handles
handle_init = record { handles = λ h. no_handle; handle_count = 0; next_handle = 0 }

-- The loop of `handle_alloc`: up to `n` slots from `h` on, around the table.
unfoldable pub free_slot : ℕ → ℕ → Handles → Option ℕ
free_slot zero h s = none
free_slot (suc n) h s =
    let rest = free_slot n ((h + 1) % max_handles) s in if (s.handles h).valid then rest else some h

abbrev pub enter_handle : ℕ → ℕ → ℕ → Handles → Handles
enter_handle h seg owner_pid s = record {
  handles = put s.handles h (record { seg = seg; refs = 1; owner_pid = owner_pid; valid = true });
  handle_count = (s.handle_count + 1) % 2 ^ 32;
  next_handle = (h + 1) % max_handles;
}

unfoldable pub handle_alloc : ℕ → ℕ → Handles → ℕ × Handles
handle_alloc seg owner_pid s =
    let r : ℕ × Handles = elim (free_slot max_handles s.next_handle s) [
      | none ↦ (invalid_handle, s)
      | some h ↦ (h, enter_handle h seg owner_pid s)
    ] in
    if seg == 0 then (invalid_handle, s) else r

unfoldable pub handle_free : ℕ → Handles → Handles
handle_free h s =
    if ltb h max_handles && (s.handles h).valid
    then record s {
      handles = put s.handles h no_handle;
      handle_count = if ltb 0 s.handle_count then s.handle_count - 1 else s.handle_count;
    }
    else s

unfoldable pub handle_get_segment : ℕ → Handles → ℕ
handle_get_segment h s = if ltb h max_handles && (s.handles h).valid then (s.handles h).seg else 0

unfoldable pub handle_addref : ℕ → Handles → Handles
handle_addref h s =
    if ltb h max_handles && (s.handles h).valid
    then record s { handles = modify s.handles h (λ r. record r { refs = (r.refs + 1) % 2 ^ 32 }) }
    else s

unfoldable pub handle_release : ℕ → Handles → Handles
handle_release h s =
    if ltb h max_handles && (s.handles h).valid && ltb 0 (s.handles h).refs
    then record s { handles = modify s.handles h (λ r. record r { refs = r.refs - 1 }) }
    else s

unfoldable pub handle_valid : ℕ → Handles → Bool
handle_valid h s = ltb h max_handles && (s.handles h).valid

-- The loop of `handle_count_for_segment` over the first `n` slots.
unfoldable pub handles_of : ℕ → ℕ → Handles → ℕ
handles_of zero seg s = 0
handles_of (suc n) seg s =
    handles_of n seg s + (if (s.handles n).valid && (s.handles n).seg == seg then 1 else 0)

unfoldable pub handle_count_for_segment : ℕ → Handles → ℕ
handle_count_for_segment seg s = if seg == 0 then 0 else handles_of max_handles seg s

-- The new handle, the segments' reference counts, and the table.
unfoldable pub handle_dup : ℕ → ℕ → (ℕ → ℕ) → Handles → ℕ × (ℕ → ℕ) × Handles
handle_dup h new_owner_pid refcnts s =
    let seg = (s.handles h).seg in
    let r = handle_alloc seg new_owner_pid s in
    if not (ltb h max_handles && (s.handles h).valid)
    then (invalid_handle, refcnts, s)
    else if r.0 == invalid_handle || seg == 0
    then (r.0, refcnts, r.1)
    else (r.0, modify refcnts seg (λ n. (n + 1) % 2 ^ 32), r.1)

abbrev pub handle_get_total : Handles → ℕ
handle_get_total s = s.handle_count

-- In 32 bits, where the source's subtraction wraps.
unfoldable pub handle_get_free : Handles → ℕ
handle_get_free s = (max_handles + 2 ^ 32 - s.handle_count) % 2 ^ 32
