-- ===== src/Proc/Timer/Wakeup.antt =====
-- kernel/proc/sched.c: what `sched_wake_parent` does to a parent that waits in `proc_wait`, and the
-- range of the priorities.
use grace_os.Prelude.{ℕ, ◌≡◌, ◌≢◌, arith}
use grace_os.Prelude.Int.{ℤ, pos, negsuc, ◌-ℤ◌, ◌≤ℤ◌}
use grace_os.Proc.Kernel.{Process, Kernel, null}
use grace_os.Proc.Sched.{sched_unblock}
use grace_os.Proc.Timer.{clamp, sched_wake_parent, sched_set_priority, sched_set_nice}

-- `sched_wake_parent` changes nothing at all: it only calls `sched_unblock` for a parent in
-- `PROC_WAIT`, and `sched_unblock` only acts on a process in `PROC_BLOCKED`. A parent that sleeps in
-- `proc_wait` is not woken by the end of its child.
pub sched_wake_parent_lem : (k : Kernel) (child_pid : ℕ) → sched_wake_parent k child_pid ≡ k
unfolding sched_wake_parent sched_unblock
sched_wake_parent_lem k child_pid = ground arith

clamp_bounds : (lo hi x : ℤ) → lo ≤ℤ hi → (lo ≤ℤ clamp lo hi x) × (clamp lo hi x ≤ℤ hi)
clamp_bounds lo hi x h = ground arith

-- The priority by which a process is scheduled lies in its range.
abbrev pub HasPriority : Process → Type 0
HasPriority r = (pos 0 ≤ℤ r.current_priority) × (r.current_priority ≤ℤ pos 40)

-- After `sched_set_priority` or `sched_set_nice` the process has a priority from 0 to 40, and after
-- the second a nice value from -20 to 19, whatever was asked for.
pub set_priority-HasPriority :
    (k : Kernel) (p : ℕ) (x : ℤ)
    → p ≢ null
    → HasPriority ((sched_set_priority k p x).mem p)
      × HasPriority ((sched_set_nice k p x).mem p)
      × (negsuc 19 ≤ℤ ((sched_set_nice k p x).mem p).nice)
      × (((sched_set_nice k p x).mem p).nice ≤ℤ pos 19)
unfolding sched_set_priority sched_set_nice
set_priority-HasPriority k p x nn = ground (
  arith,
  clamp_bounds (pos 0) (pos 40) x,
  clamp_bounds (pos 0) (pos 40) ((k.mem p).base_priority -ℤ clamp (negsuc 19) (pos 19) x),
  clamp_bounds (negsuc 19) (pos 19) x,
)
