-- ===== src/Proc/Queue.antt =====
-- kernel/proc/sched.c: the run queue, a doubly linked list through the PCBs.
pub mod Segment
pub mod Refine
pub mod Unlink
pub mod Remove
use grace_os.Prelude.{ℕ, ◌-◌, Bool, ◌||◌, not, ltb, ◌==◌, if◌then◌else◌, inc32}
use grace_os.Proc.Kernel.{Process, Kernel, null, with_process, with_stats, is_state, zombie, dead}

-- `p->next != NULL || p->prev != NULL || p == run_queue_head`
abbrev pub looks_queued : Kernel → ℕ → Bool
looks_queued k p =
    not ((k.mem p).next == null) || not ((k.mem p).prev == null) || p == k.run_queue_head

-- The linking at the tail.
abbrev pub link_last : Kernel → ℕ → Kernel
link_last k p =
    let k1 = with_process k p (λ r. record r { next = null; prev = k.run_queue_tail }) in
    let k2 =
      if k.run_queue_tail == null
      then record k1 { run_queue_head = p }
      else with_process k1 k.run_queue_tail (λ r. record r { next = p }) in
    record k2 { run_queue_tail = p }

unfoldable pub sched_add : Kernel → ℕ → Kernel
sched_add k p =
    if p == null || is_state (k.mem p).state dead || is_state (k.mem p).state zombie
    then k
    else if looks_queued k p
    then k
    else with_stats (link_last k p) (λ s. record s { runnable_count = inc32 s.runnable_count })

-- The unlinking: the neighbours, or the ends of the queue, are made to skip `p`.
abbrev pub unlink : Kernel → ℕ → Kernel
unlink k p =
    let k1 =
      if (k.mem p).prev == null
      then record k { run_queue_head = (k.mem p).next }
      else with_process k (k.mem p).prev (λ r. record r { next = (k.mem p).next }) in
    let k2 =
      if (k1.mem p).next == null
      then record k1 { run_queue_tail = (k1.mem p).prev }
      else with_process k1 (k1.mem p).next (λ r. record r { prev = (k1.mem p).prev }) in
    with_process k2 p (λ r. record r { next = null; prev = null })

unfoldable pub sched_remove : Kernel → ℕ → Kernel
sched_remove k p =
    if p == null
    then k
    else with_stats (unlink k p) (λ s. record s {
      runnable_count = if ltb 0 s.runnable_count then s.runnable_count - 1 else s.runnable_count;
    })
