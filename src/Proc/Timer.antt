-- ===== src/Proc/Timer.antt =====
-- kernel/proc/sched.c and table.c: the timer tick, the sleepers that it wakes, the waking of a waiting
-- parent, and the priorities. `now` is the answer of `timer_get_ms`.
pub mod Aging
pub mod Wakeup
use grace_os.Prelude.{
  ℕ, zero, suc, ◌+◌, ◌-◌, ◌%◌, ◌^◌, Bool, ◌&&◌, ◌||◌, not, Option, none, some, List, [], ◌∷◌, ltb,
  leb, ◌==◌, if◌then◌else◌, inc64, ◌>>=◌,
}
use grace_os.Prelude.Int.{ℤ, pos, negsuc, ◌-ℤ◌, ltb_ℤ}
use grace_os.Proc.Kernel.{
  ready, wait, blocked, Process, Kernel, null, idle_proc, max_proc, with_process, with_stats,
  is_state,
}
use grace_os.Proc.Table.{proc_find}
use grace_os.Proc.Sched.{walk_fuel, schedule, sched_unblock}

-- A parent that waits for this child, or for any, is to be woken.
unfoldable pub sched_wake_parent : Kernel → ℕ → Kernel
sched_wake_parent k child_pid =
    let child = proc_find k child_pid in
    let parent = proc_find k (k.mem child).parent in
    if child == null
    then k
    else if parent == null
    then k
    else if is_state (k.mem parent).state wait
    then if (k.mem parent).waiting_for == child_pid || (k.mem parent).waiting_for == 0xffff
      then sched_unblock k parent
      else k
    else k

-- A ready process that is not current has waited one tick more.
abbrev pub aged : ℕ → ℕ → Process → Process
aged current p r =
    if is_state r.state ready && not (p == current)
    then record r { wait_time = inc64 r.wait_time }
    else r

-- The walk of `sched_tick` along the run queue.
unfoldable pub age_from : ℕ → Kernel → ℕ → Option Kernel
age_from zero k p = none
age_from (suc fuel) k p =
    let rest = age_from fuel (with_process k p (aged k.current p)) (k.mem p).next in
    if p == null then some k else rest

-- A process whose sleep is over.
abbrev pub is_due : ℕ → Process → Bool
is_due now r = is_state r.state blocked && ltb 0 r.sleep_until && leb r.sleep_until now

-- The first loop of `proc_check_sleepers`: up to `room` processes that are due, their timers cleared.
unfoldable pub take_due : ℕ → ℕ → ℕ → ℕ → Kernel → List ℕ × Kernel
take_due now zero i room k = ([], k)
take_due now (suc n) i zero k = ([], k)
take_due now (suc n) i (suc room) k =
    let p = k.proc_table i in
    let taken =
      take_due now n (i + 1) room (with_process k p (λ r. record r { sleep_until = 0 })) in
    let passed_over = take_due now n (i + 1) (suc room) k in
    if not (p == null) && is_due now (k.mem p) then (p ∷ taken.0, taken.1) else passed_over

unfoldable pub unblock_all : List ℕ → Kernel → Kernel
unblock_all [] k = k
unblock_all (p ∷ ps) k = unblock_all ps (sched_unblock k p)

unfoldable pub proc_check_sleepers : ℕ → Kernel → Kernel
proc_check_sleepers now k = let (due, k1) = take_due now max_proc 0 64 k in unblock_all due k1

-- Whether the tick preempts: the idle process when work is queued, another when its slice is over.
unfoldable pub slice_over : ℕ → Bool → Kernel → Bool
slice_over now have_runnable k =
    (k.current == idle_proc && have_runnable)
    || (not (k.current == null)
        && not (k.current == idle_proc)
        && leb 10 ((now + 2 ^ 64 - (k.mem k.current).last_run) % 2 ^ 64))

unfoldable pub count_tick : Kernel → Kernel
count_tick k = with_stats k (λ s. record s { total_ticks = inc64 s.total_ticks })

unfoldable pub count_idle : Kernel → Kernel
count_idle k =
    if k.current == idle_proc
    then with_stats k (λ s. record s { idle_time = inc64 s.idle_time })
    else k

unfoldable pub sched_tick : ℕ → Kernel → Option Kernel
sched_tick now k = do
  k1 ← age_from walk_fuel (count_tick k) k.run_queue_head
  let k2 = proc_check_sleepers now (count_idle k1)
  if slice_over now (not (k1.run_queue_head == null)) k2 then schedule now k2 else some k2

abbrev pub clamp : ℤ → ℤ → ℤ → ℤ
clamp lo hi x = if ltb_ℤ x lo then lo else if ltb_ℤ hi x then hi else x

unfoldable pub sched_set_priority : Kernel → ℕ → ℤ → Kernel
sched_set_priority k p priority =
    let q = clamp (pos 0) (pos 40) priority in
    if p == null
    then k
    else with_process k p (λ r. record r { base_priority = q; current_priority = q })

unfoldable pub sched_set_nice : Kernel → ℕ → ℤ → Kernel
sched_set_nice k p nice =
    let n = clamp (negsuc 19) (pos 19) nice in
    if p == null
    then k
    else with_process k p (λ r. record r {
      nice = n;
      current_priority = clamp (pos 0) (pos 40) (r.base_priority -ℤ n);
    })
