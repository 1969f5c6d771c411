-- ===== src/Proc/Sched.antt =====
-- kernel/proc/sched.c: the hybrid scheduler, apart from the run queue itself, and the sleepers of
-- table.c. `now` is the answer of `timer_get_ms`. `ctx_switch` is where a step of the model ends.
-- The walk along the run queue takes fuel: `none` means that it ran out.
pub mod Pick
pub mod Switch
use grace_os.Prelude.{
  ℕ, zero, suc, ◌+◌, ◌-◌, ◌/◌, ◌%◌, ◌^◌, Bool, ◌&&◌, not, Option, none, some, map, ltb, ◌==◌,
  if◌then◌else◌, inc64, inc32, dec32,
}
use mathlib.Core.Option
use grace_os.Prelude.Int.{
  ℤ, pos, negsuc, ◌+ℤ◌, ◌-ℤ◌, ◌*ℤ◌, ltb_ℤ, eqb_ℤ, to_int64, int64_max, int64_floor,
}
use grace_os.Proc.Kernel.{
  ProcState, ready, running, wait, blocked, Process, Stats, Kernel, null, idle_proc, max_proc,
  pid_invalid, with_process, with_stats, is_state,
}
use grace_os.Proc.Queue.{sched_add, sched_remove}

-- Signed sums are exact: an overflow would be undefined in C.
unfoldable pub sched_calc_score : Kernel → ℕ → ℤ
unfolding ◌+ℤ◌ ◌-ℤ◌ ◌*ℤ◌
sched_calc_score k p =
    let r = k.mem p in
    let aged = to_int64 r.est_runtime -ℤ pos (r.wait_time / 100) in
    let weighed = aged -ℤ r.current_priority *ℤ pos 10 in
    let score = if r.valid then weighed else weighed +ℤ pos 10000 in
    if p == null then int64_max else if ltb_ℤ score int64_floor then int64_floor else score

-- `best` and `best_score` of the search.
pub record Choice : Type 0 where
  pub best : ℕ
  pub best_score : ℤ

-- One round of `sched_pick`.
unfoldable pub consider : Kernel → ℕ → Choice → Choice
consider k p c =
    let score = sched_calc_score k p in
    if not (is_state (k.mem p).state ready)
    then c
    else if not (k.mem p).valid && not (c.best == null)
    then c
    else if ltb_ℤ score c.best_score
    then record { best = p; best_score = score }
    else if eqb_ℤ score c.best_score && not (c.best == null)
    then if ltb (k.mem c.best).wait_time (k.mem p).wait_time
      then record c { best = p }
      else if (k.mem p).wait_time == (k.mem c.best).wait_time
          && c.best == k.current
          && not (p == k.current)
      then record c { best = p }
      else c
    else c

unfoldable pub pick_from : ℕ → Kernel → ℕ → Choice → Option Choice
pick_from zero k p c = none
pick_from (suc fuel) k p c =
    let rest = pick_from fuel k (k.mem p).next (consider k p c) in
    if p == null then some c else rest

-- One round for each process there can be, and one to see the end.
abbrev pub walk_fuel : ℕ
walk_fuel = max_proc + 1

unfoldable pub sched_pick : Kernel → Option ℕ
sched_pick k =
    Option.map (λ (c : Choice). if c.best == null then idle_proc else c.best)
      (pick_from walk_fuel k k.run_queue_head (record { best = null; best_score = int64_max }))

unfoldable pub sched_preempt_enabled : Kernel → Bool
sched_preempt_enabled k = k.preempt_count == 0

unfoldable pub sched_disable_preempt : Kernel → Kernel
sched_disable_preempt k = record k { preempt_count = inc32 k.preempt_count }

unfoldable pub sched_enable_preempt : Kernel → Kernel
sched_enable_preempt k = record k { preempt_count = dec32 k.preempt_count }

-- `if (prev && prev->state == PROC_RUNNING) prev->state = PROC_READY;`
unfoldable pub put_back : Kernel → ℕ → Kernel
put_back k p =
    if not (p == null) && is_state (k.mem p).state running
    then with_process k p (λ r. record r { state = ready })
    else k

-- The two branches on `next != prev`, up to the context switch.
unfoldable pub switch_to : Kernel → ℕ → ℕ → ℕ → Kernel
switch_to k prev next now =
    let k1 =
      if prev == null
      then k
      else with_process k prev
          (λ r. record r { cpu_time = (r.cpu_time + (now + 2 ^ 64 - r.last_run)) % 2 ^ 64 }) in
    let k2 =
      with_process k1 next (λ r. record r { state = running; last_run = now; wait_time = 0 }) in
    if next == prev
    then with_process k next (λ r. record r { state = running })
    else with_stats (record k2 { current = next })
        (λ s. record s { context_switches = inc64 s.context_switches })

-- The call goes through `ctx_switch`.
abbrev pub leaves_cpu : Kernel → ℕ → Bool
leaves_cpu k next = not (next == k.current) && not (k.current == null)

-- Up to `ctx_switch`, or to the end when the call does not go through it.
unfoldable pub schedule : ℕ → Kernel → Option Kernel
schedule now k =
    let k1 = sched_disable_preempt k in
    let handed = λ (next : ℕ). switch_to (put_back k1 k.current) k.current next now in
    if sched_preempt_enabled k
    then Option.map
        (λ next. if leaves_cpu k next then handed next else sched_enable_preempt (handed next))
        (sched_pick k1)
    else some k

-- What follows `ctx_switch`, in a process that left the CPU in `schedule` and gets it back. A process
-- that gets it for the first time starts at its entry instead.
unfoldable pub schedule_resume : Kernel → Kernel
schedule_resume k = sched_enable_preempt k

unfoldable pub sched_yield : ℕ → Kernel → Option Kernel
sched_yield now k =
    schedule now
      (if k.current == null then k else with_process k k.current (λ r. record r { state = ready }))

unfoldable pub sched_unblock : Kernel → ℕ → Kernel
sched_unblock k p =
    if p == null
    then k
    else if is_state (k.mem p).state blocked
    then with_stats (sched_add (with_process k p (λ r. record r { state = ready })) p) (λ s.
      record s {
        blocked_count = if ltb 0 s.blocked_count then s.blocked_count - 1 else s.blocked_count;
      })
    else k

unfoldable pub sched_block : ℕ → Kernel → Option Kernel
sched_block now k = schedule now (
    if k.current == null
    then k
    else with_stats
        (sched_remove (with_process k k.current (λ r. record r { state = blocked })) k.current)
        (λ s. record s { blocked_count = inc32 s.blocked_count }))

unfoldable pub sched_sleep : ℕ → Kernel → Option Kernel
sched_sleep now k = schedule now (
    if k.current == null
    then k
    else sched_remove (with_process k k.current (λ r. record r { state = wait })) k.current)
