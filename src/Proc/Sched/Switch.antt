-- ===== src/Proc/Sched/Switch.antt =====
-- kernel/proc/sched.c: `schedule` hands the CPU to the picked process, and one process runs at a time.
use grace_os.Prelude.{
  ℕ, ◌≤◌, ◌≡◌, refl, sym, ap, ◌∙◌, subst, ◌≢◌, true, ◌&&◌, not, some, List, arith, ◌==◌,
  if◌then◌else◌, ==_iff, length,
}
use grace_os.Proc.Kernel.{running, ready, is_state, Kernel, null, max_proc}
use grace_os.Proc.Queue.Segment.{SameLinks}
use grace_os.Proc.Queue.Refine.{IsQueue, IsQueue-agree}
use grace_os.Proc.Sched.{
  sched_pick, sched_preempt_enabled, sched_disable_preempt, sched_enable_preempt, put_back,
  switch_to, leaves_cpu, schedule, schedule_resume,
}
use grace_os.Proc.Sched.Pick.{IsPick, sched_pick_lem}

-- No process but the current one is running.
abbrev pub OnlyCurrentRuns : Kernel → Type 0
OnlyCurrentRuns k = (p : ℕ) → p ≢ null → (k.mem p).state ≡ running → p ≡ k.current

-- The state that `schedule` leaves when it hands over to `next`.
abbrev handed_over : ℕ → Kernel → ℕ → Kernel
handed_over now k next =
    let handed = switch_to (put_back (sched_disable_preempt k) k.current) k.current next now in
    if leaves_cpu k next then handed else sched_enable_preempt handed

module _ (now : ℕ) (k : Kernel) (next : ℕ) where
  handed_over-current :
      ((handed_over now k next).current ≡ next)
      × (((handed_over now k next).mem next).state ≡ running)
      × ((handed_over now k next).run_queue_head ≡ k.run_queue_head)
      × ((handed_over now k next).run_queue_tail ≡ k.run_queue_tail)
  unfolding sched_enable_preempt sched_disable_preempt switch_to put_back
  handed_over-current = ground arith

  handed_over-runs :
      OnlyCurrentRuns k
      → (p : ℕ) → p ≢ null
      → ((handed_over now k next).mem p).state ≡ running
      → p ≡ next
  unfolding sched_enable_preempt sched_disable_preempt switch_to put_back
  handed_over-runs only p nn h = ground (arith, only p)

  handed_over-links : (y : ℕ) → SameLinks k.mem (handed_over now k next).mem y
  unfolding sched_enable_preempt sched_disable_preempt switch_to put_back
  handed_over-links y = ground arith

  handed_over-others :
      (q : ℕ)
      → q ≢ next
      → ((handed_over now k next).mem q).state ≡ (
          if q == k.current && not (q == null) && is_state (k.mem q).state running
          then ready
          else (k.mem q).state)
  unfolding sched_enable_preempt sched_disable_preempt switch_to put_back
  handed_over-others q ne = ground arith

  handed_over-preempt :
      k.preempt_count ≡ 0
      → (handed_over now k next).preempt_count ≡ (if leaves_cpu k next then 1 else 0)
  unfolding sched_enable_preempt sched_disable_preempt switch_to put_back
  handed_over-preempt e = ground arith

handed_over-resumed :
    (now : ℕ) (k : Kernel) (next : ℕ)
    → k.preempt_count ≡ 0
    → leaves_cpu k next ≡ true
    → (schedule_resume (handed_over now k next)).preempt_count ≡ 0
unfolding schedule_resume sched_enable_preempt
handed_over-resumed now k next e leaves =
    let one : (handed_over now k next).preempt_count ≡ 1 =
      handed_over-preempt now k next e ∙ ap (λ b. if b then 1 else 0) leaves in
    ground (arith, one)

schedule-handed_over :
    (now : ℕ) (k : Kernel) (next : ℕ)
    → k.preempt_count ≡ 0
    → sched_pick (sched_disable_preempt k) ≡ some next
    → schedule now k ≡ some (handed_over now k next)
unfolding schedule sched_preempt_enabled
schedule-handed_over now k next e h = rw ((==_iff k.preempt_count 0).1 e, h) refl

-- What a completed call leaves: the picked process is current and runs, alone; the one that ran is
-- ready; every other process is in the state that it was in; the queue stands.
pub record Scheduled (k : Kernel) (xs : List ℕ) (k' : Kernel) : Type 0 where
  pub picked : IsPick (sched_disable_preempt k) xs k'.current
  pub runs : (k'.mem k'.current).state ≡ running
  pub alone : OnlyCurrentRuns k'
  pub others :
      (q : ℕ)
      → q ≢ k'.current
      → (k'.mem q).state ≡ (
          if q == k.current && not (q == null) && is_state (k.mem q).state running
          then ready
          else (k.mem q).state)
  pub queue : IsQueue k' xs
  pub preempt : k'.preempt_count ≡ (if leaves_cpu k k'.current then 1 else 0)
  pub resumed : leaves_cpu k k'.current ≡ true → (schedule_resume k').preempt_count ≡ 0

-- With preemption enabled, only the current process running and at most 8192 processes queued,
-- `schedule` comes to its context switch, or to its end where it makes none. Then the picked process is
-- current and running alone, the former one ready if it ran, and the run queue as it was. Preemption is
-- enabled where there was no switch, and disabled at a switch, until a process that left the CPU in
-- `schedule` before resumes and enables it.
pub schedule_lem :
    (now : ℕ) (k : Kernel) (xs : List ℕ)
    → k.preempt_count ≡ 0
    → IsQueue k xs
    → length xs ≤ max_proc
    → OnlyCurrentRuns k
    → (k' : Kernel) × (schedule now k ≡ some k') × Scheduled k xs k'
schedule_lem now k xs enabled q fits only =
    let q1 : IsQueue (sched_disable_preempt k) xs = same_queue in
    let (next, found, pick) = sched_pick_lem (sched_disable_preempt k) xs q1 fits in
    let (is_current, runs, head, tail) = handed_over-current now k next in
    (
      handed_over now k next,
      schedule-handed_over now k next enabled found,
      record {
        picked = subst (IsPick (sched_disable_preempt k) xs) (sym is_current) pick;
        runs = subst (λ p. ((handed_over now k next).mem p).state ≡ running) (sym is_current) runs;
        alone = λ p nn h. handed_over-runs now k next only p nn h ∙ sym is_current;
        others = λ p ne. handed_over-others now k next p (λ e. ne (e ∙ sym is_current));
        queue = IsQueue-agree k _ xs head tail (handed_over-links now k next) q;
        preempt =
            handed_over-preempt now k next enabled
            ∙ ap (λ p. if leaves_cpu k p then 1 else 0) (sym is_current);
        resumed = λ leaves.
            handed_over-resumed now k next enabled (ap (leaves_cpu k) (sym is_current) ∙ leaves);
      },
    )
  where
    same_queue : IsQueue (sched_disable_preempt k) xs
    same_queue =
        unfold sched_disable_preempt in IsQueue-agree k _ xs refl refl (λ y. (refl, refl)) q
