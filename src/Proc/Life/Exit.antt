-- ===== src/Proc/Life/Exit.antt =====
-- kernel/proc/zombie.c: what the end of a process leaves, and what it does to the run queue.
use grace_os.Prelude.{ℕ, ◌≡◌, refl, sym, subst, ◌≢◌, some, List, ◌∷◌, ◌++◌, arith, ==_ne}
use grace_os.Proc.Kernel.{zombie, Process, Kernel, null, with_process}
use grace_os.Proc.Queue.{sched_remove}
use grace_os.Proc.Queue.Segment.{NotIn, SameLinks}
use grace_os.Proc.Queue.Refine.{IsQueue, IsQueue-agree}
use grace_os.Proc.Queue.Remove.{
  queued-ne-null, sched_remove-IsQueue, sched_remove-not_queued, sched_remove-links_only,
}
use grace_os.Proc.Table.{proc_reparent_children}
use grace_os.Proc.Table.Children.{proc_reparent_children-OnlyParents}
use grace_os.Proc.Timer.Wakeup.{sched_wake_parent_lem}
use grace_os.Proc.Life.{no_segments, no_fds, become_zombie, end_by_signal, proc_terminate}

-- The state before `sched_remove` is called on the new zombie.
abbrev zombied : Kernel → ℕ → Kernel
zombied k p =
    with_process (proc_reparent_children k (k.mem p).pid) p (λ r. record r { state = zombie })

become_zombie-removed : (k : Kernel) (p : ℕ) → become_zombie k p ≡ sched_remove (zombied k p) p
become_zombie-removed k p = sched_wake_parent_lem _ (k.mem p).pid

zombied-links : (k : Kernel) (p y : ℕ) → SameLinks k.mem (zombied k p).mem y
zombied-links k p y =
    let o = (proc_reparent_children-OnlyParents k (k.mem p).pid).each y in ground (arith, o)

zombied-ends :
    (k : Kernel) (p : ℕ)
    → ((zombied k p).run_queue_head ≡ k.run_queue_head)
      × ((zombied k p).run_queue_tail ≡ k.run_queue_tail)
zombied-ends k p =
    let o = (proc_reparent_children-OnlyParents k (k.mem p).pid).rest in ground (arith, o)

zombied-IsQueue : (k : Kernel) (xs : List ℕ) (p : ℕ) → IsQueue k xs → IsQueue (zombied k p) xs
zombied-IsQueue k xs p q =
    let (head, tail) = zombied-ends k p in
    IsQueue-agree k (zombied k p) xs head tail (zombied-links k p) q

pub become_zombie-IsQueue :
    (k : Kernel) (xs ys : List ℕ) (p : ℕ)
    → IsQueue k (xs ++ (p ∷ ys))
    → IsQueue (become_zombie k p) (xs ++ ys)
become_zombie-IsQueue k xs ys p q =
    subst (λ k'. IsQueue k' (xs ++ ys)) (sym (become_zombie-removed k p))
      (sched_remove-IsQueue (zombied k p) xs ys p (zombied-IsQueue k _ p q))

pub become_zombie-not_queued :
    (k : Kernel) (xs : List ℕ) (p : ℕ)
    → p ≢ null
    → IsQueue k xs
    → NotIn p xs
    → ((become_zombie k p).run_queue_head ≡ null) × ((become_zombie k p).run_queue_tail ≡ null)
become_zombie-not_queued k xs p nn q out =
    subst (λ k'. (k'.run_queue_head ≡ null) × (k'.run_queue_tail ≡ null))
      (sym (become_zombie-removed k p))
      (sched_remove-not_queued (zombied k p) xs p nn (zombied-IsQueue k xs p q) out)

-- The fields that tell how the process ended.
abbrev pub EndsAs : Process → Process → Type 0
EndsAs r r' =
    (r'.state ≡ zombie)
    × (r'.exit_code ≡ r.exit_code)
    × (r'.exit_signal ≡ r.exit_signal)
    × (r'.segments ≡ r.segments)
    × (r'.fds ≡ r.fds)

become_zombie-EndsAs :
    (k : Kernel) (p : ℕ)
    → EndsAs (k.mem p) ((become_zombie k p).mem p) × ((become_zombie k p).current ≡ k.current)
become_zombie-EndsAs k p =
    subst (λ k'. EndsAs (k.mem p) (k'.mem p) × (k'.current ≡ k.current))
      (sym (become_zombie-removed k p)) removed
  where
    removed :
        EndsAs (k.mem p) ((sched_remove (zombied k p) p).mem p)
        × ((sched_remove (zombied k p) p).current ≡ k.current)
    removed =
        let o = proc_reparent_children-OnlyParents k (k.mem p).pid in
        let l = sched_remove-links_only (zombied k p) p p in ground (arith, o.each p, o.rest, l)

-- The PCB that `proc_terminate` writes before it reparents.
abbrev signalled : Kernel → ℕ → ℕ → Kernel
signalled k p signal =
    with_process k p
      (λ r. record r { exit_signal = signal; exit_code = 0; segments = no_segments; fds = no_fds })

signalled-IsQueue :
    (k : Kernel) (xs : List ℕ) (p signal : ℕ) → IsQueue k xs → IsQueue (signalled k p signal) xs
signalled-IsQueue k xs p signal q =
    IsQueue-agree k (signalled k p signal) xs refl refl (λ y. ground arith) q

-- A queued process that is not current and is terminated by a signal leaves the queue, which keeps
-- the others in order; it is a zombie with that signal, without segments or files, and the current
-- process goes on.
pub proc_terminate_lem :
    (now : ℕ) (k : Kernel) (xs ys : List ℕ) (p signal : ℕ)
    → p ≢ k.current
    → IsQueue k (xs ++ (p ∷ ys))
    → (k' : Kernel) × (proc_terminate now k p signal ≡ some k')
      × IsQueue k' (xs ++ ys)
      × ((k'.mem p).state ≡ zombie)
      × ((k'.mem p).exit_signal ≡ signal)
      × ((k'.mem p).segments ≡ no_segments)
      × ((k'.mem p).fds ≡ no_fds)
      × (k'.current ≡ k.current)
unfolding proc_terminate end_by_signal
proc_terminate_lem now k xs ys p signal other q =
    let k1 = signalled k p signal in
    let e = become_zombie-EndsAs k1 p in
    let nn = queued-ne-null k xs ys p q in
    (
      become_zombie k1 p,
      rw (==_ne p null nn, ==_ne p k.current other) refl,
      become_zombie-IsQueue k1 xs ys p (signalled-IsQueue k _ p signal q),
      e.0.0,
      ground (arith, e.0.2),
      ground (arith, e.0.3),
      ground (arith, e.0.4),
      e.1,
    )

-- A process that is not in the run queue, such as one that is blocked, takes the whole queue with it
-- when a signal terminates it: afterwards both ends of the queue are null, whatever was queued.
pub proc_terminate_loses_queue :
    (now : ℕ) (k : Kernel) (xs : List ℕ) (p signal : ℕ)
    → p ≢ null
    → p ≢ k.current
    → IsQueue k xs
    → NotIn p xs
    → (k' : Kernel) × (proc_terminate now k p signal ≡ some k')
      × (k'.run_queue_head ≡ null)
      × (k'.run_queue_tail ≡ null)
unfolding proc_terminate end_by_signal
proc_terminate_loses_queue now k xs p signal nn other q out =
    let k1 = signalled k p signal in
    let (head, tail) =
      become_zombie-not_queued k1 xs p nn (signalled-IsQueue k xs p signal q) out in
    (become_zombie k1 p, rw (==_ne p null nn, ==_ne p k.current other) refl, head, tail)
