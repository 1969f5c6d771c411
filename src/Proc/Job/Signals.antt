-- ===== src/Proc/Job/Signals.antt =====
-- kernel/proc/job.c: who may signal whom, and what the signals do to the run queue.
use grace_os.Prelude.{
  ℕ, ◌≡◌, refl, sym, ap, ◌∙◌, subst, ◌≢◌, ◌⊎◌, Bool, true, false, ◌||◌, some, List, ◌∷◌, ◌++◌,
  arith, leb, ◌==◌, if◌then◌else◌,
}
use grace_os.Proc.Kernel.{max_proc, ready, blocked, Kernel, null, with_process}
use grace_os.Proc.Queue.{sched_add, sched_remove}
use grace_os.Proc.Queue.Refine.{IsQueue, IsQueue-agree, sched_add-IsQueue, add_last}
use grace_os.Proc.Queue.Remove.{sched_remove-IsQueue, sched_remove-links_only, queued-ne-null}
use grace_os.Proc.Table.{proc_find}
use grace_os.Proc.Life.{proc_terminate}
use grace_os.Proc.Job.{
  back, away, sigkill, sigstop, sigcont, deliver, may_signal, proc_kill, kill_all,
}

-- A process that runs as neither root nor the owner of the other cannot signal it: the call fails and
-- changes nothing. Nor can an identifier that is not in the table be signalled.
pub proc_kill-denied :
    (now : ℕ) (k : Kernel) (pid signal : ℕ)
    → let p = proc_find k pid in
      (p ≡ null)
        ⊎ ((k.current ≢ null)
            × ((k.mem k.current).uid ≢ 0)
            × ((k.mem p).uid ≢ (k.mem k.current).uid)
            × ((k.mem p).uid ≢ (k.mem k.current).euid))
      → proc_kill now k pid signal ≡ some (back false k)
unfolding proc_kill
proc_kill-denied now k pid signal h = ground (arith, h)

-- The state after a stop.
abbrev stopped : Kernel → ℕ → Kernel
stopped k p = sched_remove (with_process k p (λ r. record r { state = blocked })) p

abbrev continued : Kernel → ℕ → Kernel
continued k p = sched_add (with_process k p (λ r. record r { state = ready })) p

stopped-IsQueue :
    (k : Kernel) (xs ys : List ℕ) (p : ℕ)
    → IsQueue k (xs ++ (p ∷ ys))
    → IsQueue (stopped k p) (xs ++ ys) × (((stopped k p).mem p).state ≡ blocked)
stopped-IsQueue k xs ys p q =
    let k1 = with_process k p (λ r. record r { state = blocked }) in
    let q1 : IsQueue k1 (xs ++ (p ∷ ys)) = IsQueue-agree k k1 _ refl refl (λ y. ground arith) q in
    let links = (sched_remove-links_only k1 p p).0 in
    (sched_remove-IsQueue k1 xs ys p q1, ground (arith, links))

continued-IsQueue :
    (k : Kernel) (xs : List ℕ) (p : ℕ)
    → p ≢ null
    → IsQueue k xs
    → IsQueue (continued k p) (add_last p xs)
continued-IsQueue k xs p nn q =
    let k1 = with_process k p (λ r. record r { state = ready }) in
    let q1 : IsQueue k1 xs = IsQueue-agree k k1 xs refl refl (λ y. ground arith) q in
    sched_add-IsQueue k1 xs p nn (λ e. ground (arith, e), λ e. ground (arith, e)) q1

module _ (now : ℕ) (k : Kernel) (pid : ℕ) (found : proc_find k pid ≢ null)
    (allowed : may_signal k (proc_find k pid) ≡ true) where
  kill-stop : proc_kill now k pid sigstop ≡ some (back true (stopped k (proc_find k pid)))
  unfolding proc_kill deliver
  kill-stop = ground (arith, found, allowed)

  kill-cont :
      (k.mem (proc_find k pid)).state ≡ blocked
      → proc_kill now k pid sigcont ≡ some (back true (continued k (proc_find k pid)))
  unfolding proc_kill deliver
  kill-cont st = ground (arith, found, allowed, st)

table-stopped : (k : Kernel) (p : ℕ) → (stopped k p).proc_table ≡ k.proc_table
unfolding sched_remove
table-stopped k p = ground arith

found-stopped : (k : Kernel) (p pid : ℕ) → proc_find (stopped k p) pid ≡ proc_find k pid
unfolding proc_find
found-stopped k p pid =
    ap (λ t. if pid == 0 || leb max_proc pid then null else t pid) (table-stopped k p)

allowed-stopped : (k : Kernel) (p : ℕ) → may_signal k p ≡ true → may_signal (stopped k p) p ≡ true
allowed-stopped k p h =
    let k1 = with_process k p (λ r. record r { state = blocked }) in
    ground (
      arith,
      h,
      (sched_remove-links_only k1 p p).0,
      (sched_remove-links_only k1 p k.current).0,
      (sched_remove-links_only k1 p p).1,
    )

-- Stopping a queued process that the caller may signal takes it out of the run queue, blocked, and
-- continuing it then puts it at the end of the queue; the others keep their order.
pub proc_kill-stop_cont :
    (now : ℕ) (k : Kernel) (xs ys : List ℕ) (pid : ℕ)
    → may_signal k (proc_find k pid) ≡ true
    → IsQueue k (xs ++ (proc_find k pid ∷ ys))
    → (k1 k2 : Kernel) × (proc_kill now k pid sigstop ≡ some (back true k1))
      × IsQueue k1 (xs ++ ys)
      × ((k1.mem (proc_find k pid)).state ≡ blocked)
      × (proc_kill now k1 pid sigcont ≡ some (back true k2))
      × IsQueue k2 (add_last (proc_find k pid) (xs ++ ys))
proc_kill-stop_cont now k xs ys pid allowed q =
    let p = proc_find k pid in
    let nn = queued-ne-null k xs ys p q in
    let (q1, st) = stopped-IsQueue k xs ys p q in
    let same = found-stopped k p pid in
    (
      stopped k p,
      continued (stopped k p) p,
      kill-stop now k pid nn allowed,
      q1,
      st,
      again same nn st,
      continued-IsQueue (stopped k p) (xs ++ ys) p nn q1,
    )
  where
    again :
        proc_find (stopped k (proc_find k pid)) pid ≡ proc_find k pid
        → proc_find k pid ≢ null
        → ((stopped k (proc_find k pid)).mem (proc_find k pid)).state ≡ blocked
        → proc_kill now (stopped k (proc_find k pid)) pid sigcont
          ≡ some (back true (continued (stopped k (proc_find k pid)) (proc_find k pid)))
    again same nn st =
        let k1 = stopped k (proc_find k pid) in
        kill-cont now k1 pid (λ e. nn (sym same ∙ e))
          (subst (λ p. may_signal k1 p ≡ true) (sym same)
            (allowed-stopped k (proc_find k pid) allowed))
          (subst (λ p. (k1.mem p).state ≡ blocked) (sym same) st)
        ∙ ap (λ p. some (back true (continued k1 p))) same

-- A process that kills a group in which it comes first does not come back from its own termination:
-- the other processes of the group are not signalled.
pub kill_all_self :
    (now : ℕ) (k k' : Kernel) (ps : List ℕ) (result : Bool)
    → k.current ≢ null
    → proc_find k (k.mem k.current).pid ≡ k.current
    → proc_terminate now k k.current sigkill ≡ some k'
    → kill_all now k (k.current ∷ ps) sigkill result ≡ some (away k')
unfolding kill_all proc_kill deliver
kill_all_self now k k' ps result nn found ends = ground (arith, nn, found, ends)
