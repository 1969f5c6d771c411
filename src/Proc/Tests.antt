-- ===== src/Proc/Tests.antt =====
-- Runs of kernel/proc on the small kernel.
use grace_os.Prelude.{ℕ, ◌≡◌, refl, ◌≢◌, ◌⊎◌, some, [], ◌∷◌, arith}
use grace_os.Proc.Small.{table, three_queued, queued, three_queued-IsQueue, two_alone, five-NotIn}
use grace_os.Proc.Kernel.{zombie, Kernel, null}
use grace_os.Proc.Sched.Pick.{IsPick, sched_pick_lem}
use grace_os.Proc.Sched.{sched_pick, schedule}
use grace_os.Proc.Sched.Switch.{Scheduled, schedule_lem}
use grace_os.Proc.Table.{proc_alloc_pid}
use grace_os.Proc.Table.Pids.{IsPid, PidOutcome, proc_alloc_pid_lem}
use grace_os.Proc.Timer.{sched_wake_parent}
use grace_os.Proc.Timer.Wakeup.{sched_wake_parent_lem}
use grace_os.Proc.Life.{no_segments, no_fds, proc_create, proc_terminate}
use grace_os.Proc.Life.Create.{Created, proc_create_lem}
use grace_os.Proc.Life.Exit.{proc_terminate_lem, proc_terminate_loses_queue}
use grace_os.Proc.Queue.Refine.{IsQueue, add_last, sched_add-IsQueue}
use grace_os.Proc.Queue.Remove.{sched_remove-IsQueue}
use grace_os.Proc.Queue.{sched_add, sched_remove}

sched_add-IsQueue_example : IsQueue (sched_add three_queued 5) (add_last 5 queued)
sched_add-IsQueue_example =
    sched_add-IsQueue three_queued queued 5 (omega arith) (λ e. ground arith, λ e. ground arith)
      three_queued-IsQueue

sched_remove-IsQueue_example : IsQueue (sched_remove three_queued 3) (2 ∷ 4 ∷ [])
sched_remove-IsQueue_example =
    sched_remove-IsQueue three_queued (2 ∷ []) (4 ∷ []) 3 three_queued-IsQueue

proc_alloc_pid_lem_example : PidOutcome three_queued (proc_alloc_pid three_queued)
proc_alloc_pid_lem_example = proc_alloc_pid_lem three_queued (omega arith, omega arith)

sched_pick_lem_example : (p : ℕ) × (sched_pick three_queued ≡ some p) × IsPick three_queued queued p
sched_pick_lem_example = sched_pick_lem three_queued queued three_queued-IsQueue (omega arith)

schedule_lem_example :
    (k' : Kernel) × (schedule 7 three_queued ≡ some k') × Scheduled three_queued queued k'
schedule_lem_example =
    schedule_lem 7 three_queued queued refl three_queued-IsQueue (omega arith) two_alone

sched_wake_parent_lem_example : sched_wake_parent three_queued 3 ≡ three_queued
sched_wake_parent_lem_example = sched_wake_parent_lem three_queued 3

proc_terminate_lem_example :
    (k' : Kernel) × (proc_terminate 7 three_queued 3 9 ≡ some k')
    × IsQueue k' (2 ∷ 4 ∷ [])
    × ((k'.mem 3).state ≡ zombie)
    × ((k'.mem 3).exit_signal ≡ 9)
    × ((k'.mem 3).segments ≡ no_segments)
    × ((k'.mem 3).fds ≡ no_fds)
    × (k'.current ≡ 2)
proc_terminate_lem_example =
    proc_terminate_lem 7 three_queued (2 ∷ []) (4 ∷ []) 3 9 (omega arith) three_queued-IsQueue

proc_terminate_loses_queue_example :
    (k' : Kernel) × (proc_terminate 7 three_queued 5 9 ≡ some k')
    × (k'.run_queue_head ≡ null)
    × (k'.run_queue_tail ≡ null)
proc_terminate_loses_queue_example =
    proc_terminate_loses_queue 7 three_queued queued 5 9 (omega arith) (omega arith)
      three_queued-IsQueue five-NotIn

proc_create_lem_example :
    let r = proc_create 7 6 2 three_queued in
    ((r.0 ≡ 6) × Created three_queued 7 6 2 r.1)
    ⊎ ((r.0 ≡ null) × ((j : ℕ) → IsPid j → table j ≢ null))
proc_create_lem_example =
    proc_create_lem 7 6 2 three_queued (omega arith) (omega arith, omega arith)
