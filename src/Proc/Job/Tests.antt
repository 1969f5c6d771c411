-- ===== src/Proc/Job/Tests.antt =====
-- Runs of kernel/proc/job.c on the small kernel, where process 2 is current.
use grace_os.Text.{Text}
use grace_os.Proc.Kernel.{Kernel, blocked, with_process}
use grace_os.Proc.Queue.Refine.{IsQueue}
use grace_os.Proc.Table.{proc_find}
use grace_os.Proc.Small.{three_queued, three_queued-IsQueue}
use grace_os.Proc.Job.{back, sigstop, sigcont, job_init, proc_kill}
use grace_os.Proc.Job.Slots.{IsNumbered}
use grace_os.Proc.Job.Signals.{proc_kill-stop_cont}
use grace_os.Prelude.{◌≡◌, refl, true, some, [], ◌∷◌, arith}

abbrev ls : Text
ls = 108 ∷ 115 ∷ []

job_init-IsNumbered : IsNumbered job_init
unfolding job_init
job_init-IsNumbered = record {
  below = λ i hi used. ground (arith, used);
  apart = λ i j hi hj ui uj e. ground (arith, ui);
}

found_4 : proc_find three_queued 4 ≡ 4
unfolding proc_find
found_4 = refl

-- Process 2 belongs to user 9, process 4 to root.
abbrev user_nine : Kernel
user_nine = with_process three_queued 2 (λ r. record r { uid = 9; euid = 9 })

nine_4 : proc_find user_nine 4 ≡ 4
unfolding proc_find
nine_4 = refl

proc_kill-stop_cont_example :
    (k1 k2 : Kernel) × (proc_kill 0 three_queued 3 sigstop ≡ some (back true k1))
    × IsQueue k1 (2 ∷ 4 ∷ [])
    × ((k1.mem 3).state ≡ blocked)
    × (proc_kill 0 k1 3 sigcont ≡ some (back true k2))
    × IsQueue k2 (2 ∷ 4 ∷ 3 ∷ [])
unfolding proc_find
proc_kill-stop_cont_example =
    proc_kill-stop_cont 0 three_queued (2 ∷ []) (4 ∷ []) 3 refl three_queued-IsQueue
