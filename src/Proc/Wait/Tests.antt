-- ===== src/Proc/Wait/Tests.antt =====
-- Runs of kernel/proc/wait.c: process 2 of the small kernel waits for its child 3, which has exited
-- with code 7.
use grace_os.Proc.Kernel.{Process, Kernel, zombie, with_process}
use grace_os.Proc.Small.{three_queued}
use grace_os.Proc.Table.{collect, proc_get_children}
use grace_os.Proc.Wait.{any_with_pid, has_children, proc_wait}
use grace_os.Proc.Wait.Collect.{WaitOutcome, proc_wait_lem}
use grace_os.Prelude.{ℕ, ◌≡◌, refl, true, arith}

abbrev child_ended : Kernel
child_ended = with_process three_queued 3 (λ r. record r { state = zombie; exit_code = 7 })

three_has_children : has_children child_ended 2 3 ≡ true
unfolding has_children any_with_pid proc_get_children collect
three_has_children = refl

proc_wait_lem_example : WaitOutcome child_ended 3 0 (proc_wait 5 child_ended 3 0)
proc_wait_lem_example = proc_wait_lem 5 child_ended 3 0 (omega arith) three_has_children

abbrev killed_by : ℕ → Process
killed_by s = record (child_ended.mem 3) { exit_signal = s }
