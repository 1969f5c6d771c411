-- ===== src/Proc/Wait.antt =====
-- kernel/proc/wait.c: waiting for children. A call runs until it returns or until the process sleeps;
-- `wait_resume` is what it does when it is switched to again. The status is what is stored through
-- the pointer, if it is not null. `x & 0xFF` is `x % 256`, `x >> 8` is `x / 256`.
pub mod Status
pub mod Collect
mod Tests
use mathlib.Core.Option
use grace_os.Prelude.{
  ℕ, ◌*◌, ◌/◌, ◌%◌, Bool, false, ◌&&◌, ◌||◌, not, Option, none, some, List, [], ◌∷◌, map, ltb, ◌==◌,
  if◌then◌else◌, length,
}
use grace_os.Proc.Kernel.{Process, Kernel, null, wait, zombie, with_process, is_state}
use grace_os.Proc.Table.{proc_get_children}
use grace_os.Proc.Sched.{sched_sleep}
use grace_os.Proc.Life.{proc_destroy}

abbrev pub wnohang : ℕ
wnohang = 1

-- `(pid_t)-1`
abbrev pub any_pid : ℕ
any_pid = 0xffff

-- `WEXITSTATUS`, `WTERMSIG`, `WIFEXITED`, `WIFSIGNALED`, `WIFSTOPPED`
abbrev pub wexitstatus : ℕ → ℕ
wexitstatus s = s / 256 % 256

abbrev pub wtermsig : ℕ → ℕ
wtermsig s = s % 128

abbrev pub wifexited : ℕ → Bool
wifexited s = wtermsig s == 0

abbrev pub wifsignaled : ℕ → Bool
wifsignaled s = not (wtermsig s == 0)

abbrev pub wifstopped : ℕ → Bool
wifstopped s = s % 256 == 0x7f

-- The loop of `find_zombie_child`.
unfoldable pub first_zombie : ℕ → Kernel → List ℕ → Option ℕ
first_zombie target k [] = none
first_zombie target k (p ∷ ps) =
    let rest = first_zombie target k ps in
    if (target == any_pid || (k.mem p).pid == target) && is_state (k.mem p).state zombie
    then some p
    else rest

unfoldable pub find_zombie_child : Kernel → ℕ → ℕ → Option ℕ
find_zombie_child k parent_pid target_pid =
    first_zombie target_pid k (proc_get_children k parent_pid 64)

-- The loop of `has_children`.
unfoldable pub any_with_pid : ℕ → Kernel → List ℕ → Bool
any_with_pid target k [] = false
any_with_pid target k (p ∷ ps) = (k.mem p).pid == target || any_with_pid target k ps

unfoldable pub has_children : Kernel → ℕ → ℕ → Bool
has_children k parent_pid target_pid =
    let children = proc_get_children k parent_pid 64 in
    if target_pid == any_pid then ltb 0 (length children) else any_with_pid target_pid k children

-- The status word of an ended process.
unfoldable pub status_word : Process → ℕ
status_word r = if not (r.exit_signal == 0) then r.exit_signal % 128 else r.exit_code % 256 * 256

-- How a call ends: with a child's identifier and status, with -1, with 0, or asleep.
pub data Waited : Type 0 where
  collected : ℕ → ℕ → Kernel → Waited
  failed : Kernel → Waited
  none_yet : Kernel → Waited
  asleep : Kernel → Waited

-- One round of the loop; `none` is that of `schedule`.
unfoldable pub wait_round : ℕ → Kernel → ℕ → ℕ → ℕ → Option Waited
wait_round now k parent pid options = elim (find_zombie_child k (k.mem parent).pid pid) [
  | some z ↦ some (collected (k.mem z).pid (status_word (k.mem z)) (proc_destroy k z))
  | none ↦
      if options % 2 == wnohang
      then some (none_yet k)
      else Option.map asleep
          (sched_sleep now (with_process k parent (λ r. record r { state = wait })))
]

-- The check after the sleep, and the next round.
unfoldable pub wait_resume : ℕ → Kernel → ℕ → ℕ → ℕ → Option Waited
wait_resume now k parent pid options =
    let next = wait_round now k parent pid options in
    if not (has_children k (k.mem parent).pid pid) then some (failed k) else next

unfoldable pub proc_wait : ℕ → Kernel → ℕ → ℕ → Option Waited
proc_wait now k pid options =
    let k1 = with_process k k.current (λ r. record r { waiting_for = pid }) in
    let next = wait_round now k1 k.current pid options in
    if k.current == null
    then some (failed k)
    else if not (has_children k (k.mem k.current).pid pid)
    then some (failed k)
    else next

unfoldable pub proc_waitpid : ℕ → Kernel → ℕ → ℕ → Option Waited
proc_waitpid = proc_wait

unfoldable pub proc_wait_any : ℕ → Kernel → Option Waited
proc_wait_any now k = proc_wait now k any_pid 0
