-- ===== src/Proc/Life.antt =====
-- kernel/proc/proc.c and zombie.c: creation, state changes, exit, termination and destruction of
-- processes. The address that `kmalloc` answers and the time are arguments. What `sasy_release_process`
-- does to the segments of SASY, and the freeing of the PCB's memory, are outside this state.
pub mod Exit
pub mod Create
use grace_os.Prelude.{
  ℕ, true, ◌||◌, Option, some, List, [], ◌∷◌, ◌==◌, if◌then◌else◌, replicate, put,
}
use grace_os.Prelude.Int.{ℤ, pos}
use grace_os.Proc.Kernel.{
  ProcState, new, ready, blocked, zombie, dead, Process, Kernel, null, pid_invalid, pid_init,
  with_process, is_state,
}
use grace_os.Proc.Queue.{sched_add, sched_remove}
use grace_os.Proc.Table.{
  proc_alloc_pid, proc_alloc_csid, proc_table_add, proc_table_remove, proc_get_children,
  proc_reparent_children,
}
use grace_os.Proc.Sched.{schedule}
use grace_os.Proc.Timer.{sched_wake_parent}

abbrev pub invalid_handle : ℕ
invalid_handle = 0xffff_ffff

-- No segment, and no open file.
abbrev pub no_segments : List ℕ
no_segments = replicate 16 invalid_handle

abbrev pub no_fds : List ℕ
no_fds = replicate 64 null

abbrev pub cap_all : ℕ
cap_all = 0xffff_ffff

-- The PCB that `proc_create` sets up for a child of `parent`, or for the leader of a new session.
abbrev pub child_of : ℕ → ℕ → Process → Process
child_of now pid parent = record {
  pid = pid;
  csid = parent.csid;
  parent = parent.pid;
  state = new;
  valid = true;
  flags = 0;
  start_time = now;
  cpu_time = 0;
  est_runtime = 100;
  wait_time = 0;
  last_run = 0;
  sleep_until = 0;
  exit_code = 0;
  exit_signal = 0;
  pml4 = 0;
  segments = no_segments;
  brk = 0;
  fds = no_fds;
  uid = parent.uid;
  euid = parent.euid;
  gid = parent.gid;
  egid = parent.egid;
  caps = parent.caps;
  caps_effective = 0;
  caps_bounding = 0;
  ipc = null;
  base_priority = parent.base_priority;
  current_priority = parent.base_priority;
  nice = parent.nice;
  waiting_for = pid_invalid;
  next = null;
  prev = null;
}

abbrev pub session_leader : ℕ → ℕ → ℕ → Process → Process
session_leader now pid csid r = record (child_of now pid r) {
  csid = csid;
  parent = 0;
  uid = 0;
  euid = 0;
  gid = 0;
  egid = 0;
  caps = cap_all;
  base_priority = pos 20;
  current_priority = pos 20;
  nice = pos 0;
}

-- The new PCB in memory and in the table.
unfoldable pub enter : Kernel → ℕ → Process → Kernel
enter k p r = proc_table_add (record k { mem = put k.mem p r }) p

-- `fresh` is the address of the PCB, null when there is no memory; so is the answer.
unfoldable pub proc_create : ℕ → ℕ → ℕ → Kernel → ℕ × Kernel
proc_create now fresh parent k =
    let (pid, k1) = proc_alloc_pid k in
    let (csid, k2) = proc_alloc_csid k1 in
    if fresh == null
    then (null, k)
    else if pid == pid_invalid
    then (null, k1)
    else if parent == null
    then (fresh, enter k2 fresh (session_leader now pid csid (k.mem fresh)))
    else (fresh, enter k1 fresh (child_of now pid (k.mem parent)))

unfoldable pub proc_destroy : Kernel → ℕ → Kernel
proc_destroy k p =
    let k1 = proc_reparent_children k (k.mem p).pid in
    let k2 = with_process k1 p (λ r. record r { fds = no_fds; ipc = null }) in
    if p == null
    then k
    else with_process (proc_table_remove k2 (k2.mem p).pid) p (λ r. record r { state = dead })

unfoldable pub proc_set_ready : Kernel → ℕ → Kernel
proc_set_ready k p =
    if p == null || is_state (k.mem p).state zombie || is_state (k.mem p).state dead
    then k
    else sched_add (with_process k p (λ r. record r { state = ready })) p

unfoldable pub proc_set_blocked : Kernel → ℕ → Kernel
proc_set_blocked k p =
    if p == null then k else sched_remove (with_process k p (λ r. record r { state = blocked })) p

unfoldable pub proc_set_zombie : Kernel → ℕ → ℕ → Kernel
proc_set_zombie k p exit_code =
    if p == null
    then k
    else sched_wake_parent
        (sched_remove (with_process k p (λ r. record r { state = zombie; exit_code = exit_code }))
          p)
        (k.mem p).pid

-- What `proc_exit` and `proc_terminate` share: the children go to init, the process becomes a zombie
-- and leaves the queue, and its parent is called.
abbrev pub become_zombie : Kernel → ℕ → Kernel
become_zombie k p =
    let k1 = proc_reparent_children k (k.mem p).pid in
    let k2 = with_process k1 p (λ r. record r { state = zombie }) in
    sched_wake_parent (sched_remove k2 p) (k.mem p).pid

-- `proc_exit` up to its call of `schedule`, which does not come back.
unfoldable pub end_current : Kernel → ℕ → Kernel
end_current k code =
    become_zombie
      (with_process k k.current (λ r. record r {
        exit_code = code;
        exit_signal = 0;
        segments = no_segments;
        fds = no_fds;
        ipc = null;
      }))
      k.current

unfoldable pub proc_exit : ℕ → Kernel → ℕ → Option Kernel
proc_exit now k code =
    if k.current == null
      || is_state (k.mem k.current).state zombie
      || is_state (k.mem k.current).state dead
    then some k
    else schedule now (end_current k code)

unfoldable pub end_by_signal : Kernel → ℕ → ℕ → Kernel
end_by_signal k p signal =
    become_zombie
      (with_process k p (λ r. record r {
        exit_signal = signal;
        exit_code = 0;
        segments = no_segments;
        fds = no_fds;
      }))
      p

unfoldable pub proc_terminate : ℕ → Kernel → ℕ → ℕ → Option Kernel
proc_terminate now k p signal =
    let k1 = end_by_signal k p signal in
    if p == null then some k else if p == k.current then schedule now k1 else some k1

-- The loop of `proc_reap_zombies` over the children of init.
unfoldable pub reap_all : List ℕ → Kernel → Kernel
reap_all [] k = k
reap_all (p ∷ ps) k = reap_all ps (if is_state (k.mem p).state zombie then proc_destroy k p else k)

unfoldable pub proc_reap_zombies : Kernel → Kernel
proc_reap_zombies k = reap_all (proc_get_children k pid_init 64) k

unfoldable pub panic_exit : ℕ → Kernel → ℕ → Option Kernel
panic_exit now k p =
    let k1 = sched_remove (with_process k p (λ r. record r { state = dead })) p in
    let k2 = proc_reparent_children k1 (k1.mem p).pid in
    if p == null
    then some k
    else if p == k.current
    then schedule now (record k2 { current = null })
    else some k2
