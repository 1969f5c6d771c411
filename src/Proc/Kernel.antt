-- ===== src/Proc/Kernel.antt =====
-- kernel/proc/proc.h and the static variables of table.c and sched.c: the state that the process
-- subsystem shares. A `process_t*` is an address, 0 is NULL, and the PCBs are a memory. An `int` that
-- is only stored, masked or compared with 0 is its 32-bit pattern.
use grace_os.Prelude.{ℕ, ◌≡◌, ◌↔◌, Bool, true, false, List, arith, modify}
use grace_os.Prelude.Int.{ℤ}

pub data ProcState : Type 0 where
  new ready running wait blocked zombie dead : ProcState

pub ProcState-discrete : Discrete ProcState
ProcState-discrete = hlevel

-- `process_t`, without the names, the CPU contexts, the stacks and the pointer for the status, which is
-- stored and never read.
pub record Process : Type 0 where
  pub pid : ℕ
  pub csid : ℕ
  pub parent : ℕ
  pub state : ProcState
  pub valid : Bool
  pub flags : ℕ
  pub start_time : ℕ
  pub cpu_time : ℕ
  pub est_runtime : ℕ
  pub wait_time : ℕ
  pub last_run : ℕ
  pub sleep_until : ℕ
  pub exit_code : ℕ
  pub exit_signal : ℕ
  pub pml4 : ℕ
  pub segments : List ℕ
  pub brk : ℕ
  pub fds : List ℕ
  pub uid : ℕ
  pub euid : ℕ
  pub gid : ℕ
  pub egid : ℕ
  pub caps : ℕ
  pub caps_effective : ℕ
  pub caps_bounding : ℕ
  pub ipc : ℕ
  pub base_priority : ℤ
  pub current_priority : ℤ
  pub nice : ℤ
  pub waiting_for : ℕ
  pub next : ℕ
  pub prev : ℕ

-- `sched_stats_t`
pub record Stats : Type 0 where
  pub context_switches : ℕ
  pub idle_time : ℕ
  pub total_ticks : ℕ
  pub runnable_count : ℕ
  pub blocked_count : ℕ

pub record Kernel : Type 0 where
  pub mem : ℕ → Process
  pub proc_table : ℕ → ℕ
  pub next_pid : ℕ
  pub next_csid : ℕ
  pub current : ℕ
  pub run_queue_head : ℕ
  pub run_queue_tail : ℕ
  pub preempt_count : ℕ
  pub stats : Stats

abbrev pub null : ℕ
null = 0

-- The address of `idle_proc`.
abbrev pub idle_proc : ℕ
idle_proc = 1

abbrev pub max_proc : ℕ
max_proc = 8192

abbrev pub pid_invalid : ℕ
pid_invalid = 0

abbrev pub pid_init : ℕ
pid_init = 1

-- One PCB changed.
abbrev pub with_process : Kernel → ℕ → (Process → Process) → Kernel
with_process k p f = record k { mem = modify k.mem p f }

abbrev pub with_stats : Kernel → (Stats → Stats) → Kernel
with_stats k f = record k { stats = f k.stats }

abbrev pub is_state : ProcState → ProcState → Bool
is_state new new = true
is_state ready ready = true
is_state running running = true
is_state wait wait = true
is_state blocked blocked = true
is_state zombie zombie = true
is_state dead dead = true
is_state _ _ = false

pub is_state_iff : (a b : ProcState) → (is_state a b ≡ true) ↔ (a ≡ b)
is_state_iff a b = ground arith
