-- ===== src/Proc/Small.antt =====
-- A small kernel for runs of kernel/proc: the processes 2, 3 and 4 are queued, 2 is running, 5 is
-- blocked and not queued.
use grace_os.Prelude.{ℕ, true, ◌&&◌, List, [], ◌∷◌, arith, leb, ◌==◌, if◌then◌else◌}
use grace_os.Prelude.Int.{pos}
use grace_os.Proc.Kernel.{new, ready, running, blocked, ProcState, Process, Kernel}
use grace_os.Proc.Queue.Segment.{NotIn}
use grace_os.Proc.Queue.Refine.{IsQueue}
use grace_os.Proc.Sched.Switch.{OnlyCurrentRuns}

abbrev process : ℕ → ProcState → ℕ → ℕ → Process
process p st n b = record {
  pid = p;
  csid = 1;
  parent = 2;
  state = st;
  valid = true;
  flags = 0;
  start_time = 0;
  cpu_time = 0;
  est_runtime = 10;
  wait_time = 0;
  last_run = 0;
  sleep_until = 0;
  exit_code = 0;
  exit_signal = 0;
  pml4 = 0;
  segments = [];
  brk = 0;
  fds = [];
  uid = 0;
  euid = 0;
  gid = 0;
  egid = 0;
  caps = 0;
  caps_effective = 0;
  caps_bounding = 0;
  ipc = 0;
  base_priority = pos 20;
  current_priority = pos p;
  nice = pos 0;
  waiting_for = 0;
  next = n;
  prev = b;
}

abbrev pub processes : ℕ → Process
processes p =
    if p == 2
    then process 2 running 3 0
    else if p == 3
    then process 3 ready 4 2
    else if p == 4
    then process 4 ready 0 3
    else if p == 5
    then process 5 blocked 0 0
    else process 0 new 0 0

abbrev pub table : ℕ → ℕ
table i = if leb 2 i && leb i 5 then i else 0

abbrev pub three_queued : Kernel
three_queued = record {
  mem = processes;
  proc_table = table;
  next_pid = 2;
  next_csid = 2;
  current = 2;
  run_queue_head = 2;
  run_queue_tail = 4;
  preempt_count = 0;
  stats = record {
    context_switches = 0;
    idle_time = 0;
    total_ticks = 0;
    runnable_count = 3;
    blocked_count = 1;
  };
}

abbrev pub queued : List ℕ
queued = 2 ∷ 3 ∷ 4 ∷ []

pub three_queued-IsQueue : IsQueue three_queued queued
three_queued-IsQueue = record {
  linked = ground arith;
  distinct = ground arith;
  unlinked = λ p out. ground arith;
}

pub two_alone : OnlyCurrentRuns three_queued
two_alone p nn h = ground arith

pub five-NotIn : NotIn 5 queued
five-NotIn = ground arith
