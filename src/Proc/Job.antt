-- ===== src/Proc/Job.antt =====
-- kernel/proc/job.c: signals and jobs. The table is a function from slots. A result of -1 is `none`,
-- or `false`. The call of `proc_terminate` for the current process does not come back: the rest of the
-- caller is not run, which the results `away` say.
pub mod Slots
pub mod Signals
mod Tests
use mathlib.Core.Option
use grace_os.Prelude.{
  ℕ, zero, suc, ◌+◌, Bool, true, false, ◌&&◌, ◌||◌, not, Option, none, some, List, [], ◌∷◌, map,
  ◌==◌, if◌then◌else◌, length, put, modify, ◌>>=◌,
}
use grace_os.Text.{Text, copied}
use grace_os.Proc.Kernel.{ready, blocked, Process, Kernel, null, with_process, is_state}
use grace_os.Proc.Queue.{sched_add, sched_remove}
use grace_os.Proc.Table.{proc_find, proc_get_csid_group, proc_alloc_csid}
use grace_os.Proc.Life.{proc_terminate}

pub data JobState : Type 0 where
  job_running job_stopped job_done : JobState

-- `job_t`; a slot is free if `csid` is 0.
pub record Job : Type 0 where
  pub csid : ℕ
  pub leader : ℕ
  pub state : JobState
  pub command : Text
  pub job_num : ℕ

pub record Jobs : Type 0 where
  pub jobs : ℕ → Job
  pub next_job_num : ℕ

abbrev pub max_jobs : ℕ
max_jobs = 64

abbrev pub sigkill : ℕ
sigkill = 9

abbrev pub sigterm : ℕ
sigterm = 15

abbrev pub sigstop : ℕ
sigstop = 19

abbrev pub sigcont : ℕ
sigcont = 18

abbrev pub no_job : Job
no_job = record { csid = 0; leader = 0; state = job_running; command = []; job_num = 0 }

unfoldable pub job_init : Jobs
job_init = record { jobs = λ i. no_job; next_job_num = 1 }

-- The first of `n` slots from `i` on that passes a test.
unfoldable pub first_slot : (Job → Bool) → ℕ → ℕ → Jobs → Option ℕ
first_slot test zero i js = none
first_slot test (suc n) i js =
    let rest = first_slot test n (i + 1) js in if test (js.jobs i) then some i else rest

-- `next_job_num` is an `int`; its overflow is undefined.
abbrev pub put_job : Jobs → ℕ → ℕ → ℕ → Option Text → Jobs
put_job js slot csid leader cmd = record js {
  jobs = put js.jobs slot (record {
    csid = csid;
    leader = leader;
    state = job_running;
    command = command_text cmd;
    job_num = js.next_job_num;
  });
  next_job_num = js.next_job_num + 1;
}
  where
    command_text : Option Text → Text
    command_text none = []
    command_text (some c) = copied 63 c

unfoldable pub job_create : Jobs → ℕ → ℕ → Option Text → Option ℕ × Jobs
job_create js csid leader cmd = elim (first_slot (λ j. j.csid == 0) max_jobs 0 js) [
  | none ↦ (none, js)
  | some slot ↦ (some js.next_job_num, put_job js slot csid leader cmd)
]

unfoldable pub job_find_by_csid : Jobs → ℕ → Option ℕ
job_find_by_csid js csid = first_slot (λ j. j.csid == csid) max_jobs 0 js

unfoldable pub job_find_by_num : Jobs → ℕ → Option ℕ
job_find_by_num js num = first_slot (λ j. j.job_num == num && not (j.csid == 0)) max_jobs 0 js

unfoldable pub job_remove : Jobs → ℕ → Jobs
job_remove js csid = elim (job_find_by_csid js csid) [
  | none ↦ js
  | some slot ↦ record js { jobs = put js.jobs slot no_job }
]

-- Back with a result, or switched away for good.
pub data Run (A : Type 0) : Type 0 where
  back : A → Kernel → Run A
  away : Kernel → Run A

-- `proc_terminate` of the current process does not come back.
abbrev pub ended : Kernel → ℕ → Kernel → Run Bool
ended k p k' = if p == k.current then away k' else back true k'

-- The `switch` on the signal.
unfoldable pub deliver : ℕ → Kernel → ℕ → ℕ → Option (Run Bool)
deliver now k p signal =
    if signal == sigstop
    then some (back true (sched_remove (with_process k p (λ r. record r { state = blocked })) p))
    else if signal == sigcont
    then some (
        back true (
          if is_state (k.mem p).state blocked
          then sched_add (with_process k p (λ r. record r { state = ready })) p
          else k))
    else Option.map (ended k p) (proc_terminate now k p signal)

-- Whether the current process may signal the process.
abbrev pub may_signal : Kernel → ℕ → Bool
may_signal k p =
    let sender = k.mem k.current in
    k.current == null
    || sender.uid == 0
    || (k.mem p).uid == sender.uid
    || (k.mem p).uid == sender.euid

unfoldable pub proc_kill : ℕ → Kernel → ℕ → ℕ → Option (Run Bool)
proc_kill now k pid signal =
    let p = proc_find k pid in
    let sent = deliver now k p signal in
    if p == null || not (may_signal k p) then some (back false k) else sent

-- The loop of `job_kill_csid` over the processes of the group.
unfoldable pub kill_all : ℕ → Kernel → List ℕ → ℕ → Bool → Option (Run Bool)
kill_all now k [] signal result = some (back result k)
kill_all now k (p ∷ ps) signal result = proc_kill now k (k.mem p).pid signal >>= λ r. elim r [
  | back ok k' ↦ kill_all now k' ps signal (result && ok)
  | away k' ↦ some (away k')
]

-- The job's state after a signal.
abbrev pub state_after : ℕ → JobState → JobState
state_after signal s =
    if signal == sigkill || signal == sigterm
    then job_done
    else if signal == sigstop
    then job_stopped
    else if signal == sigcont
    then job_running
    else s

unfoldable pub set_state : Jobs → Option ℕ → (JobState → JobState) → Jobs
set_state js none f = js
set_state js (some i) f = record js {
  jobs = modify js.jobs i (λ j. record j { state = f j.state });
}

unfoldable pub job_kill_csid : ℕ → Kernel → Jobs → ℕ → ℕ → Option (Run Bool × Jobs)
job_kill_csid now k js csid signal =
    let procs = proc_get_csid_group k csid 64 in
    let sent = kill_all now k procs signal true in
    if length procs == 0
    then some (back false k, js)
    else sent >>= λ r. elim r [
      | away k' ↦ some (away k', js)
      | back ok k' ↦ some (back ok k', set_state js (job_find_by_csid js csid) (state_after signal))
    ]

unfoldable pub job_kill_num : ℕ → Kernel → Jobs → ℕ → ℕ → Option (Run Bool × Jobs)
job_kill_num now k js num signal = elim (job_find_by_num js num) [
  | none ↦ some (back false k, js)
  | some i ↦ job_kill_csid now k js (js.jobs i).csid signal
]

-- A new session for the current process; 0 for an error.
unfoldable pub proc_setsid : Kernel → ℕ × Kernel
proc_setsid k =
    let (csid, k1) = proc_alloc_csid k in
    if k.current == null || (k.mem k.current).pid == (k.mem k.current).csid
    then (0, k)
    else (csid, with_process k1 k.current (λ r. record r { csid = csid }))

-- The slots in use, at most `room` of them.
unfoldable pub list_from : ℕ → ℕ → ℕ → Jobs → List ℕ
list_from zero i room js = []
list_from (suc n) i zero js = []
list_from (suc n) i (suc room) js =
    let taken = i ∷ list_from n (i + 1) room js in
    let passed_over = list_from n (i + 1) (suc room) js in
    if (js.jobs i).csid == 0 then passed_over else taken

unfoldable pub job_list : Jobs → ℕ → List ℕ
job_list js room = list_from max_jobs 0 room js

abbrev pub is_stopped : JobState → Bool
is_stopped job_stopped = true
is_stopped _ = false

-- The end of `job_fg`: the job runs.
abbrev pub mark_running : ℕ → Run Bool × Jobs → Run Bool × Jobs
mark_running i (away k, js) = (away k, js)
mark_running i (back ok k, js) = (back true k, set_state js (some i) (λ s. job_running))

-- `job_fg`; `job_bg` does the same.
unfoldable pub job_fg : ℕ → Kernel → Jobs → ℕ → Option (Run Bool × Jobs)
job_fg now k js num = elim (job_find_by_num js num) [
  | none ↦ some (back false k, js)
  | some i ↦
      let continued = job_kill_csid now k js (js.jobs i).csid sigcont in
      if is_stopped (js.jobs i).state
      then Option.map (mark_running i) continued
      else some (mark_running i (back true k, js))
]

unfoldable pub job_bg : ℕ → Kernel → Jobs → ℕ → Option (Run Bool × Jobs)
job_bg = job_fg
