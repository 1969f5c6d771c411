-- ===== src/Proc/Table.antt =====
-- kernel/proc/table.c: the process table, the allocation of process and session identifiers, and the
-- walks over the table.
pub mod Pids
pub mod Children
use grace_os.Prelude.{
  ℕ, zero, suc, ◌+◌, ◌-◌, bit_or, Bool, ◌&&◌, ◌||◌, not, List, [], ◌∷◌, leb, ◌==◌, if◌then◌else◌,
  put, inc16,
}
use grace_os.Proc.Kernel.{
  Process, Kernel, null, max_proc, pid_invalid, pid_init, with_process, is_state, dead,
}

-- `while (pid < limit && proc_table[pid] != NULL) pid++;`, over the `n` numbers from `pid` to the limit.
unfoldable pub next_free : ℕ → ℕ → (ℕ → ℕ) → ℕ
next_free zero pid table = pid
next_free (suc n) pid table =
    let rest = next_free n (pid + 1) table in if table pid == null then pid else rest

abbrev pub after_pid : ℕ → ℕ
after_pid pid = if leb max_proc (pid + 1) then 1 else pid + 1

abbrev pub took_pid : Kernel → ℕ → ℕ × Kernel
took_pid k pid = (pid, record k { next_pid = after_pid pid })

unfoldable pub proc_alloc_pid : Kernel → ℕ × Kernel
proc_alloc_pid k =
    let pid = next_free (max_proc - k.next_pid) k.next_pid k.proc_table in
    let again = next_free (k.next_pid - 1) 1 k.proc_table in
    if leb max_proc pid
    then if leb k.next_pid again then (pid_invalid, k) else took_pid k again
    else took_pid k pid

-- `next_csid++`, which skips 0 when it wraps.
unfoldable pub proc_alloc_csid : Kernel → ℕ × Kernel
proc_alloc_csid k =
    let next = inc16 k.next_csid in
    (k.next_csid, record k { next_csid = if next == 0 then 1 else next })

unfoldable pub proc_table_add : Kernel → ℕ → Kernel
proc_table_add k p =
    if p == null || (k.mem p).pid == pid_invalid || leb max_proc (k.mem p).pid
    then k
    else record k { proc_table = put k.proc_table (k.mem p).pid p }

unfoldable pub proc_table_remove : Kernel → ℕ → Kernel
proc_table_remove k pid =
    if pid == pid_invalid || leb max_proc pid
    then k
    else record k { proc_table = put k.proc_table pid null }

unfoldable pub proc_find : Kernel → ℕ → ℕ
proc_find k pid = if pid == pid_invalid || leb max_proc pid then null else k.proc_table pid

-- The first `room` processes that pass a test, among `n` slots from `i` on.
unfoldable pub collect : (Process → Bool) → ℕ → ℕ → ℕ → Kernel → List ℕ
collect test zero i room k = []
collect test (suc n) i zero k = []
collect test (suc n) i (suc room) k =
    let p = k.proc_table i in
    let taken = p ∷ collect test n (i + 1) room k in
    let passed_over = collect test n (i + 1) (suc room) k in
    if not (p == null) && test (k.mem p) then taken else passed_over

unfoldable pub proc_get_csid_group : Kernel → ℕ → ℕ → List ℕ
proc_get_csid_group k csid room = collect (λ r. r.csid == csid) max_proc 0 room k

unfoldable pub proc_get_children : Kernel → ℕ → ℕ → List ℕ
proc_get_children k parent room = collect (λ r. r.parent == parent) max_proc 0 room k

unfoldable pub count_from : ℕ → ℕ → Kernel → ℕ
count_from zero i k = 0
count_from (suc n) i k =
    let p = k.proc_table i in
    count_from n (i + 1) k
    + (if not (p == null) && not (is_state (k.mem p).state dead) then 1 else 0)

unfoldable pub proc_count : Kernel → ℕ
proc_count = count_from max_proc 0

abbrev pub flag_orphan : ℕ
flag_orphan = 0x20

-- A child of `old_parent` becomes one of init, and an orphan.
abbrev pub adopt : ℕ → Process → Process
adopt old_parent r =
    if r.parent == old_parent
    then record r { parent = pid_init; flags = bit_or r.flags flag_orphan }
    else r

unfoldable pub reparent_from : ℕ → ℕ → ℕ → Kernel → Kernel
reparent_from zero i old_parent k = k
reparent_from (suc n) i old_parent k =
    reparent_from n (i + 1) old_parent
      (if k.proc_table i == null then k else with_process k (k.proc_table i) (adopt old_parent))

unfoldable pub proc_reparent_children : Kernel → ℕ → Kernel
proc_reparent_children k old_parent = reparent_from max_proc 0 old_parent k
