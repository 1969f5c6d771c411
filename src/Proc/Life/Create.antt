-- ===== src/Proc/Life/Create.antt =====
-- kernel/proc/proc.c: what `proc_create` makes.
use grace_os.Prelude.{
  ℕ, ◌-◌, ◌^◌, ◌≡◌, refl, sym, ap, ◌∙◌, subst, ◌≢◌, ◌⊎◌, inl, inr, true, arith, ℕ_discrete, ◌==◌,
  if◌then◌else◌, ==_ne, replicate,
}
use grace_os.Proc.Kernel.{new, Process, Kernel, null, pid_invalid}
use grace_os.Prelude.Int.{pos}
use grace_os.Proc.Table.{proc_alloc_pid, proc_alloc_csid, proc_table_add, proc_find}
use grace_os.Proc.Table.Pids.{IsPid, PidOutcome, proc_alloc_pid_lem}
use grace_os.Proc.Life.{child_of, session_leader, enter, proc_create}

-- The PCB that is entered.
abbrev made : ℕ → ℕ → ℕ → ℕ → ℕ → Kernel → Process
made now fresh parent pid csid k =
    if parent == null
    then session_leader now pid csid (k.mem fresh)
    else child_of now pid (k.mem parent)

enter-found :
    (k : Kernel) (p i : ℕ) (r : Process)
    → p ≢ null
    → IsPid r.pid
    → (proc_find (enter k p r) r.pid ≡ p)
      × ((enter k p r).mem p ≡ r)
      × (i ≢ p → (enter k p r).mem i ≡ k.mem i)
      × (i ≢ r.pid → (enter k p r).proc_table i ≡ k.proc_table i)
unfolding enter proc_table_add proc_find
enter-found k p i r nn v = ground arith

-- The state of a process that was just made: it has not run, and has no memory and no files.
pub record IsNew (now pid : ℕ) (r : Process) : Type 0 where
  pub identifier : r.pid ≡ pid
  pub state : r.state ≡ new
  pub valid : r.valid ≡ true
  pub started : r.start_time ≡ now
  pub times : (r.cpu_time ≡ 0) × (r.wait_time ≡ 0) × (r.last_run ≡ 0) × (r.sleep_until ≡ 0)
  pub segments : r.segments ≡ replicate 16 (2 ^ 32 - 1)
  pub fds : r.fds ≡ replicate 64 0
  pub memory : (r.pml4 ≡ 0) × (r.brk ≡ 0)
  pub links : (r.next ≡ null) × (r.prev ≡ null)
  pub ceilings : (r.caps_effective ≡ 0) × (r.caps_bounding ≡ 0)

-- A child has the session, the identities, the capabilities and the priorities of its parent.
pub record IsChild (p r : Process) : Type 0 where
  pub parent : r.parent ≡ p.pid
  pub session : r.csid ≡ p.csid
  pub identities : (r.uid ≡ p.uid) × (r.euid ≡ p.euid) × (r.gid ≡ p.gid) × (r.egid ≡ p.egid)
  pub caps : r.caps ≡ p.caps
  pub priorities :
      (r.base_priority ≡ p.base_priority)
      × (r.current_priority ≡ p.base_priority)
      × (r.nice ≡ p.nice)

-- The leader of a session of its own is root, with all capabilities and the default priority.
pub record IsLeader (csid : ℕ) (r : Process) : Type 0 where
  pub parent : r.parent ≡ 0
  pub session : r.csid ≡ csid
  pub identities : (r.uid ≡ 0) × (r.euid ≡ 0) × (r.gid ≡ 0) × (r.egid ≡ 0)
  pub caps : r.caps ≡ 2 ^ 32 - 1
  pub priorities : (r.base_priority ≡ pos 20) × (r.current_priority ≡ pos 20) × (r.nice ≡ pos 0)

made-IsNew :
    (now fresh parent pid csid : ℕ) (k : Kernel) → IsNew now pid (made now fresh parent pid csid k)
made-IsNew now fresh parent pid csid k = elim (ℕ_discrete parent null) [
  | yes h ↦ rw h (record {
    identifier = refl;
    state = refl;
    valid = refl;
    started = refl;
    times = (refl, refl, refl, refl);
    segments = refl;
    fds = refl;
    memory = (refl, refl);
    links = (refl, refl);
    ceilings = (refl, refl);
  })
  | no h ↦ rw (==_ne parent null h) (record {
    identifier = refl;
    state = refl;
    valid = refl;
    started = refl;
    times = (refl, refl, refl, refl);
    segments = refl;
    fds = refl;
    memory = (refl, refl);
    links = (refl, refl);
    ceilings = (refl, refl);
  })
]

made-IsChild :
    (now fresh parent pid csid : ℕ) (k : Kernel)
    → parent ≢ null
    → IsChild (k.mem parent) (made now fresh parent pid csid k)
made-IsChild now fresh parent pid csid k ne = rw (==_ne parent null ne) (record {
  parent = refl;
  session = refl;
  identities = (refl, refl, refl, refl);
  caps = refl;
  priorities = (refl, refl, refl);
})

made-IsLeader :
    (now fresh parent pid csid : ℕ) (k : Kernel)
    → parent ≡ null
    → IsLeader csid (made now fresh parent pid csid k)
made-IsLeader now fresh parent pid csid k e = rw e (record {
  parent = refl;
  session = refl;
  identities = (refl, refl, refl, refl);
  caps = refl;
  priorities = (refl, refl, refl);
})

-- A new process: found under an identifier that was free, a child of its parent, or the leader of a new
-- session without one.
pub record Created (k : Kernel) (now fresh parent : ℕ) (k' : Kernel) : Type 0 where
  pub pid : ℕ
  pub in_range : IsPid pid
  pub was_free : k.proc_table pid ≡ null
  pub found : proc_find k' pid ≡ fresh
  pub initial : IsNew now pid (k'.mem fresh)
  pub child : parent ≢ null → IsChild (k.mem parent) (k'.mem fresh)
  pub leader : parent ≡ null → IsLeader k.next_csid (k'.mem fresh)
  pub others : (i : ℕ) → i ≢ fresh → k'.mem i ≡ k.mem i
  pub entries : (i : ℕ) → i ≢ pid → k'.proc_table i ≡ k.proc_table i

proc_create-entered :
    (now fresh parent n pid : ℕ) (k : Kernel)
    → fresh ≢ null
    → IsPid pid
    → proc_alloc_pid k ≡ (pid, record k { next_pid = n })
    → (csid : ℕ) × (m : ℕ) × (parent ≡ null → csid ≡ k.next_csid)
      × (proc_create now fresh parent k ≡ (
        fresh,
        enter (record k { next_pid = n; next_csid = m }) fresh (made now fresh parent pid csid k),
      ))
unfolding proc_create proc_alloc_csid
proc_create-entered now fresh parent n pid k nn v e = elim (ℕ_discrete parent null) [
  | yes h ↦ (
    k.next_csid,
    (proc_alloc_csid k).1.next_csid,
    λ e'. refl,
    rw (e, ==_ne fresh null nn, ==_ne pid pid_invalid (omega (arith, v)), h) refl,
  )
  | no h ↦ (
    0,
    k.next_csid,
    λ e'. absurd (h e'),
    rw (e, ==_ne fresh null nn, ==_ne pid pid_invalid (omega (arith, v)), ==_ne parent null h) refl,
  )
]

no_pid :
    (now fresh parent pid : ℕ) (k' k : Kernel)
    → fresh ≢ null
    → pid ≡ pid_invalid
    → proc_alloc_pid k ≡ (pid, k')
    → (proc_create now fresh parent k).0 ≡ null
unfolding proc_create
no_pid now fresh parent pid k' k nn z e = rw (e, ==_ne fresh null nn, z) refl

entered-Created :
    (k : Kernel) (now fresh parent n pid csid m : ℕ)
    → fresh ≢ null
    → IsPid pid
    → k.proc_table pid ≡ null
    → (parent ≡ null → csid ≡ k.next_csid)
    → Created k now fresh parent
        (enter (record k { next_pid = n; next_csid = m }) fresh (made now fresh parent pid csid k))
entered-Created k now fresh parent n pid csid m nn v free session =
    let r = made now fresh parent pid csid k in
    let same : r.pid ≡ pid = ground arith in
    let k1 : Kernel = record k { next_pid = n; next_csid = m } in
    let v' : IsPid r.pid = (omega (arith, same, v), omega (arith, same, v)) in
    let at_fresh = (enter-found k1 fresh 0 r nn v').1 in
    record {
      pid = pid;
      in_range = v;
      was_free = free;
      found =
          subst (λ i. proc_find (enter k1 fresh r) i ≡ fresh) same
            (enter-found k1 fresh 0 r nn v').0;
      initial = subst (IsNew now pid) (sym at_fresh) (made-IsNew now fresh parent pid csid k);
      child = λ ne.
          subst (IsChild (k.mem parent)) (sym at_fresh)
            (made-IsChild now fresh parent pid csid k ne);
      leader = λ e.
          subst (λ c. IsLeader c ((enter k1 fresh r).mem fresh)) (session e)
            (subst (IsLeader csid) (sym at_fresh) (made-IsLeader now fresh parent pid csid k e));
      others = λ i. (enter-found k1 fresh i r nn v').2;
      entries = λ i ne. (enter-found k1 fresh i r nn v').3 (λ e. ne (e ∙ same));
    }

-- With memory for the PCB and the next identifier in range, `proc_create` makes a process that is new and
-- found under an identifier that was free. It is a child with the session, the identities, the
-- capabilities and the priorities of its parent, or, without one, root and the leader of a new session.
-- No other process and no other entry is touched; it fails only when every identifier is taken.
pub proc_create_lem :
    (now fresh parent : ℕ) (k : Kernel)
    → fresh ≢ null
    → IsPid k.next_pid
    → let r = proc_create now fresh parent k in
      ((r.0 ≡ fresh) × Created k now fresh parent r.1)
      ⊎ ((r.0 ≡ null) × ((j : ℕ) → IsPid j → k.proc_table j ≢ null))
proc_create_lem now fresh parent k nn v =
    outcome (proc_alloc_pid k).0 (proc_alloc_pid k).1 refl (proc_alloc_pid_lem k v)
  where
    outcome :
        (pid : ℕ) (k' : Kernel)
        → proc_alloc_pid k ≡ (pid, k')
        → PidOutcome k (pid, k')
        → let r = proc_create now fresh parent k in
          ((r.0 ≡ fresh) × Created k now fresh parent r.1)
          ⊎ ((r.0 ≡ null) × ((j : ℕ) → IsPid j → k.proc_table j ≢ null))
    outcome pid k' e (inl (n, range, free, next, e')) =
        let (csid, m, session, run) =
          proc_create-entered now fresh parent n pid k nn range (e ∙ ap (λ z. (pid, z)) e') in
        rw run (inl (refl, entered-Created k now fresh parent n pid csid m nn range free session))
    outcome pid k' e (inr (none_left, same, all)) =
        inr (no_pid now fresh parent pid k' k nn none_left e, all)
