-- ===== src/Proc/Wait/Collect.antt =====
-- kernel/proc/wait.c: which child a call collects, and what is left of it.
use grace_os.Prelude.{
  ℕ, zero, suc, ◌+◌, ◌%◌, ◌≡◌, refl, sym, ap, ◌∙◌, subst, ◌≢◌, ◌↔◌, ◌⊎◌, inl, inr, Bool, true, ◌&&◌,
  ◌||◌, not, Option, none, some, List, [], ◌∷◌, arith, ℕ_discrete, ◌==◌, ==_ne, Bool-cases,
  Option-cases,
}
use grace_os.Proc.Kernel.{
  Process, Kernel, null, zombie, dead, max_proc, with_process, is_state, is_state_iff,
}
use grace_os.Proc.Queue.Segment.{member}
use grace_os.Proc.Table.{collect, proc_get_children, proc_find, proc_table_remove}
use grace_os.Proc.Table.Children.{proc_reparent_children-OnlyParents}
use grace_os.Proc.Life.{proc_destroy}
use grace_os.Proc.Wait.{
  wnohang, Waited, collected, none_yet, any_pid, first_zombie, find_zombie_child, has_children,
  status_word, wait_round, proc_wait,
}

-- What is collected from the table is in it, and passes the test.
collect-member :
    (test : Process → Bool) (n i room : ℕ) (k : Kernel) (p : ℕ)
    → member p (collect test n i room k) ≡ true
    → (j : ℕ) × (k.proc_table j ≡ p) × (p ≢ null) × (test (k.mem p) ≡ true)
unfolding collect
collect-member test zero i room k p h = absurd (ground arith)
collect-member test (suc n) i zero k p h = absurd (ground arith)
collect-member test (suc n) i (suc room) k p h =
    elim (Bool-cases (not (k.proc_table i == null) && test (k.mem (k.proc_table i)))) [
      | inl ok ↦ elim (ℕ_discrete p (k.proc_table i)) [
        | yes e ↦ (i, sym e, ground (arith, e, ok), ap (λ q. test (k.mem q)) e ∙ ground (arith, ok))
        | no ne ↦ collect-member test n (i + 1) room k p (ground (arith, h, ok, ne))
      ]
      | inr bad ↦ collect-member test n (i + 1) (suc room) k p (ground (arith, h, bad))
    ]

-- A process that the call may wait for, and that has ended.
abbrev Fits : ℕ → Kernel → ℕ → Type 0
Fits target k z = ((k.mem z).state ≡ zombie) × ((target ≡ any_pid) ⊎ ((k.mem z).pid ≡ target))

abbrev fits : ℕ → Kernel → ℕ → Bool
fits target k p = (target == any_pid || (k.mem p).pid == target) && is_state (k.mem p).state zombie

fits_iff : (target : ℕ) (k : Kernel) (p : ℕ) → (fits target k p ≡ true) ↔ Fits target k p
fits_iff target k p = ground (arith, is_state_iff (k.mem p).state zombie)

first_zombie-some :
    (target : ℕ) (k : Kernel) (ps : List ℕ) (z : ℕ)
    → first_zombie target k ps ≡ some z
    → (member z ps ≡ true) × Fits target k z
unfolding first_zombie
first_zombie-some target k [] z h = absurd (ground arith)
first_zombie-some target k (p ∷ ps) z h = elim (Bool-cases (fits target k p)) [
  | inl ok ↦
      let is : p ≡ z = ground (arith, h, ok) in
      (ground (arith, is), subst (Fits target k) is ((fits_iff target k p).0 ok))
  | inr bad ↦
      let (inside, ends) = first_zombie-some target k ps z (ground (arith, h, bad)) in
      (ground (arith, inside), ends)
]

first_zombie-none :
    (target : ℕ) (k : Kernel) (ps : List ℕ) (z : ℕ)
    → first_zombie target k ps ≡ none
    → member z ps ≡ true
    → ¬ (Fits target k z)
unfolding first_zombie
first_zombie-none target k [] z h m e = cc
first_zombie-none target k (p ∷ ps) z h m e = elim (Bool-cases (fits target k p)) [
  | inl ok ↦ absurd (ground (arith, h, ok))
  | inr bad ↦ elim (ℕ_discrete z p) [
    | yes same ↦ cc ((fits_iff target k p).1 (subst (Fits target k) same e), bad)
    | no ne ↦ first_zombie-none target k ps z (ground (arith, h, bad)) (ground (arith, m, ne)) e
  ]
]

proc_destroy-gone :
    (k : Kernel) (p : ℕ)
    → p ≢ null
    → (((proc_destroy k p).mem p).state ≡ dead)
      × (proc_find (proc_destroy k p) (k.mem p).pid ≡ null)
unfolding proc_destroy proc_find proc_table_remove
proc_destroy-gone k p nn =
    let o = (proc_reparent_children-OnlyParents k (k.mem p).pid).each p in ground (arith, o)

-- The state in which the search is made.
abbrev pub waiting : Kernel → ℕ → Kernel
waiting k pid = with_process k k.current (λ r. record r { waiting_for = pid })

-- A child in the table that the call may wait for, and that has ended.
pub record IsEndedChild (k : Kernel) (pid z : ℕ) : Type 0 where
  pub in_table : (j : ℕ) × (k.proc_table j ≡ z)
  pub real : z ≢ null
  pub child : (k.mem z).parent ≡ (k.mem k.current).pid
  pub ended : (k.mem z).state ≡ zombie
  pub meant : (pid ≡ any_pid) ⊎ ((k.mem z).pid ≡ pid)

-- A child collected, and gone from the table; or none to collect, which `WNOHANG` returns at once.
abbrev pub WaitOutcome : Kernel → ℕ → ℕ → Option Waited → Type 0
WaitOutcome k pid options r =
    ((z : ℕ) × (k' : Kernel) × IsEndedChild (waiting k pid) pid z
      × (r ≡ some (collected ((waiting k pid).mem z).pid (status_word ((waiting k pid).mem z)) k'))
      × ((k'.mem z).state ≡ dead)
      × (proc_find k' ((waiting k pid).mem z).pid ≡ null))
    ⊎ (((z : ℕ)
          → member z (proc_get_children (waiting k pid) (k.mem k.current).pid 64) ≡ true
          → ¬ (Fits pid (waiting k pid) z))
        × (options % 2 ≡ wnohang → r ≡ some (none_yet (waiting k pid))))

-- The search on the children of the current process, as the round makes it.
module _ (now : ℕ) (k : Kernel) (pid options : ℕ) where
  found_child : Option ℕ
  found_child = find_zombie_child (waiting k pid) (k.mem k.current).pid pid

  round-start :
      k.current ≢ null
      → has_children k (k.mem k.current).pid pid ≡ true
      → proc_wait now k pid options ≡ wait_round now (waiting k pid) k.current pid options
  unfolding proc_wait
  round-start nn some_child = rw (==_ne k.current null nn, some_child) refl

  same_pid : ((waiting k pid).mem k.current).pid ≡ (k.mem k.current).pid
  same_pid = ground arith

  round-some :
      (z : ℕ)
      → found_child ≡ some z
      → wait_round now (waiting k pid) k.current pid options
        ≡ some (
            collected
              ((waiting k pid).mem z).pid
              (status_word ((waiting k pid).mem z))
              (proc_destroy (waiting k pid) z))
  unfolding wait_round found_child
  round-some z e = ground (arith, same_pid, e)

  round-none :
      found_child ≡ none
      → options % 2 ≡ wnohang
      → wait_round now (waiting k pid) k.current pid options ≡ some (none_yet (waiting k pid))
  unfolding wait_round found_child
  round-none e h = ground (arith, same_pid, e, h)

  found_child-IsEndedChild : (z : ℕ) → found_child ≡ some z → IsEndedChild (waiting k pid) pid z
  unfolding found_child find_zombie_child proc_get_children
  found_child-IsEndedChild z e =
      let (inside, (ends, meant)) = first_zombie-some pid (waiting k pid) _ z e in
      let (j, at_j, real, child) =
        collect-member (λ r. r.parent == (k.mem k.current).pid) max_proc 0 64 (waiting k pid) z
          inside in
      record {
        in_table = (j, at_j);
        real = real;
        child = ground (arith, child, same_pid);
        ended = ends;
        meant = meant;
      }

  found_child-none :
      found_child ≡ none
      → (z : ℕ) → member z (proc_get_children (waiting k pid) (k.mem k.current).pid 64) ≡ true
      → ¬ (Fits pid (waiting k pid) z)
  unfolding found_child find_zombie_child
  found_child-none e z inside = first_zombie-none pid (waiting k pid) _ z e inside

-- When the current process has a child to wait for, `proc_wait` collects a child of it that is meant
-- and has ended, returns its identifier and status, and the child is dead and not found any more; if
-- there is none among its first 64 children, a call with `WNOHANG` returns 0.
pub proc_wait_lem :
    (now : ℕ) (k : Kernel) (pid options : ℕ)
    → k.current ≢ null
    → has_children k (k.mem k.current).pid pid ≡ true
    → WaitOutcome k pid options (proc_wait now k pid options)
proc_wait_lem now k pid options nn some_child =
    subst (WaitOutcome k pid options) (sym (round-start now k pid options nn some_child))
      (elim (Option-cases (found_child now k pid options)) [
        | inr (z, e) ↦
            let child = found_child-IsEndedChild now k pid options z e in
            let (gone, lost) = proc_destroy-gone (waiting k pid) z child.real in
            inl (
              z,
              proc_destroy (waiting k pid) z,
              child,
              round-some now k pid options z e,
              gone,
              lost,
            )
        | inl e ↦ inr (found_child-none now k pid options e, round-none now k pid options e)
      ])
