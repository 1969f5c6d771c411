-- ===== src/Proc/Table/Children.antt =====
-- kernel/proc/table.c: reparenting reaches every child, and a collection of children is sound, and
-- complete where there is room.
use grace_os.Prelude.{
  ℕ, zero, suc, ◌+◌, ◌≤◌, ◌<◌, ◌≡◌, refl, sym, ap, ◌∙◌, subst, ◌≢◌, ◌⊎◌, inl, Bool, false, [],
  arith, ℕ_discrete, ◌==◌, if◌then◌else◌, ==_iff, ==_ne,
}
use grace_os.Proc.Kernel.{Process, Kernel, null, max_proc, pid_init, with_process}
use grace_os.Proc.Table.{collect, proc_get_children, adopt, reparent_from, proc_reparent_children}

-- The address stands in the table, in slot `i`.
abbrev pub InTable : Kernel → ℕ → ℕ → Type 0
InTable k i p = (i < max_proc) × (p ≢ null) × (k.proc_table i ≡ p)

adopt_twice : (old : ℕ) (r : Process) → old ≢ pid_init → adopt old (adopt old r) ≡ adopt old r
adopt_twice old r h = ground arith

table-reparent_from :
    (n i old : ℕ) (k : Kernel) → (reparent_from n i old k).proc_table ≡ k.proc_table
unfolding reparent_from
table-reparent_from zero i old k = refl
table-reparent_from (suc n) i old k = table-reparent_from n (i + 1) old _ ∙ ground arith

-- Each PCB is left alone, or adopted.
reparent_from-each :
    (n i old : ℕ) (k : Kernel) (p : ℕ)
    → old ≢ pid_init
    → ((reparent_from n i old k).mem p ≡ k.mem p)
      ⊎ ((reparent_from n i old k).mem p ≡ adopt old (k.mem p))
unfolding reparent_from
reparent_from-each zero i old k p h = inl refl
reparent_from-each (suc n) i old k p h =
    let k1 = if k.proc_table i == null then k else with_process k (k.proc_table i) (adopt old) in
    let one : (k1.mem p ≡ k.mem p) ⊎ (k1.mem p ≡ adopt old (k.mem p)) = ground arith in
    let ih = reparent_from-each n (i + 1) old k1 p h in
    ground (arith, one, ih, adopt_twice old (k.mem p) h)

reparent_from-reaches :
    (n i old : ℕ) (k : Kernel) (s : ℕ)
    → old ≢ pid_init
    → k.proc_table s ≢ null
    → i ≤ s
    → s < i + n
    → (reparent_from n i old k).mem (k.proc_table s) ≡ adopt old (k.mem (k.proc_table s))
unfolding reparent_from
reparent_from-reaches zero i old k s h nn lo hi = absurd (omega arith)
reparent_from-reaches (suc n) i old k s h nn lo hi = elim (ℕ_discrete i s) [
  | yes e ↦
      let p = k.proc_table s in
      let k1 = if k.proc_table i == null then k else with_process k (k.proc_table i) (adopt old) in
      let here : k1.mem p ≡ adopt old (k.mem p) = rw e (ground arith) in
      let later = reparent_from-each n (i + 1) old k1 p h in
      ground (arith, here, later, adopt_twice old (k.mem p) h)
  | no ne ↦
      let p = k.proc_table s in
      let k1 = if k.proc_table i == null then k else with_process k (k.proc_table i) (adopt old) in
      let same_table : k1.proc_table s ≡ p = ground arith in
      let one : (k1.mem p ≡ k.mem p) ⊎ (k1.mem p ≡ adopt old (k.mem p)) = ground arith in
      let ih =
        reparent_from-reaches n (i + 1) old k1 s h (rw same_table nn) (omega arith) (omega arith) in
      let ih' : (reparent_from n (i + 1) old k1).mem p ≡ adopt old (k1.mem p) =
        subst (λ v. (reparent_from n (i + 1) old k1).mem v ≡ adopt old (k1.mem v)) same_table ih in
      ground (arith, one, ih', adopt_twice old (k.mem p) h)
]

-- Nothing passes the test, so nothing is collected.
collect-nil :
    (test : Process → Bool) (n i room : ℕ) (k : Kernel)
    → ((j : ℕ) → i ≤ j → j < i + n → k.proc_table j ≢ null → test (k.mem (k.proc_table j)) ≡ false)
    → collect test n i room k ≡ []
unfolding collect
collect-nil test zero i room k h = refl
collect-nil test (suc n) i zero k h = refl
collect-nil test (suc n) i (suc room) k h =
    let rest =
      collect-nil test n (i + 1) (suc room) k (λ j lo hi. h j (omega arith) (omega arith)) in
    elim (ℕ_discrete (k.proc_table i) null) [
      | yes e ↦ rw ((==_iff (k.proc_table i) null).1 e) rest
      | no ne ↦ rw (==_ne (k.proc_table i) null ne, h i (omega arith) (omega arith) ne) rest
    ]

adopt-parent : (old : ℕ) (r : Process) → old ≢ pid_init → ((adopt old r).parent == old) ≡ false
adopt-parent old r h = ground arith

-- `proc_reparent_children` gives every child of `old_parent` in the table to init and flags it as an
-- orphan, changes no other process and no table entry, and leaves `old_parent` without children.
pub proc_reparent_children_lem :
    (k : Kernel) (old room : ℕ)
    → old ≢ pid_init
    → let k' = proc_reparent_children k old in
      (k'.proc_table ≡ k.proc_table)
      × ((i p : ℕ) → InTable k i p → k'.mem p ≡ adopt old (k.mem p))
      × ((p : ℕ) → (k'.mem p ≡ k.mem p) ⊎ (k'.mem p ≡ adopt old (k.mem p)))
      × (proc_get_children k' old room ≡ [])
unfolding proc_reparent_children proc_get_children
proc_reparent_children_lem k old room h = (
  same_table,
  reached,
  λ p. reparent_from-each max_proc 0 old k p h,
  collect-nil (λ r. r.parent == old) max_proc 0 room _ no_child,
)
  where
    k' : Kernel
    k' = reparent_from max_proc 0 old k

    same_table : k'.proc_table ≡ k.proc_table
    same_table = table-reparent_from max_proc 0 old k

    reached : (i p : ℕ) → InTable k i p → k'.mem p ≡ adopt old (k.mem p)
    reached i p t =
        subst (λ v. k'.mem v ≡ adopt old (k.mem v)) t.2
          (reparent_from-reaches max_proc 0 old k i h (λ e. t.1 (sym t.2 ∙ e)) (omega arith) t.0)

    no_child :
        (j : ℕ)
        → 0 ≤ j
        → j < max_proc
        → k'.proc_table j ≢ null
        → ((k'.mem (k'.proc_table j)).parent == old) ≡ false
    no_child j lo hi nn =
        let p = k.proc_table j in
        let e : k'.proc_table j ≡ p = ap (λ t. t j) same_table in
        let inside : InTable k j p = (hi, (λ z. nn (e ∙ z)), refl) in
        rw (e, reached j p inside) (adopt-parent old (k.mem p) h)

-- Reparenting writes the parents and the flags of PCBs, and nothing else.
pub record OnlyParents (k k' : Kernel) : Type 0 where
  pub each :
      (y : ℕ) → k'.mem y ≡ record (k.mem y) { parent = (k'.mem y).parent; flags = (k'.mem y).flags }
  pub rest : k' ≡ record k { mem = k'.mem }

reparent_from-OnlyParents : (n i old : ℕ) (k : Kernel) → OnlyParents k (reparent_from n i old k)
unfolding reparent_from
reparent_from-OnlyParents zero i old k = record { each = λ y. refl; rest = refl }
reparent_from-OnlyParents (suc n) i old k =
    let k1 = if k.proc_table i == null then k else with_process k (k.proc_table i) (adopt old) in
    let ih = reparent_from-OnlyParents n (i + 1) old k1 in
    let one : (y : ℕ)
        → k1.mem y ≡ record (k.mem y) { parent = (k1.mem y).parent; flags = (k1.mem y).flags } =
      λ y. ground arith in
    let whole : k1 ≡ record k { mem = k1.mem } = ground arith in
    record { each = λ y. ground (arith, one y, ih.each y); rest = ground (arith, whole, ih.rest) }

pub proc_reparent_children-OnlyParents :
    (k : Kernel) (old : ℕ) → OnlyParents k (proc_reparent_children k old)
unfolding proc_reparent_children
proc_reparent_children-OnlyParents k old = reparent_from-OnlyParents max_proc 0 old k
