-- ===== src/Proc/Queue/Refine.antt =====
-- kernel/proc/sched.c: the run queue as a list of processes. `sched_add` appends, `sched_remove`
-- takes out a member; of a process that is not queued, `sched_remove` loses the whole queue.
use grace_os.Prelude.{
  ℕ, ◌≡◌, refl, sym, ◌∙◌, ◌≢◌, inl, inr, true, false, ◌||◌, List, [], ◌∷◌, ◌++◌, arith, ℕ_discrete,
  ◌==◌, if◌then◌else◌, Bool-cases, inc32,
}
use grace_os.Proc.Kernel.{Kernel, Stats, null, is_state, dead, zombie}
use grace_os.Proc.Queue.{looks_queued, link_last, sched_add}
use grace_os.Proc.Queue.Segment.{
  Segment, Segment-agree, NotIn, Distinct, SameLinks, member, member-NotIn, NotIn-ne, last-member,
  Segment-retarget, Segment-join, member-ne-null, member-has_prev, NotIn-append, append-NotIn,
}

-- The queue holds the processes `xs`, in order, and no other process has links.
pub record IsQueue (k : Kernel) (xs : List ℕ) : Type 0 where
  pub linked : Segment k.mem null k.run_queue_head xs k.run_queue_tail null
  pub distinct : Distinct xs
  pub unlinked : (p : ℕ) → NotIn p xs → ((k.mem p).next ≡ null) × ((k.mem p).prev ≡ null)

-- The test of `sched_add` finds exactly the members.
pub looks_queued-member :
    (k : Kernel) (xs : List ℕ) (p : ℕ) → p ≢ null → IsQueue k xs → looks_queued k p ≡ member p xs
looks_queued-member k [] p nn q = ground (arith, q.unlinked p tt, q.linked)
looks_queued-member k (x ∷ xs) p nn q = elim (Bool-cases (member p (x ∷ xs))) [
  | inr out ↦
      let (next, prev) = q.unlinked p (member-NotIn p (x ∷ xs) out) in
      ground (arith, next, prev, q.linked.0)
  | inl hit ↦ elim (ℕ_discrete p x) [
    | yes e ↦ ground (arith, q.linked.0)
    | no ne ↦
        let has =
          member-has_prev k.mem x (k.mem x).next xs k.run_queue_tail null p q.linked.1 q.linked.3
            (ground arith) in
        ground (arith, has)
  ]
]

Distinct-snoc : (xs : List ℕ) (p : ℕ) → Distinct xs → NotIn p xs → Distinct (xs ++ (p ∷ []))
Distinct-snoc [] p d h = (tt, tt)
Distinct-snoc (x ∷ xs) p d h =
    (append-NotIn x xs (p ∷ []) d.0 (λ e. h.0 (sym e), tt), Distinct-snoc xs p d.1 h.1)

-- Linking behind the last process `l`.
module _ (k : Kernel) (p : ℕ) (nn : p ≢ null) (tail : k.run_queue_tail ≢ null)
    (apart : k.run_queue_tail ≢ p) where
  linked-other : (y : ℕ) → y ≢ p → y ≢ k.run_queue_tail → SameLinks k.mem (link_last k p).mem y
  linked-other y h h' = ground arith

  linked-tail :
      (((link_last k p).mem k.run_queue_tail).next ≡ p)
      × (((link_last k p).mem k.run_queue_tail).prev ≡ (k.mem k.run_queue_tail).prev)
  linked-tail = ground arith

  linked-new :
      (((link_last k p).mem p).next ≡ null)
      × (((link_last k p).mem p).prev ≡ k.run_queue_tail)
      × ((link_last k p).run_queue_head ≡ k.run_queue_head)
  linked-new = ground arith

link_last-IsQueue :
    (k : Kernel) (xs : List ℕ) (p : ℕ)
    → p ≢ null
    → NotIn p xs
    → IsQueue k xs
    → IsQueue (link_last k p) (xs ++ (p ∷ []))
link_last-IsQueue k [] p nn out q = record {
  linked =
      (ground (arith, q.linked), nn, ground (arith, q.linked), (ground (arith, q.linked), refl));
  distinct = (tt, tt);
  unlinked = λ r h. ground (arith, q.unlinked r tt, q.linked, h.0);
}
link_last-IsQueue k (x ∷ xs) p nn out q =
    let l = k.run_queue_tail in
    let hit = last-member k.mem null k.run_queue_head x xs l null q.linked in
    let some_tail = member-ne-null k.mem null k.run_queue_head (x ∷ xs) l null l q.linked hit in
    let apart = NotIn-ne p l (x ∷ xs) out hit in
    let (tail_next, tail_prev) = linked-tail k p nn some_tail apart in
    let (new_next, new_prev, head) = linked-new k p nn some_tail apart in
    record {
      linked = rw head (
          Segment-join (link_last k p).mem null k.run_queue_head (x ∷ xs) (p ∷ []) p null l p
            (Segment-retarget k.mem (link_last k p).mem null k.run_queue_head x xs l null p
              q.distinct
              (λ y m ne. linked-other k p nn some_tail apart y (NotIn-ne p y (x ∷ xs) out m) ne)
              tail_next tail_prev q.linked)
            (refl, nn, new_prev, (new_next, refl)));
      distinct = Distinct-snoc (x ∷ xs) p q.distinct out;
      unlinked = λ r h.
          let (a, b) = NotIn-append r (x ∷ xs) (p ∷ []) h in
          let (next, prev) =
            linked-other k p nn some_tail apart r b.0 (λ e. NotIn-ne r l (x ∷ xs) a hit (sym e)) in
          let (next0, prev0) = q.unlinked r a in (next ∙ next0, prev ∙ prev0);
    }

-- The process may be queued: it has not ended.
abbrev pub CanRun : Kernel → ℕ → Type 0
CanRun k p = ((k.mem p).state ≢ dead) × ((k.mem p).state ≢ zombie)

-- What `sched_add` makes of the queue: nothing new if the process is there.
abbrev pub add_last : ℕ → List ℕ → List ℕ
add_last p xs = if member p xs then xs else xs ++ (p ∷ [])

pub with_stats-IsQueue :
    (k : Kernel) (s : Stats) (xs : List ℕ) → IsQueue k xs → IsQueue (record k { stats = s }) xs
with_stats-IsQueue k s xs q = record {
  linked = q.linked;
  distinct = q.distinct;
  unlinked = q.unlinked;
}

sched_add-member :
    (k : Kernel) (xs : List ℕ) (p : ℕ)
    → p ≢ null
    → IsQueue k xs
    → member p xs ≡ true
    → sched_add k p ≡ k
unfolding sched_add
sched_add-member k xs p nn q hit =
    let e : looks_queued k p ≡ true = looks_queued-member k xs p nn q ∙ hit in ground (arith, e)

CanRun-guard :
    (k : Kernel) (p : ℕ)
    → p ≢ null
    → CanRun k p
    → (p == null || is_state (k.mem p).state dead || is_state (k.mem p).state zombie) ≡ false
CanRun-guard k p nn run = ground arith

sched_add-new :
    (k : Kernel) (xs : List ℕ) (p : ℕ)
    → p ≢ null
    → IsQueue k xs
    → CanRun k p
    → member p xs ≡ false
    → (s : Stats) × (sched_add k p ≡ record (link_last k p) { stats = s })
unfolding sched_add
sched_add-new k xs p nn q run out =
    let looks : looks_queued k p ≡ false = looks_queued-member k xs p nn q ∙ out in
    (
      record (link_last k p).stats { runnable_count = inc32 (link_last k p).stats.runnable_count },
      rw (CanRun-guard k p nn run, looks) refl,
    )

-- `sched_add` puts a process that can run at the end of the queue, unless it is queued already.
pub sched_add-IsQueue :
    (k : Kernel) (xs : List ℕ) (p : ℕ)
    → p ≢ null
    → CanRun k p
    → IsQueue k xs
    → IsQueue (sched_add k p) (add_last p xs)
sched_add-IsQueue k xs p nn run q = elim (Bool-cases (member p xs)) [
  | inl hit ↦ rw (hit, sched_add-member k xs p nn q hit) q
  | inr out ↦
      let (s, e) = sched_add-new k xs p nn q run out in
      rw (out, e)
        (with_stats-IsQueue (link_last k p) s _
          (link_last-IsQueue k xs p nn (member-NotIn p xs out) q))
]

-- The queue is that of before if both ends and all links are.
pub IsQueue-agree :
    (k k' : Kernel) (xs : List ℕ)
    → k'.run_queue_head ≡ k.run_queue_head
    → k'.run_queue_tail ≡ k.run_queue_tail
    → ((y : ℕ) → SameLinks k.mem k'.mem y)
    → IsQueue k xs
    → IsQueue k' xs
IsQueue-agree k k' xs head tail same q = record {
  linked =
      rw (head, tail)
        (Segment-agree k.mem k'.mem null k.run_queue_head xs k.run_queue_tail null (λ y m. same y)
          q.linked);
  distinct = q.distinct;
  unlinked = λ p out.
      let (next, prev) = same p in
      let (next0, prev0) = q.unlinked p out in (next ∙ next0, prev ∙ prev0);
}
