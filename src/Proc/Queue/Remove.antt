-- ===== src/Proc/Queue/Remove.antt =====
-- kernel/proc/sched.c: `sched_remove` takes a member out of the run queue; called for a process that
-- is not queued it loses the whole queue.
use grace_os.Prelude.{
  ℕ, ◌-◌, ◌≡◌, refl, sym, ◌∙◌, subst, ◌≢◌, ◌⊎◌, inl, inr, true, List, [], ◌∷◌, ◌++◌, arith,
  ℕ_discrete, ltb, if◌then◌else◌, ==_ne,
}
use grace_os.Proc.Kernel.{Kernel, Stats, null}
use grace_os.Proc.Queue.{unlink, sched_remove}
use grace_os.Proc.Queue.Segment.{
  Segment, NotIn, Distinct, member, NotIn-ne, Segment-retarget, Segment-reroot, last-member,
  Segment-split, Segment-join, member-ne-null, NotIn-append, append-NotIn,
}
use grace_os.Proc.Queue.Refine.{IsQueue, with_stats-IsQueue}
use grace_os.Proc.Queue.Unlink.{
  unlinked-other, unlinked-before, unlinked-behind, unlinked_self, Distinct-left, Distinct-middle,
  Between, out_left, out_right, before_end, behind_start, b_ne, n_ne, apart, member-ne-next,
  member-ne-prev,
}

left_part :
    (k : Kernel) (xs ys : List ℕ) (p : ℕ)
    → Between k xs ys p
    → Segment (unlink k p).mem null (unlink k p).run_queue_head xs (k.mem p).prev (k.mem p).next
left_part k [] ys p w = (ground (arith, w.left), w.left.1)
left_part k (x ∷ xs) ys p w =
    let b = (k.mem p).prev in
    let hit = last-member k.mem null _ x xs b p w.left in
    let some = member-ne-null k.mem null _ (x ∷ xs) b p b w.left hit in
    let (next, prev, head) =
      unlinked-before k p (b_ne k _ ys p w) (n_ne k _ ys p w) (apart k _ ys p w) some in
    rw head (
      Segment-retarget k.mem (unlink k p).mem null k.run_queue_head x xs b p (k.mem p).next
        (Distinct-left (x ∷ xs) (p ∷ ys) w.distinct)
        (λ y h ne.
          unlinked-other k p (b_ne k _ ys p w) (n_ne k _ ys p w) (apart k _ ys p w) y
            (NotIn-ne p y (x ∷ xs) (out_left k _ ys p w) h) (λ e. absurd (ne e))
            (λ e. absurd (member-ne-next k _ ys p w y h e)))
        next prev w.left)

right_part :
    (k : Kernel) (xs ys : List ℕ) (p : ℕ)
    → Between k xs ys p
    → Segment (unlink k p).mem (k.mem p).prev (k.mem p).next ys (unlink k p).run_queue_tail null
right_part k xs [] p w = (w.right.0, ground (arith, w.right, b_ne k xs [] p w))
right_part k xs (y ∷ ys) p w =
    let b_ne' = b_ne k xs (y ∷ ys) p w in
    let n_ne' = n_ne k xs (y ∷ ys) p w in
    let apart' = apart k xs (y ∷ ys) p w in
    let e : (k.mem p).next ≡ y = w.right.0 in
    let some : (k.mem p).next ≢ null = λ z. w.right.1 (sym e ∙ z) in
    let (prev, next, tail) = unlinked-behind k p b_ne' n_ne' apart' some in
    let d : Distinct (y ∷ ys) = (Distinct-middle xs (y ∷ ys) p w.distinct).2 in
    rw tail (
      Segment-reroot k.mem (unlink k p).mem p (k.mem p).next y ys k.run_queue_tail null
        (k.mem p).prev
        (λ z h.
          unlinked-other k p b_ne' n_ne' apart' z
            (NotIn-ne p z ys (out_right k xs (y ∷ ys) p w).1 h)
            (λ s. absurd (member-ne-prev k xs (y ∷ ys) p w z (ground arith) s))
            (λ s. absurd (NotIn-ne y z ys d.0 h (s ∙ e))))
        (subst (λ v. ((unlink k p).mem v).next ≡ (k.mem v).next) e next)
        (subst (λ v. ((unlink k p).mem v).prev ≡ (k.mem p).prev) e prev) w.right)

null_or_other :
    (c r : ℕ) (xs : List ℕ) → NotIn r xs → (c ≡ null) ⊎ (member c xs ≡ true) → r ≡ c → c ≡ null
null_or_other c r xs out (inl e) s = e
null_or_other c r xs out (inr h) s = absurd (NotIn-ne r c xs out h (sym s))

unlink-IsQueue :
    (k : Kernel) (xs ys : List ℕ) (p : ℕ)
    → Between k xs ys p
    → IsQueue k (xs ++ (p ∷ ys))
    → IsQueue (unlink k p) (xs ++ ys)
unlink-IsQueue k xs ys p w q = record {
  linked =
      Segment-join (unlink k p).mem null _ xs ys _ null _ _ (left_part k xs ys p w)
        (right_part k xs ys p w);
  distinct = (Distinct-middle xs ys p w.distinct).3;
  unlinked = λ r h.
      let (out1, out2) = NotIn-append r xs ys h in
      elim (ℕ_discrete r p) [
        | yes e ↦ rw e (unlinked_self k p (b_ne k xs ys p w) (n_ne k xs ys p w) (apart k xs ys p w))
        | no ne ↦
            let (next, prev) =
              unlinked-other k p (b_ne k xs ys p w) (n_ne k xs ys p w) (apart k xs ys p w) r ne
                (null_or_other _ r xs out1 (before_end k xs ys p w))
                (null_or_other _ r ys out2 (behind_start k xs ys p w)) in
            let (next0, prev0) = q.unlinked r (append-NotIn r xs (p ∷ ys) out1 (ne, out2)) in
            (next ∙ next0, prev ∙ prev0)
      ];
}

queue-Between :
    (k : Kernel) (xs ys : List ℕ) (p : ℕ) → IsQueue k (xs ++ (p ∷ ys)) → Between k xs ys p
queue-Between k xs ys p q =
    let (l, c, s1, s2) = Segment-split k.mem null k.run_queue_head xs (p ∷ ys) _ null q.linked in
    record {
      nn = s2.1;
      distinct = q.distinct;
      left =
          subst (λ v. Segment k.mem null k.run_queue_head xs v p) (sym s2.2)
            (subst (Segment k.mem null k.run_queue_head xs l) s2.0 s1);
      right = s2.3;
    }

sched_remove-unlink :
    (k : Kernel) (p : ℕ)
    → p ≢ null
    → (s : Stats) × (sched_remove k p ≡ record (unlink k p) { stats = s })
unfolding sched_remove
sched_remove-unlink k p nn = (
  record (unlink k p).stats {
    runnable_count =
        if ltb 0 (unlink k p).stats.runnable_count
        then (unlink k p).stats.runnable_count - 1
        else (unlink k p).stats.runnable_count;
  },
  rw (==_ne p null nn) refl,
)

-- `sched_remove` takes a queued process out and keeps the others in their order.
pub sched_remove-IsQueue :
    (k : Kernel) (xs ys : List ℕ) (p : ℕ)
    → IsQueue k (xs ++ (p ∷ ys))
    → IsQueue (sched_remove k p) (xs ++ ys)
sched_remove-IsQueue k xs ys p q =
    let w = queue-Between k xs ys p q in
    let (s, e) = sched_remove-unlink k p w.nn in
    rw e (with_stats-IsQueue (unlink k p) s (xs ++ ys) (unlink-IsQueue k xs ys p w q))

-- Called for a process that is not queued, `sched_remove` empties the queue: both ends become null,
-- whatever was queued.
pub sched_remove-not_queued :
    (k : Kernel) (xs : List ℕ) (p : ℕ)
    → p ≢ null
    → IsQueue k xs
    → NotIn p xs
    → ((sched_remove k p).run_queue_head ≡ null) × ((sched_remove k p).run_queue_tail ≡ null)
sched_remove-not_queued k xs p nn q out =
    let (next, prev) = q.unlinked p out in
    let (s, e) = sched_remove-unlink k p nn in rw e (ground (arith, next, prev))

-- `sched_remove` writes links and counts, and nothing else.
pub sched_remove-links_only :
    (k : Kernel) (p y : ℕ)
    → ((sched_remove k p).mem y ≡ record (k.mem y) {
      next = ((sched_remove k p).mem y).next;
      prev = ((sched_remove k p).mem y).prev;
    })
      × ((sched_remove k p).current ≡ k.current)
unfolding sched_remove
sched_remove-links_only k p y = ground arith

pub queued-ne-null : (k : Kernel) (xs ys : List ℕ) (p : ℕ) → IsQueue k (xs ++ (p ∷ ys)) → p ≢ null
queued-ne-null k xs ys p q = (queue-Between k xs ys p q).nn
