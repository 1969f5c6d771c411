-- ===== src/Proc/Sched/Pick.antt =====
-- kernel/proc/sched.c: `sched_pick` returns a ready process of the run queue with the least score.
use grace_os.Prelude.{
  ℕ, zero, suc, ◌≤◌, ◌<◌, ◌≡◌, refl, sym, subst, ◌≢◌, ◌⊎◌, inl, inr, true, some, List, [], ◌∷◌,
  arith, ℕ_discrete, ◌==◌, if◌then◌else◌, ==_iff, ==_ne, length,
}
use grace_os.Prelude.Int.{ℤ, eqb_ℤ, ◌≤ℤ◌, int64_max}
use grace_os.Proc.Kernel.{ready, Kernel, null, idle_proc, max_proc}
use grace_os.Proc.Queue.Segment.{Segment, member}
use grace_os.Proc.Queue.Refine.{IsQueue}
use grace_os.Proc.Sched.{Choice, consider, pick_from, walk_fuel, sched_calc_score, sched_pick}

eqb_ℤ-eq : (a b : ℤ) → eqb_ℤ a b ≡ true → a ≡ b
eqb_ℤ-eq a b h = ground arith

-- The choice is none yet, or a ready process with its score.
abbrev pub IsCoherent : Kernel → Choice → Type 0
IsCoherent k c =
    ((c.best ≡ null) × (c.best_score ≡ int64_max))
    ⊎ ((c.best ≢ null)
        × ((k.mem c.best).state ≡ ready)
        × (c.best_score ≡ sched_calc_score k c.best))

consider-IsCoherent :
    (k : Kernel) (p : ℕ) (c : Choice) → p ≢ null → IsCoherent k c → IsCoherent k (consider k p c)
unfolding consider
consider-IsCoherent k p c nn h = ground (arith, eqb_ℤ-eq (sched_calc_score k p) c.best_score)

consider-best :
    (k : Kernel) (p : ℕ) (c : Choice)
    → ((consider k p c).best ≡ c.best) ⊎ ((consider k p c).best ≡ p)
unfolding consider
consider-best k p c = ground arith

consider-le : (k : Kernel) (p : ℕ) (c : Choice) → (consider k p c).best_score ≤ℤ c.best_score
unfolding consider
consider-le k p c = ground arith

-- A valid ready process is not better than the choice after it was considered.
consider-least :
    (k : Kernel) (p : ℕ) (c : Choice)
    → (k.mem p).state ≡ ready
    → (k.mem p).valid ≡ true
    → (consider k p c).best_score ≤ℤ sched_calc_score k p
unfolding consider
consider-least k p c r v = ground arith

unfoldable consider_all : Kernel → List ℕ → Choice → Choice
consider_all k [] c = c
consider_all k (p ∷ ps) c = consider_all k ps (consider k p c)

-- The walk along the links considers the processes of the queue in their order.
pick_from-consider_all :
    (fuel : ℕ) (k : Kernel) (b h : ℕ) (xs : List ℕ) (l : ℕ) (c : Choice)
    → Segment k.mem b h xs l null
    → length xs < fuel
    → pick_from fuel k h c ≡ some (consider_all k xs c)
unfolding pick_from consider_all
pick_from-consider_all zero k b h xs l c s f = absurd (omega arith)
pick_from-consider_all (suc fuel) k b h [] l c s f = rw (s.0) refl
pick_from-consider_all (suc fuel) k b h (x ∷ xs) l c s f =
    rw (s.0, ==_ne x null s.1)
      (pick_from-consider_all fuel k x (k.mem x).next xs l (consider k x c) s.3 (omega arith))

-- What a search over `xs` that starts from the choice `c` ends with.
record Searched (k : Kernel) (xs : List ℕ) (c r : Choice) : Type 0 where
  from : (r.best ≡ c.best) ⊎ (member r.best xs ≡ true)
  falls : r.best_score ≤ℤ c.best_score
  least :
      (p : ℕ)
      → member p xs ≡ true
      → (k.mem p).state ≡ ready
      → (k.mem p).valid ≡ true
      → r.best_score ≤ℤ sched_calc_score k p
  coherent : IsCoherent k c → IsCoherent k r

≤ℤ_trans : (a b c : ℤ) → a ≤ℤ b → b ≤ℤ c → a ≤ℤ c
≤ℤ_trans a b c h g = omega arith

consider_all-Searched :
    (k : Kernel) (b h : ℕ) (xs : List ℕ) (l : ℕ) (c : Choice)
    → Segment k.mem b h xs l null
    → Searched k xs c (consider_all k xs c)
unfolding consider_all
consider_all-Searched k b h [] l c s = record {
  from = inl refl;
  falls = omega arith;
  least = λ p m. cc;
  coherent = λ h. h;
}
consider_all-Searched k b h (x ∷ xs) l c s =
    let ih = consider_all-Searched k x (k.mem x).next xs l (consider k x c) s.3 in
    record {
      from = ground (arith, ih.from, consider-best k x c);
      falls =
          ≤ℤ_trans (consider_all k xs (consider k x c)).best_score (consider k x c).best_score
            c.best_score ih.falls (consider-le k x c);
      least = λ p m r v. elim (ℕ_discrete p x) [
        | yes e ↦
            ≤ℤ_trans (consider_all k xs (consider k x c)).best_score (consider k x c).best_score
              (sched_calc_score k p) ih.falls
              (subst (λ q. (consider k x c).best_score ≤ℤ sched_calc_score k q) (sym e)
                (consider-least k x c (rw e at r) (rw e at v)))
        | no ne ↦ ih.least p (ground arith) r v
      ];
      coherent = λ h. ih.coherent (consider-IsCoherent k x c s.1 h);
    }

-- The process picked from the queue `xs`: a ready one of the queue that no valid ready one beats; or
-- the idle process, and then no valid ready process scores below the maximum.
abbrev pub IsPick : Kernel → List ℕ → ℕ → Type 0
IsPick k xs p =
    ((member p xs ≡ true)
      × ((k.mem p).state ≡ ready)
      × ((q : ℕ)
          → member q xs ≡ true
          → (k.mem q).state ≡ ready
          → (k.mem q).valid ≡ true
          → sched_calc_score k p ≤ℤ sched_calc_score k q))
    ⊎ ((p ≡ idle_proc)
        × ((q : ℕ)
            → member q xs ≡ true
            → (k.mem q).state ≡ ready
            → (k.mem q).valid ≡ true
            → int64_max ≤ℤ sched_calc_score k q))

abbrev start : Choice
start = record { best = null; best_score = int64_max }

chosen-IsPick :
    (k : Kernel) (xs : List ℕ) (r : Choice)
    → Searched k xs start r
    → IsPick k xs (if r.best == null then idle_proc else r.best)
chosen-IsPick k xs r s = elim (s.coherent (inl (refl, refl))) [
  | inl (none_yet, top) ↦
      rw ((==_iff r.best null).1 none_yet) (inr (refl, λ q m st v. rw top at s.least q m st v))
  | inr (nn, state, score) ↦ rw (==_ne r.best null nn) (
      inl (
        ground (arith, s.from),
        state,
        λ q m st v. subst (λ z. z ≤ℤ sched_calc_score k q) score (s.least q m st v),
      ))
]

-- On any run queue of at most 8192 processes the search ends. It picks a ready process of the queue
-- that no valid ready process of the queue beats on score; the idle process only if no valid ready
-- one scores below `INT64_MAX`.
pub sched_pick_lem :
    (k : Kernel) (xs : List ℕ)
    → IsQueue k xs
    → length xs ≤ max_proc
    → (p : ℕ) × (sched_pick k ≡ some p) × IsPick k xs p
unfolding sched_pick
sched_pick_lem k xs q fits =
    let r = consider_all k xs start in
    (
      if r.best == null then idle_proc else r.best,
      rw
          (pick_from-consider_all walk_fuel k null k.run_queue_head xs k.run_queue_tail start
            q.linked (omega arith))
          refl,
      chosen-IsPick k xs r
          (consider_all-Searched k null k.run_queue_head xs k.run_queue_tail start q.linked),
    )
