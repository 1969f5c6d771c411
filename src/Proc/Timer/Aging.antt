-- ===== src/Proc/Timer/Aging.antt =====
-- kernel/proc/sched.c: a tick ages exactly the ready processes of the run queue that do not run.
use grace_os.Prelude.{
  ℕ, zero, suc, ◌≤◌, ◌<◌, ◌≡◌, refl, sym, ap, ◌∙◌, subst, inl, inr, true, false, some, List, [],
  ◌∷◌, arith, ℕ_discrete, if◌then◌else◌, ==_ne, Bool-cases, length, put_self, put_ne,
}
use grace_os.Proc.Kernel.{Kernel, null, max_proc, with_process}
use grace_os.Proc.Queue.Segment.{Segment, SameLinks, Distinct, NotIn-member, member, Segment-agree}
use grace_os.Proc.Queue.Refine.{IsQueue}
use grace_os.Proc.Sched.{walk_fuel}
use grace_os.Proc.Timer.{aged, age_from}

aged-links : (k : Kernel) (p y : ℕ) → SameLinks k.mem (with_process k p (aged k.current p)).mem y
aged-links k p y = ground arith

-- The memory after every process of `xs` has aged.
record Aged (k : Kernel) (xs : List ℕ) (k' : Kernel) : Type 0 where
  inside : (p : ℕ) → member p xs ≡ true → k'.mem p ≡ aged k.current p (k.mem p)
  outside : (p : ℕ) → member p xs ≡ false → k'.mem p ≡ k.mem p

age_from-Aged :
    (fuel : ℕ) (k : Kernel) (b h : ℕ) (xs : List ℕ) (l : ℕ)
    → Segment k.mem b h xs l null
    → Distinct xs
    → length xs < fuel
    → (k' : Kernel) × (age_from fuel k h ≡ some k') × Aged k xs k'
unfolding age_from
age_from-Aged zero k b h xs l s d f = absurd (omega arith)
age_from-Aged (suc fuel) k b h [] l s d f =
    (k, rw (s.0) refl, record { inside = λ p m. cc; outside = λ p m. refl })
age_from-Aged (suc fuel) k b h (x ∷ xs) l s d f =
    let k1 = with_process k x (aged k.current x) in
    let s1 = Segment-agree k.mem k1.mem x (k.mem x).next xs l null (λ y m. aged-links k x y) s.3 in
    let (k', run, ih) = age_from-Aged fuel k1 x (k.mem x).next xs l s1 d.1 (omega arith) in
    (
      k',
      rw (s.0, ==_ne x null s.1, run) refl,
      record {
        inside = λ p m. elim (ℕ_discrete p x) [
          | yes e ↦
              subst (λ z. k'.mem z ≡ aged k.current z (k.mem z)) (sym e)
                (ih.outside x (NotIn-member x xs d.0)
                  ∙ put_self k.mem x (aged k.current x (k.mem x)))
          | no ne ↦
              ih.inside p (ground arith)
              ∙ ap (aged k.current p)
                  (put_ne k.mem x p (aged k.current x (k.mem x)) (λ e. ne (sym e)))
        ];
        outside = λ p m.
            ih.outside p (ground arith)
            ∙ put_ne k.mem x p (aged k.current x (k.mem x)) (λ e. absurd (ground arith));
      },
    )

-- The aging walk of a tick ends on any run queue of at most 8192 processes, adds one to the waiting
-- time of the ready processes in it that are not current, and changes no other process.
pub age_from_lem :
    (k : Kernel) (xs : List ℕ)
    → IsQueue k xs
    → length xs ≤ max_proc
    → (k' : Kernel) × (age_from walk_fuel k k.run_queue_head ≡ some k')
      × ((p : ℕ) → k'.mem p ≡ (if member p xs then aged k.current p (k.mem p) else k.mem p))
age_from_lem k xs q fits =
    let (k', run, done) =
      age_from-Aged walk_fuel k null k.run_queue_head xs k.run_queue_tail q.linked q.distinct
        (omega arith) in
    (
      k',
      run,
      λ p. elim (Bool-cases (member p xs)) [
        | inl m ↦ rw m (done.inside p m)
        | inr m ↦ rw m (done.outside p m)
      ],
    )
