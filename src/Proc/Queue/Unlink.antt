-- ===== src/Proc/Queue/Unlink.antt =====
-- kernel/proc/sched.c: the links around a queued process, before and after `sched_remove`.
use grace_os.Prelude.{
  ℕ, ◌≡◌, sym, ◌∙◌, ◌≢◌, ◌⊎◌, inl, inr, true, List, [], ◌∷◌, ◌++◌, arith, ℕ_discrete,
}
use grace_os.Proc.Kernel.{Kernel, null}
use grace_os.Proc.Queue.{unlink}
use grace_os.Proc.Queue.Segment.{
  Segment, NotIn, Distinct, SameLinks, member, NotIn-ne, last-member, member-ne-null, NotIn-append,
  append-NotIn,
}

-- The memory after unlinking `p` between `b` and `n`, where each of them may be null.
module _ (k : Kernel) (p : ℕ) (b_ne : (k.mem p).prev ≢ p) (n_ne : (k.mem p).next ≢ p)
    (apart : (k.mem p).prev ≡ (k.mem p).next → (k.mem p).prev ≡ null) where
  pub unlinked-other :
      (z : ℕ)
      → z ≢ p
      → (z ≡ (k.mem p).prev → (k.mem p).prev ≡ null)
      → (z ≡ (k.mem p).next → (k.mem p).next ≡ null)
      → SameLinks k.mem (unlink k p).mem z
  unlinked-other z h hb hn = ground arith

  pub unlinked-before :
      (k.mem p).prev ≢ null
      → (((unlink k p).mem (k.mem p).prev).next ≡ (k.mem p).next)
        × (((unlink k p).mem (k.mem p).prev).prev ≡ (k.mem (k.mem p).prev).prev)
        × ((unlink k p).run_queue_head ≡ k.run_queue_head)
  unlinked-before h = ground arith

  pub unlinked-behind :
      (k.mem p).next ≢ null
      → (((unlink k p).mem (k.mem p).next).prev ≡ (k.mem p).prev)
        × (((unlink k p).mem (k.mem p).next).next ≡ (k.mem (k.mem p).next).next)
        × ((unlink k p).run_queue_tail ≡ k.run_queue_tail)
  unlinked-behind h = ground arith

  pub unlinked_self : (((unlink k p).mem p).next ≡ null) × (((unlink k p).mem p).prev ≡ null)
  unlinked_self = ground arith

pub Distinct-left : (xs ys : List ℕ) → Distinct (xs ++ ys) → Distinct xs
Distinct-left [] ys d = tt
Distinct-left (x ∷ xs) ys d = ((NotIn-append x xs ys d.0).0, Distinct-left xs ys d.1)

pub Distinct-cross :
    (xs ys : List ℕ) (z : ℕ) → Distinct (xs ++ ys) → member z xs ≡ true → NotIn z ys
Distinct-cross [] ys z d h = cc
Distinct-cross (x ∷ xs) ys z d h = elim (ℕ_discrete z x) [
  | yes e ↦ rw e ((NotIn-append x xs ys d.0).1)
  | no ne ↦ Distinct-cross xs ys z d.1 (ground arith)
]

pub Distinct-middle :
    (xs ys : List ℕ) (p : ℕ)
    → Distinct (xs ++ (p ∷ ys))
    → NotIn p xs × NotIn p ys × Distinct ys × Distinct (xs ++ ys)
Distinct-middle [] ys p d = (tt, d.0, d.1, d.1)
Distinct-middle (x ∷ xs) ys p d =
    let (a, b, c, e) = Distinct-middle xs ys p d.1 in
    let (f, g) = NotIn-append x xs (p ∷ ys) d.0 in
    ((λ s. g.0 (sym s), a), b, c, (append-NotIn x xs ys f g.1, e))

pub left_end :
    (k : Kernel) (c : ℕ) (xs : List ℕ) (l a : ℕ)
    → Segment k.mem null c xs l a
    → (l ≡ null) ⊎ (member l xs ≡ true)
left_end k c [] l a s = inl s.1
left_end k c (x ∷ xs) l a s = inr (last-member k.mem null c x xs l a s)

pub right_start :
    (k : Kernel) (b c : ℕ) (ys : List ℕ) (l : ℕ)
    → Segment k.mem b c ys l null
    → (c ≡ null) ⊎ (member c ys ≡ true)
right_start k b c [] l s = inl s.0
right_start k b c (y ∷ ys) l s = inr (ground (arith, s.0))

pub end_ne :
    (p c : ℕ) (xs : List ℕ) → p ≢ null → NotIn p xs → (c ≡ null) ⊎ (member c xs ≡ true) → c ≢ p
end_ne p c xs nn out (inl e) = λ s. nn (sym s ∙ e)
end_ne p c xs nn out (inr h) = NotIn-ne p c xs out h

pub ends_apart :
    (xs ys : List ℕ) (b n : ℕ)
    → ((z : ℕ) → member z xs ≡ true → NotIn z ys)
    → (b ≡ null) ⊎ (member b xs ≡ true)
    → (n ≡ null) ⊎ (member n ys ≡ true)
    → b ≡ n
    → b ≡ null
ends_apart xs ys b n cross (inl e) right same = e
ends_apart xs ys b n cross (inr h) (inl e) same = same ∙ e
ends_apart xs ys b n cross (inr h) (inr h') same =
    absurd (NotIn-ne b n ys (cross b h) h' (sym same))

-- The process `p` between the parts `xs` and `ys` of the queue.
pub record Between (k : Kernel) (xs ys : List ℕ) (p : ℕ) : Type 0 where
  pub nn : p ≢ null
  pub distinct : Distinct (xs ++ (p ∷ ys))
  pub left : Segment k.mem null k.run_queue_head xs (k.mem p).prev p
  pub right : Segment k.mem p (k.mem p).next ys k.run_queue_tail null

module _ (k : Kernel) (xs ys : List ℕ) (p : ℕ) (w : Between k xs ys p) where
  pub cross : (z : ℕ) → member z xs ≡ true → NotIn z ys
  cross z h = (Distinct-cross xs (p ∷ ys) z w.distinct h).1

  pub out_left : NotIn p xs
  out_left = (Distinct-middle xs ys p w.distinct).0

  pub out_right : NotIn p ys
  out_right = (Distinct-middle xs ys p w.distinct).1

  pub before_end : ((k.mem p).prev ≡ null) ⊎ (member (k.mem p).prev xs ≡ true)
  before_end = left_end k _ xs _ p w.left

  pub behind_start : ((k.mem p).next ≡ null) ⊎ (member (k.mem p).next ys ≡ true)
  behind_start = right_start k p _ ys _ w.right

  pub b_ne : (k.mem p).prev ≢ p
  b_ne = end_ne p _ xs w.nn out_left before_end

  pub n_ne : (k.mem p).next ≢ p
  n_ne = end_ne p _ ys w.nn out_right behind_start

  pub apart : (k.mem p).prev ≡ (k.mem p).next → (k.mem p).prev ≡ null
  apart = ends_apart xs ys _ _ cross before_end behind_start

  pub member-ne-next : (z : ℕ) → member z xs ≡ true → z ≢ (k.mem p).next
  member-ne-next z h e = elim behind_start [
    | inl n0 ↦ member-ne-null k.mem null _ xs _ p z w.left h (e ∙ n0)
    | inr n_in ↦ NotIn-ne z _ ys (cross z h) n_in (sym e)
  ]

  pub member-ne-prev : (z : ℕ) → member z ys ≡ true → z ≢ (k.mem p).prev
  member-ne-prev z h e = elim before_end [
    | inl b0 ↦ member-ne-null k.mem p _ ys _ null z w.right h (e ∙ b0)
    | inr b_in ↦ NotIn-ne _ z ys (cross _ b_in) h e
  ]
