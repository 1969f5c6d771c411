-- ===== src/Proc/Queue/Segment.antt =====
-- kernel/proc/sched.c: doubly linked segments in the memory of PCBs.
use grace_os.Prelude.{
  ℕ, ◌≡◌, refl, sym, ◌∙◌, ◌≢◌, Bool, true, false, ◌||◌, List, [], ◌∷◌, ◌++◌, arith, ℕ_discrete,
  ◌==◌,
}
use grace_os.Proc.Kernel.{Process, null}

abbrev pub Memory : Type 0
Memory = ℕ → Process

-- The nodes `xs`, linked both ways: entered at `cur` from `before`, ended by `last`, whose `next` is
-- `after`. The empty segment goes straight through.
abbrev pub Segment : Memory → ℕ → ℕ → List ℕ → ℕ → ℕ → Type 0
Segment m before cur [] last after = (cur ≡ after) × (last ≡ before)
Segment m before cur (x ∷ xs) last after =
    (cur ≡ x) × (x ≢ null) × ((m x).prev ≡ before) × Segment m x (m x).next xs last after

abbrev pub NotIn : ℕ → List ℕ → Type 0
NotIn y [] = Unit {0}
NotIn y (x ∷ xs) = (y ≢ x) × NotIn y xs

abbrev pub Distinct : List ℕ → Type 0
Distinct [] = Unit {0}
Distinct (x ∷ xs) = NotIn x xs × Distinct xs

-- Both links of `y` are those of before.
abbrev pub SameLinks : Memory → Memory → ℕ → Type 0
SameLinks m m' y = ((m' y).next ≡ (m y).next) × ((m' y).prev ≡ (m y).prev)

abbrev pub member : ℕ → List ℕ → Bool
member y [] = false
member y (x ∷ xs) = y == x || member y xs

pub member-NotIn : (y : ℕ) (xs : List ℕ) → member y xs ≡ false → NotIn y xs
member-NotIn y [] h = tt
member-NotIn y (x ∷ xs) h = ground (arith, member-NotIn y xs)

pub NotIn-member : (y : ℕ) (xs : List ℕ) → NotIn y xs → member y xs ≡ false
NotIn-member y [] h = refl
NotIn-member y (x ∷ xs) h = ground (arith, NotIn-member y xs h.1)

pub NotIn-ne : (y x : ℕ) (xs : List ℕ) → NotIn y xs → member x xs ≡ true → x ≢ y
NotIn-ne y x [] h e = cc
NotIn-ne y x (z ∷ xs) h e = ground (arith, NotIn-ne y x xs h.1)

pub NotIn-append : (y : ℕ) (xs ys : List ℕ) → NotIn y (xs ++ ys) → NotIn y xs × NotIn y ys
NotIn-append y [] ys h = (tt, h)
NotIn-append y (x ∷ xs) ys h = let (a, b) = NotIn-append y xs ys h.1 in ((h.0, a), b)

pub append-NotIn : (y : ℕ) (xs ys : List ℕ) → NotIn y xs → NotIn y ys → NotIn y (xs ++ ys)
append-NotIn y [] ys h h' = h'
append-NotIn y (x ∷ xs) ys h h' = (h.0, append-NotIn y xs ys h.1 h')

-- A segment stands where its links are unchanged.
pub Segment-agree :
    (m m' : Memory) (b c : ℕ) (xs : List ℕ) (l a : ℕ)
    → ((y : ℕ) → member y xs ≡ true → SameLinks m m' y)
    → Segment m b c xs l a
    → Segment m' b c xs l a
Segment-agree m m' b c [] l a h s = s
Segment-agree m m' b c (x ∷ xs) l a h s =
    let (next, prev) = h x (ground arith) in
    (
      s.0,
      s.1,
      prev ∙ s.2,
      rw next (Segment-agree m m' x (m x).next xs l a (λ y e. h y (ground arith)) s.3),
    )

-- The last node of a segment that is not empty is one of its nodes.
pub last-member :
    (m : Memory) (b c x : ℕ) (xs : List ℕ) (l a : ℕ)
    → Segment m b c (x ∷ xs) l a
    → member l (x ∷ xs) ≡ true
last-member m b c x [] l a s = ground arith
last-member m b c x (y ∷ ys) l a s = ground (arith, last-member m x (m x).next y ys l a s.3)

-- The last node may be given another successor.
pub Segment-retarget :
    (m m' : Memory) (b c x : ℕ) (xs : List ℕ) (l a a' : ℕ)
    → Distinct (x ∷ xs)
    → ((y : ℕ) → member y (x ∷ xs) ≡ true → y ≢ l → SameLinks m m' y)
    → (m' l).next ≡ a'
    → (m' l).prev ≡ (m l).prev
    → Segment m b c (x ∷ xs) l a
    → Segment m' b c (x ∷ xs) l a'
Segment-retarget m m' b c x [] l a a' d h n p s =
    let e = s.3.1 in (s.0, s.1, (rw e at p) ∙ s.2, (rw e at n, e))
Segment-retarget m m' b c x (y ∷ ys) l a a' d h n p s =
    let x_ne_l : x ≢ l =
      λ e. NotIn-ne x l (y ∷ ys) d.0 (last-member m x (m x).next y ys l a s.3) (sym e) in
    let (next, prev) = h x (ground arith) x_ne_l in
    (
      s.0,
      s.1,
      prev ∙ s.2,
      rw next (
          Segment-retarget m m' x (m x).next y ys l a a' d.1 (λ z e ne. h z (ground arith) ne) n p
            s.3),
    )

-- The first node may be given another predecessor.
pub Segment-reroot :
    (m m' : Memory) (b c y : ℕ) (ys : List ℕ) (l a b' : ℕ)
    → ((z : ℕ) → member z ys ≡ true → SameLinks m m' z)
    → (m' y).next ≡ (m y).next
    → (m' y).prev ≡ b'
    → Segment m b c (y ∷ ys) l a
    → Segment m' b' c (y ∷ ys) l a
Segment-reroot m m' b c y ys l a b' h n p s =
    (s.0, s.1, p, rw n (Segment-agree m m' y (m y).next ys l a h s.3))

-- A segment splits where its list does, and two that meet join.
pub Segment-split :
    (m : Memory) (b c : ℕ) (xs ys : List ℕ) (l a : ℕ)
    → Segment m b c (xs ++ ys) l a
    → (l' : ℕ) × (c' : ℕ) × Segment m b c xs l' c' × Segment m l' c' ys l a
Segment-split m b c [] ys l a s = (b, c, (refl, refl), s)
Segment-split m b c (x ∷ xs) ys l a s =
    let (l', c', s1, s2) = Segment-split m x (m x).next xs ys l a s.3 in
    (l', c', (s.0, s.1, s.2, s1), s2)

pub Segment-join :
    (m : Memory) (b c : ℕ) (xs ys : List ℕ) (l a l' c' : ℕ)
    → Segment m b c xs l' c'
    → Segment m l' c' ys l a
    → Segment m b c (xs ++ ys) l a
Segment-join m b c [] ys l a l' c' s t = rw (s.0, ← s.1) t
Segment-join m b c (x ∷ xs) ys l a l' c' s t =
    (s.0, s.1, s.2, Segment-join m x (m x).next xs ys l a l' c' s.3 t)

-- No node is null.
pub member-ne-null :
    (m : Memory) (b c : ℕ) (xs : List ℕ) (l a y : ℕ)
    → Segment m b c xs l a
    → member y xs ≡ true
    → y ≢ null
member-ne-null m b c [] l a y s h = cc
member-ne-null m b c (x ∷ xs) l a y s h = elim (ℕ_discrete y x) [
  | yes e ↦ rw e s.1
  | no ne ↦ member-ne-null m x (m x).next xs l a y s.3 (ground arith)
]

-- Every node behind a node has a predecessor.
pub member-has_prev :
    (m : Memory) (b c : ℕ) (xs : List ℕ) (l a y : ℕ)
    → b ≢ null
    → Segment m b c xs l a
    → member y xs ≡ true
    → (m y).prev ≢ null
member-has_prev m b c [] l a y nn s h = cc
member-has_prev m b c (x ∷ xs) l a y nn s h = elim (ℕ_discrete y x) [
  | yes e ↦ λ z. nn (sym s.2 ∙ (rw e at z))
  | no ne ↦ member-has_prev m x (m x).next xs l a y s.1 s.3 (ground arith)
]
