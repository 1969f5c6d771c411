-- ===== src/Proc/Pipe/Slots.antt =====
-- kernel/proc/pipe.c: the table of slots, and when a slot comes free again.
use grace_os.Prelude.{
  ℕ, zero, suc, ◌+◌, ◌≤◌, ◌<◌, ◌≡◌, refl, sym, ◌∙◌, subst, ◌⊎◌, inl, inr, Bool, true, false, ◌&&◌,
  not, List, arith, ℕ_discrete, ltb, leb, ◌==◌, if◌then◌else◌, ==_iff, ==_ne, Bool-cases, put,
}
use grace_os.Prelude.Int.{ℤ, pos, negsuc, pos_part}
use grace_os.Proc.Pipe.Ring.{
  IsValid, SameEnds, read_bytes-HasRead, write_bytes-HasWritten, opened-IsValid,
}
use grace_os.Proc.Pipe.{
  pipe_init, read_pipe, write_pipe, read_bytes, write_bytes, Pipe, Table, opened, zeroed,
  pipe_table_size, alloc_from, pipe_alloc, pipe_close_read, pipe_close_write, pipe_read, pipe_write,
  close_read_end, close_write_end,
}

-- Slot `i` is in use.
abbrev pub InUse : Table → ℕ → Type 0
InUse t i = (t i).valid ≡ true

-- The answer of a search among the slots `lo` to `hi`: the first free one, opened; or none.
abbrev pub FoundSlot : Table → ℕ → ℕ → ℤ × Table → Type 0
FoundSlot t lo hi r =
    ((i : ℕ) × (lo ≤ i)
      × (i < hi)
      × ((t i).valid ≡ false)
      × ((j : ℕ) → lo ≤ j → j < i → InUse t j)
      × (r ≡ (pos i, put t i opened)))
    ⊎ (((j : ℕ) → lo ≤ j → j < hi → InUse t j) × (r ≡ (negsuc 0, t)))

alloc_from-FoundSlot : (n i : ℕ) (t : Table) → FoundSlot t i (i + n) (alloc_from n i t)
unfolding alloc_from
alloc_from-FoundSlot zero i t = inr (λ j lo hi. absurd (omega arith), refl)
alloc_from-FoundSlot (suc n) i t = elim (Bool-cases (t i).valid) [
  | inr free ↦
      rw free (inl (i, omega arith, omega arith, free, λ j lo hi. absurd (omega arith), refl))
  | inl used ↦ rw used (elim (alloc_from-FoundSlot n (i + 1) t) [
    | inl (j, lo, hi, free, first, same) ↦
        inl (j, omega arith, omega arith, free, λ k lo' hi'. below used k lo' (first k) hi', same)
    | inr (all, same) ↦ inr (λ k lo hi. below used k lo (λ l. all k l) (omega arith), same)
  ])
]
  where
    below :
        InUse t i
        → (k : ℕ) → i ≤ k
        → {hi : ℕ} → (i + 1 ≤ k → k < hi → InUse t k)
        → k < hi
        → InUse t k
    below used k lo rest hi = elim (ℕ_discrete i k) [
      | yes e ↦ rw (← e) used
      | no ne ↦ rest (omega arith) hi
    ]

-- `pipe_alloc` opens the lowest free slot, with one reader and one writer and no bytes, and leaves
-- the others alone; it fails only when all 64 are in use.
pub pipe_alloc_lem : (t : Table) → FoundSlot t 0 pipe_table_size (pipe_alloc t)
unfolding pipe_alloc
pipe_alloc_lem t = alloc_from-FoundSlot pipe_table_size 0 t

-- A call on the table.
pub data Call : Type 0 where
  allocate : Call
  reads : ℤ → ℤ → Call
  writes : ℤ → List ℕ → Call
  closes_read : ℤ → Call
  closes_write : ℤ → Call

unfoldable pub step : Table → Call → Table
step t allocate = (pipe_alloc t).1
step t (reads i n) = (pipe_read t i n).2
step t (writes i bs) = (pipe_write t i bs).1
step t (closes_read i) = pipe_close_read t i
step t (closes_write i) = pipe_close_write t i

-- A slot in use has an end open, and a ring that is in order.
pub record IsSound (p : Pipe) : Type 0 where
  pub ring : p.valid ≡ true → IsValid p
  pub held : p.valid ≡ true → 0 < p.readers + p.writers

abbrev pub AllSound : Table → Type 0
AllSound t = (i : ℕ) → IsSound (t i)

put-AllSound : (t : Table) (i : ℕ) (p : Pipe) → AllSound t → IsSound p → AllSound (put t i p)
put-AllSound t i p all s j = elim (ℕ_discrete i j) [
  | yes e ↦ rw ((==_iff i j).1 e) s
  | no ne ↦ rw (==_ne i j ne) (all j)
]

SameEnds-IsSound :
    (p q : Pipe) → SameEnds p q → (p.valid ≡ true → IsValid q) → IsSound p → IsSound q
SameEnds-IsSound p q e ring s = record {
  ring = λ h. ring (sym e.valid ∙ h);
  held = λ h. omega (arith, e.readers, e.writers, s.held (sym e.valid ∙ h));
}

-- A read or a write that goes through changes only the ring.
read_pipe-cases :
    (n : ℕ) (p : Pipe)
    → ((read_pipe n p).2 ≡ p) ⊎ ((p.valid ≡ true) × ((read_pipe n p).2 ≡ (read_bytes n p).1))
unfolding read_pipe
read_pipe-cases n p = ground arith

write_pipe-cases :
    (bs : List ℕ) (p : Pipe)
    → ((write_pipe bs p).1 ≡ p) ⊎ ((p.valid ≡ true) × ((write_pipe bs p).1 ≡ (write_bytes bs p).1))
unfolding write_pipe
write_pipe-cases bs p = ground arith

read_pipe-IsSound : (n : ℕ) (p : Pipe) → IsSound p → IsSound (read_pipe n p).2
read_pipe-IsSound n p s = elim (read_pipe-cases n p) [
  | inl e ↦ rw e s
  | inr (used, e) ↦
      let h = read_bytes-HasRead n p (s.ring used) in
      rw e (SameEnds-IsSound p _ h.ends (λ _. h.valid) s)
]

write_pipe-IsSound : (bs : List ℕ) (p : Pipe) → IsSound p → IsSound (write_pipe bs p).1
write_pipe-IsSound bs p s = elim (write_pipe-cases bs p) [
  | inl e ↦ rw e s
  | inr (used, e) ↦
      let h = write_bytes-HasWritten bs p (s.ring used) in
      rw e (SameEnds-IsSound p _ h.ends (λ _. h.valid) s)
]

-- A close touches the ends and the flag, and frees the slot only when no end is left.
record Closed (p q : Pipe) : Type 0 where
  ring : IsValid p → IsValid q
  was : q.valid ≡ true → p.valid ≡ true
  left : q.valid ≡ true → 0 < q.readers + q.writers

close_read_end-Closed : (p : Pipe) → IsSound p → Closed p (close_read_end p)
unfolding close_read_end
close_read_end-Closed p s = record {
  ring = λ v. ground arith;
  was = ground arith;
  left = ground arith;
}

close_write_end-Closed : (p : Pipe) → IsSound p → Closed p (close_write_end p)
unfolding close_write_end
close_write_end-Closed p s = record {
  ring = λ v. ground arith;
  was = ground arith;
  left = ground arith;
}

Closed-IsSound : (p q : Pipe) → Closed p q → IsSound p → IsSound q
Closed-IsSound p q c s = record { ring = λ h. c.ring (s.ring (c.was h)); held = c.left }

opened-IsSound : IsSound opened
opened-IsSound = record { ring = λ _. opened-IsValid; held = λ _. omega arith }

FoundSlot-AllSound :
    (t : Table) (lo hi : ℕ) (r : ℤ × Table) → FoundSlot t lo hi r → AllSound t → AllSound r.1
FoundSlot-AllSound t lo hi r (inl (i, _, _, _, _, e)) s =
    rw e (put-AllSound t i opened s opened-IsSound)
FoundSlot-AllSound t lo hi r (inr (_, e)) s = rw e s

-- A change of one slot in range, or none.
put_if-AllSound :
    (t : Table) (i : ℕ) (b : Bool) (q : Pipe)
    → AllSound t
    → IsSound q
    → AllSound (if b then put t i q else t)
put_if-AllSound t i true q all s = put-AllSound t i q all s
put_if-AllSound t i false q all s = all

reads_slot :
    (t : Table) (i : ℕ) (n : ℤ)
    → (pipe_read t (pos i) n).2
      ≡ (if ltb i pipe_table_size then put t i (read_pipe (pos_part n) (t i)).2 else t)
unfolding pipe_read
reads_slot t i n = ground arith

writes_slot :
    (t : Table) (i : ℕ) (bs : List ℕ)
    → (pipe_write t (pos i) bs).1
      ≡ (if ltb i pipe_table_size then put t i (write_pipe bs (t i)).1 else t)
unfolding pipe_write
writes_slot t i bs = ground arith

-- No call breaks the table: every slot in use keeps a ring in order and an open end.
pub step-AllSound : (t : Table) (c : Call) → AllSound t → AllSound (step t c)
unfolding step
step-AllSound t allocate all = FoundSlot-AllSound t 0 pipe_table_size _ (pipe_alloc_lem t) all
step-AllSound t (reads (pos i) n) all =
    subst AllSound (sym (reads_slot t i n))
      (put_if-AllSound t i _ _ all (read_pipe-IsSound (pos_part n) (t i) (all i)))
step-AllSound t (reads (negsuc i) n) all = unfold pipe_read in all
step-AllSound t (writes (pos i) bs) all =
    subst AllSound (sym (writes_slot t i bs))
      (put_if-AllSound t i _ _ all (write_pipe-IsSound bs (t i) (all i)))
step-AllSound t (writes (negsuc i) bs) all = unfold pipe_write in all
step-AllSound t (closes_read (pos i)) all =
    unfold pipe_close_read in
    put_if-AllSound t i _ _ all
      (Closed-IsSound (t i) _ (close_read_end-Closed (t i) (all i)) (all i))
step-AllSound t (closes_read (negsuc i)) all = unfold pipe_close_read in all
step-AllSound t (closes_write (pos i)) all =
    unfold pipe_close_write in
    put_if-AllSound t i _ _ all
      (Closed-IsSound (t i) _ (close_write_end-Closed (t i) (all i)) (all i))
step-AllSound t (closes_write (negsuc i)) all = unfold pipe_close_write in all

pub pipe_init-AllSound : AllSound pipe_init
unfolding zeroed
pipe_init-AllSound i = record { ring = λ h. cc; held = λ h. cc }

-- A slot in use is freed by a close exactly when that end was the last one open.
pub close_ends_lem :
    (p : Pipe)
    → IsSound p
    → p.valid ≡ true
    → ((close_read_end p).valid ≡ not (leb p.readers 1 && p.writers == 0))
      × ((close_write_end p).valid ≡ not (leb p.writers 1 && p.readers == 0))
unfolding close_read_end close_write_end
close_ends_lem p s used = ground (arith, s.held used)
