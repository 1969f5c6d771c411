-- ===== src/Mm/Handle/Slots.antt =====
-- kernel/mm/sasy/handle.c: the search of a free slot, and the number of slots in use.
use grace_os.Mm.Pmm.Count.{count}
use grace_os.Mm.Handle.{Handles, max_handles, free_slot}
use grace_os.Prelude.{
  ℕ, zero, suc, ◌+◌, ◌-◌, ◌%◌, ◌<◌, ◌≡◌, sym, ap, ◌∙◌, subst, inl, inr, Bool, true, false, none,
  some, arith, ℕ_discrete, Bool-cases,
}

abbrev pub in_use : Handles → ℕ → Bool
in_use s h = (s.handles h).valid

-- The counter is the number of handles in use, and the search starts in the table.
pub record IsCounted (s : Handles) : Type 0 where
  pub counted : s.handle_count ≡ count max_handles (in_use s)
  pub start : s.next_handle < max_handles

pub free_slot-some :
    (n h : ℕ) (s : Handles) (x : ℕ)
    → h < max_handles
    → free_slot n h s ≡ some x
    → (x < max_handles) × (in_use s x ≡ false)
unfolding free_slot
free_slot-some zero h s x lt e = absurd (ground arith)
free_slot-some (suc n) h s x lt e = elim (Bool-cases (in_use s h)) [
  | inl used ↦ free_slot-some n ((h + 1) % max_handles) s x (omega arith) (ground (arith, e, used))
  | inr free ↦
      let is : h ≡ x = ground (arith, e, free) in
      (omega arith, subst (λ y. in_use s y ≡ false) is free)
]

-- The search goes around: what it passes over is in use.
free_slot-none :
    (n h : ℕ) (s : Handles) (k : ℕ)
    → h < max_handles
    → free_slot n h s ≡ none
    → k < n
    → in_use s ((h + k) % max_handles) ≡ true
unfolding free_slot
free_slot-none zero h s k lt e less = absurd (omega arith)
free_slot-none (suc n) h s k lt e less = elim (Bool-cases (in_use s h)) [
  | inl used ↦ elim (ℕ_discrete k 0) [
    | yes first ↦ let here : (h + k) % max_handles ≡ h = omega arith in ap (in_use s) here ∙ used
    | no later ↦
        let there : (h + k) % max_handles ≡ ((h + 1) % max_handles + (k - 1)) % max_handles =
          omega arith in
        ap (in_use s) there
        ∙ free_slot-none n ((h + 1) % max_handles) s (k - 1) (omega arith) (ground (arith, e, used))
            (omega arith)
  ]
  | inr free ↦ absurd (ground (arith, e, free))
]

-- Once around, it has passed over the whole table.
pub all_in_use :
    (s : Handles)
    → s.next_handle < max_handles
    → free_slot max_handles s.next_handle s ≡ none
    → (x : ℕ) → x < max_handles
    → in_use s x ≡ true
all_in_use s lt e x less =
    let k = (x + max_handles - s.next_handle) % max_handles in
    let there : (s.next_handle + k) % max_handles ≡ x = omega arith in
    ap (in_use s) (sym there) ∙ free_slot-none max_handles s.next_handle s k lt e (omega arith)
