-- ===== src/History/Browse.antt =====
-- userland/shell/history.c: going back and forth among the commands held.
use grace_os.Text.{Text}
use grace_os.History.{History, hist_max, oldest, newest, hist_prev, hist_next}
use grace_os.History.Entries.{Holds, get_elem?-inside}
use grace_os.Prelude.{
  ℕ, ◌+◌, ◌-◌, ◌%◌, ◌<◌, ◌≡◌, refl, sym, ap, ◌∙◌, true, false, Option, none, some, List, arith,
  ℕ_discrete, ◌==◌, get_elem?,
}

-- Browsing at the command of an index.
abbrev pub at : History → ℕ → History
at s i = record s { pos = (oldest s + i) % hist_max; browsing = true }

prev_back :
    (s : History) (xs : List Text) (i : ℕ)
    → Holds s xs
    → i < s.count
    → hist_prev (at s i) ≡ (some (s.hist ((oldest s + (i - 1)) % hist_max)), at s (i - 1))
unfolding hist_prev
prev_back s xs i v lt = elim (ℕ_discrete i 0) [
  | yes first ↦
      let there : (oldest s + i) % hist_max ≡ oldest s = omega (arith, first) in
      let same : (oldest s + (i - 1)) % hist_max ≡ oldest s = omega (arith, first) in
      let some_held : (s.count == 0) ≡ false = ground (arith, lt) in
      let at_end : (oldest s == oldest s) ≡ true = ground arith in
      rw (some_held, there, same, at_end) refl
  | no later ↦
      let some_held : (s.count == 0) ≡ false = ground (arith, lt) in
      let not_end : ((oldest s + i) % hist_max == oldest s) ≡ false =
        ground (arith, lt, later, v.room) in
      let back : ((oldest s + i) % hist_max + hist_max - 1) % hist_max
          ≡ (oldest s + (i - 1)) % hist_max =
        omega (arith, lt, later, v.room) in
      rw (some_held, not_end, back) refl
]

next_on :
    (s : History) (xs : List Text) (i : ℕ)
    → Holds s xs
    → i + 1 < s.count
    → hist_next (at s i) ≡ (some (s.hist ((oldest s + (i + 1)) % hist_max)), at s (i + 1))
unfolding hist_next
next_on s xs i v lt =
    let some_held : (s.count == 0) ≡ false = ground (arith, lt) in
    let not_end : ((oldest s + i) % hist_max == newest s) ≡ false =
      ground (arith, lt, v.room, v.head_in) in
    let on : ((oldest s + i) % hist_max + 1) % hist_max ≡ (oldest s + (i + 1)) % hist_max =
      omega arith in
    rw (some_held, not_end, on) refl

next_end :
    (s : History) (xs : List Text) (i : ℕ)
    → Holds s xs
    → i + 1 ≡ s.count
    → hist_next (at s i) ≡ (none, record (at s i) { browsing = false })
unfolding hist_next
next_end s xs i v last =
    let some_held : (s.count == 0) ≡ false = ground (arith, last) in
    let at_end : ((oldest s + i) % hist_max == newest s) ≡ true =
      ground (arith, last, v.room, v.head_in) in
    rw (some_held, at_end) refl

prev_start :
    (s : History) (xs : List Text)
    → Holds s xs
    → 0 < s.count
    → s.browsing ≡ false
    → hist_prev s ≡ (some (s.hist ((oldest s + (s.count - 1)) % hist_max)), at s (s.count - 1))
unfolding hist_prev
prev_start s xs v pos fresh =
    let some_held : (s.count == 0) ≡ false = ground (arith, pos) in
    let there : newest s ≡ (oldest s + (s.count - 1)) % hist_max =
      omega (arith, pos, v.room, v.head_in) in
    rw (some_held, fresh, there) refl

-- What the keys show, and where they lead, of the commands held: the first step back goes to the last
-- command, each further one to the one before and no further than the oldest, and a step forward to
-- the one after, and from the last out of browsing.
pub browse_lem :
    (s : History) (xs : List Text)
    → Holds s xs
    → (0 < s.count
        → s.browsing ≡ false
        → hist_prev s ≡ (get_elem? xs (s.count - 1), at s (s.count - 1)))
      × ((i : ℕ) → i < s.count → hist_prev (at s i) ≡ (get_elem? xs (i - 1), at s (i - 1)))
      × ((i : ℕ) → i + 1 < s.count → hist_next (at s i) ≡ (get_elem? xs (i + 1), at s (i + 1)))
      × ((i : ℕ)
          → i + 1 ≡ s.count
          → hist_next (at s i) ≡ (none, record (at s i) { browsing = false }))
browse_lem s xs v = (
  λ pos fresh. prev_start s xs v pos fresh ∙ shown (s.count - 1) (omega (arith, pos)),
  λ i lt. prev_back s xs i v lt ∙ shown (i - 1) (omega arith),
  λ i lt. next_on s xs i v lt ∙ shown (i + 1) lt,
  λ i last. next_end s xs i v last,
)
  where
    shown :
        (j : ℕ)
        → j < s.count
        → ◌≡◌ {A = Option Text × History}
            (some (s.hist ((oldest s + j) % hist_max)), at s j)
            (get_elem? xs j, at s j)
    shown j lt =
        ap (λ r. (r, at s j))
          (ap some (v.each j lt) ∙ sym (get_elem?-inside xs j (omega (arith, lt, v.counted))))
