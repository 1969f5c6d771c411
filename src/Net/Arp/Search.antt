-- ===== src/Net/Arp/Search.antt =====
-- kernel/net/arp/arp.c: what the loops over the cache find.
use grace_os.Net.Arp.{ArpCache, arp_cache_size, is_for, find_entry, find_oldest}
use grace_os.Prelude.{
  ℕ, zero, suc, ◌+◌, ◌≤◌, ◌<◌, ◌≡◌, refl, sym, ap, ◌∙◌, subst, ◌⊎◌, inl, inr, true, false, Option,
  none, some, arith, dec_lt, ℕ_discrete, ltb, if◌then◌else◌, ltb→lt, Bool-cases,
}

-- No entry of these slots is for `ip`.
abbrev pub NoneIn : ArpCache → ℕ → ℕ → ℕ → Type 0
NoneIn cache ip from to = (j : ℕ) → from ≤ j → j < to → is_for cache ip j ≡ false

-- The first entry for `ip` from a slot on.
abbrev pub IsFirst : ArpCache → ℕ → ℕ → ℕ → Type 0
IsFirst cache ip from k = (from ≤ k) × (is_for cache ip k ≡ true) × NoneIn cache ip from k

abbrev Outcome : ArpCache → ℕ → ℕ → ℕ → Option ℕ → Type 0
Outcome cache ip n i r =
    ((k : ℕ) × (k < i + n) × IsFirst cache ip i k × (r ≡ some k))
    ⊎ (NoneIn cache ip i (i + n) × (r ≡ none))

-- A slot more in front.
NoneIn-more :
    (cache : ArpCache) (ip i to : ℕ)
    → is_for cache ip i ≡ false
    → NoneIn cache ip (i + 1) to
    → NoneIn cache ip i to
NoneIn-more cache ip i to off none_later j lo hi = elim (ℕ_discrete j i) [
  | yes e ↦ ap (is_for cache ip) e ∙ off
  | no ne ↦ none_later j (omega (arith, lo, ne)) hi
]

pub find_entry-Outcome :
    (cache : ArpCache) (ip n i : ℕ) → Outcome cache ip n i (find_entry cache ip n i)
unfolding find_entry
find_entry-Outcome cache ip zero i = inr (λ j lo hi. absurd (omega (arith, lo, hi)), refl)
find_entry-Outcome cache ip (suc n) i = elim (Bool-cases (is_for cache ip i)) [
  | inl hit ↦
      inl (
        i,
        omega arith,
        (omega arith, hit, λ j lo hi. absurd (omega (arith, lo, hi))),
        (rw hit refl),
      )
  | inr off ↦ elim (find_entry-Outcome cache ip n (i + 1)) [
    | inl (k, lt, (le, hit, before), e) ↦ inl (
      k,
      omega (arith, lt),
      (omega (arith, le), hit, NoneIn-more cache ip i k off before),
      (rw off e),
    )
    | inr (never, e) ↦ inr (
      λ j lo hi. NoneIn-more cache ip i (i + 1 + n) off never j lo (omega (arith, hi)),
      (rw off e),
    )
  ]
]

-- The search finds the first entry.
pub find_entry-first :
    (cache : ArpCache) (ip k : ℕ)
    → k < arp_cache_size
    → IsFirst cache ip 0 k
    → find_entry cache ip arp_cache_size 0 ≡ some k
find_entry-first cache ip k lt (le, hit, before) =
    elim (find_entry-Outcome cache ip arp_cache_size 0) [
      | inl (k', lt', (le', hit', before'), e) ↦
          let late : (k < k') → k ≡ k' =
            λ h. absurd (ground (arith, hit, before' k (omega arith) h)) in
          let early : (k' < k) → k ≡ k' =
            λ h. absurd (ground (arith, hit', before k' (omega arith) h)) in
          let same : k ≡ k' = elim (dec_lt k k') [
            | yes h ↦ late h
            | no h ↦ elim (dec_lt k' k) [ yes h' ↦ early h' | no h' ↦ omega (arith, h, h') ]
          ] in
          e ∙ ap some (sym same)
      | inr (never, e) ↦ absurd (ground (arith, hit, never k (omega arith) lt))
    ]

-- Entries of these slots are all in use and not older than that of `r`.
abbrev pub OldestOf : ArpCache → ℕ → ℕ → ℕ → Type 0
OldestOf cache r i to =
    (j : ℕ)
    → i ≤ j
    → j < to
    → ((cache j).valid ≡ true) × ((cache r).timestamp ≤ (cache j).timestamp)

-- A slot that is free, or the oldest of all.
abbrev pub IsChosen : ArpCache → ℕ → ℕ → ℕ → ℕ → Type 0
IsChosen cache oldest n i r =
    ((r ≡ oldest) ⊎ (r < i + n))
    × (((cache r).valid ≡ false)
        ⊎ (OldestOf cache r i (i + n) × ((cache r).timestamp ≤ (cache oldest).timestamp)))

-- A slot in use in front.
next_oldest :
    (cache : ArpCache) (oldest n i : ℕ)
    → (cache i).valid ≡ true
    → (r : ℕ)
    → IsChosen cache
        (if ltb (cache i).timestamp (cache oldest).timestamp then i else oldest)
        n
        (i + 1)
        r
    → IsChosen cache oldest (suc n) i r
next_oldest cache oldest n i in_use r (at, chosen) =
    let older = if ltb (cache i).timestamp (cache oldest).timestamp then i else oldest in
    let place : (r ≡ oldest) ⊎ (r < i + suc n) = elim at [
      | inr lt ↦ inr (omega (arith, lt))
      | inl e ↦ elim (Bool-cases (ltb (cache i).timestamp (cache oldest).timestamp)) [
        | inl yes_older ↦ let here : older ≡ i = rw yes_older refl in inr (omega (arith, e, here))
        | inr not_older ↦ let here : older ≡ oldest = rw not_older refl in inl (e ∙ here)
      ]
    ] in
    let both : ((cache older).timestamp ≤ (cache i).timestamp)
        × ((cache older).timestamp ≤ (cache oldest).timestamp) =
      elim (Bool-cases (ltb (cache i).timestamp (cache oldest).timestamp)) [
        | inl yes_older ↦ rw yes_older (omega arith, omega (arith, ltb→lt _ _ yes_older))
        | inr not_older ↦ rw not_older (ground (arith, not_older), omega arith)
      ] in
    elim chosen [
      | inl free ↦ (place, inl free)
      | inr (all, le) ↦ (
        place,
        inr (
          λ j lo hi. elim (ℕ_discrete j i) [
            | yes e ↦
                subst
                  (λ j'. ((cache j').valid ≡ true) × ((cache r).timestamp ≤ (cache j').timestamp))
                  (sym e) (in_use, omega (arith, le, both.0))
            | no ne ↦ all j (omega (arith, lo, ne)) (omega (arith, hi))
          ],
          omega (arith, le, both.1),
        ),
      )
    ]

pub find_oldest-IsChosen :
    (cache : ArpCache) (oldest n i : ℕ) → IsChosen cache oldest n i (find_oldest cache oldest n i)
unfolding find_oldest
find_oldest-IsChosen cache oldest zero i =
    (inl refl, inr (λ j lo hi. absurd (omega (arith, lo, hi)), omega arith))
find_oldest-IsChosen cache oldest (suc n) i = elim (Bool-cases (cache i).valid) [
  | inr free ↦ rw free (inr (omega arith), inl free)
  | inl in_use ↦ rw in_use (
      next_oldest cache oldest n i in_use _ (
        find_oldest-IsChosen cache
          (if ltb (cache i).timestamp (cache oldest).timestamp then i else oldest) n (i + 1)))
]
