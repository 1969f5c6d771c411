-- ===== src/Mm/Pmm/Alloc.antt =====
-- kernel/mm/pmm/pmm.c: what `pmm_alloc_page`, `pmm_alloc_page_low`, `pmm_free_page` and
-- `pmm_reserve_range` do to the frames, and what any history of calls keeps.
use grace_os.Prelude.{
  ℕ, zero, suc, ◌+◌, ◌*◌, ◌/◌, ◌%◌, ◌^◌, ◌≤◌, ◌<◌, ◌≡◌, refl, ◌⊎◌, inl, inr, true, false, ◌&&◌,
  ◌||◌, not, none, some, arith, ℕ_discrete, ltb, ◌==◌, if◌then◌else◌, Bool-cases, Option-cases,
}
use grace_os.Mm.Bitmap.{bitmap_test, bitmap_test-bitmap_set, bitmap_test-bitmap_clear}
use grace_os.Mm.Pmm.{
  Pmm, page_size, take_first, or_else, pmm_alloc_page, pmm_alloc_page_low, pmm_free_page,
}
use grace_os.Mm.Pmm.Count.{count, count-le, count_pos}
use grace_os.Mm.Pmm.Loops.{IsValid, used_at, freed_at, used_at-IsValid, freed_at-IsValid}

-- The frame is used.
abbrev pub Used : Pmm → ℕ → Type 0
Used p g = bitmap_test p.bitmap g ≡ true

take_first-none :
    (n i : ℕ) (p : Pmm) → take_first n i p ≡ none → (g : ℕ) → i ≤ g → g < i + n → Used p g
unfolding take_first
take_first-none zero i p e g lo hi = absurd (omega arith)
take_first-none (suc n) i p e g lo hi = elim (ℕ_discrete i g) [
  | yes same ↦ rw (← same) (ground arith)
  | no ne ↦ take_first-none n (i + 1) p (ground arith) g (omega arith) (omega arith)
]

-- `f` is the first free frame from `i` on.
pub record IsFirstFree (p : Pmm) (i n f : ℕ) : Type 0 where
  pub lower : i ≤ f
  pub upper : f < i + n
  pub free : bitmap_test p.bitmap f ≡ false
  pub first : (g : ℕ) → i ≤ g → g < f → Used p g

take_first-some :
    (n i : ℕ) (p : Pmm) (r : ℕ × Pmm)
    → take_first n i p ≡ some r
    → (f : ℕ) × IsFirstFree p i n f × (r ≡ (f * page_size % 2 ^ 64, used_at p f))
unfolding take_first
take_first-some zero i p r e = cc
take_first-some (suc n) i p r e = elim (Bool-cases (bitmap_test p.bitmap i)) [
  | inl used ↦
      let (f, first, same) = take_first-some n (i + 1) p r (ground arith) in
      (
        f,
        record {
          lower = omega (arith, first.lower);
          upper = omega (arith, first.upper);
          free = first.free;
          first = λ g lo hi. elim (ℕ_discrete i g) [
            | yes e' ↦ rw (← e') used
            | no ne ↦ first.first g (omega arith) hi
          ];
        },
        same,
      )
  | inr free ↦ (
    i,
    record {
      lower = omega arith;
      upper = omega arith;
      free = free;
      first = λ g lo hi. absurd (omega arith);
    },
    ground arith,
  )
]

-- Frame `f` was handed out as the page `a`, and nothing else changed.
pub record Allocated (p : Pmm) (f a : ℕ) (q : Pmm) : Type 0 where
  pub address : a ≡ f * page_size
  pub counted : q.used_frames ≡ p.used_frames + 1
  pub frames : (g : ℕ) → bitmap_test q.bitmap g ≡ (f == g || bitmap_test p.bitmap g)
  pub total : q.max_frames ≡ p.max_frames
  pub ready : q.ready ≡ p.ready
  pub valid : IsValid q

used_at-Allocated :
    (p : Pmm) (n f : ℕ)
    → IsValid p
    → n ≤ p.max_frames
    → IsFirstFree p 0 n f
    → Allocated p f (f * page_size % 2 ^ 64) (used_at p f)
used_at-Allocated p n f v h first = record {
  address = omega (arith, first.upper, v.limit);
  counted = omega (arith, v.counted, v.limit, count-le p.max_frames (bitmap_test p.bitmap));
  frames = λ g. bitmap_test-bitmap_set p.bitmap f g v.bits;
  total = refl;
  ready = refl;
  valid = used_at-IsValid p f v first.free;
}

-- A scan of the first `n` frames hands out the lowest free one; or all are used, and the answer is
-- `otherwise` in the old state.
abbrev pub Outcome : Pmm → ℕ → ℕ → ℕ × Pmm → Type 0
Outcome p n otherwise r =
    ((f : ℕ) × IsFirstFree p 0 n f × Allocated p f r.0 r.1)
    ⊎ (((g : ℕ) → g < n → Used p g) × (r ≡ (otherwise, p)))

scan-Outcome :
    (n otherwise : ℕ) (p : Pmm)
    → IsValid p
    → n ≤ p.max_frames
    → Outcome p n otherwise (or_else (take_first n 0 p) otherwise p)
scan-Outcome n otherwise p v h = elim (Option-cases (take_first n 0 p)) [
  | inl e ↦ rw e (inr (λ g lt. take_first-none n 0 p e g (omega arith) (omega arith), refl))
  | inr (r, e) ↦
      let (f, first, same) = take_first-some n 0 p r e in
      rw (e, same) (inl (f, first, used_at-Allocated p n f v h first))
]

ready-pmm_alloc_page :
    (fallback : ℕ) (p : Pmm)
    → p.ready ≡ true
    → pmm_alloc_page fallback p ≡ or_else (take_first p.max_frames 0 p) fallback p
unfolding pmm_alloc_page
ready-pmm_alloc_page fallback p ready = ground arith

-- The frames below 16 MB, as far as there are that many.
abbrev pub low_frames : Pmm → ℕ
low_frames p = if ltb p.max_frames 4096 then p.max_frames else 4096

ready-pmm_alloc_page_low :
    (fallback : ℕ) (p : Pmm)
    → p.ready ≡ true
    → pmm_alloc_page_low fallback p ≡ or_else (take_first (low_frames p) 0 p) 0 p
unfolding pmm_alloc_page_low
ready-pmm_alloc_page_low fallback p ready = ground arith

-- On a ready allocator, `pmm_alloc_page` hands out the lowest free frame at its address, counts it
-- and changes no other frame; only when every frame is used does it return the fallback's page, and
-- then the state is as it was.
pub pmm_alloc_page_lem :
    (fallback : ℕ) (p : Pmm)
    → IsValid p
    → p.ready ≡ true
    → Outcome p p.max_frames fallback (pmm_alloc_page fallback p)
pmm_alloc_page_lem fallback p v ready =
    rw (ready-pmm_alloc_page fallback p ready)
      (scan-Outcome p.max_frames fallback p v (omega arith))

-- On a ready allocator the low allocator hands out the lowest free frame below 16 MB, counts it and
-- changes no other frame; when those are used up it answers 0 and the state is as it was.
pub pmm_alloc_page_low_lem :
    (fallback : ℕ) (p : Pmm)
    → IsValid p
    → p.ready ≡ true
    → Outcome p (low_frames p) 0 (pmm_alloc_page_low fallback p)
pmm_alloc_page_low_lem fallback p v ready =
    rw (ready-pmm_alloc_page_low fallback p ready)
      (scan-Outcome (low_frames p) 0 p v (ground arith))

Outcome-IsValid :
    (p : Pmm) (n otherwise : ℕ) (r : ℕ × Pmm) → IsValid p → Outcome p n otherwise r → IsValid r.1
Outcome-IsValid p n o r v (inl (f, first, done)) = done.valid
Outcome-IsValid p n o r v (inr (all, e)) = rw e v

-- The page at `a` may be freed: its frame is in range and used.
abbrev pub Freeable : Pmm → ℕ → Type 0
Freeable p a = (a / page_size < p.max_frames) × Used p (a / page_size)

-- Frame `f` was taken back, and nothing else changed.
pub record Freed (p : Pmm) (f : ℕ) (q : Pmm) : Type 0 where
  pub counted : q.used_frames + 1 ≡ p.used_frames
  pub frames : (g : ℕ) → bitmap_test q.bitmap g ≡ (not (f == g) && bitmap_test p.bitmap g)
  pub total : q.max_frames ≡ p.max_frames
  pub ready : q.ready ≡ p.ready
  pub valid : IsValid q

freed_at-Freed :
    (p : Pmm) (f : ℕ) → IsValid p → f < p.max_frames → Used p f → Freed p f (freed_at p f)
freed_at-Freed p f v lt used = record {
  counted =
      omega (arith, v.counted, v.limit, count-pos, count-le p.max_frames (bitmap_test p.bitmap));
  frames = λ g. bitmap_test-bitmap_clear p.bitmap f g v.bits (omega (arith, v.same_frames));
  total = refl;
  ready = refl;
  valid = freed_at-IsValid p f v used lt;
}
  where
    count-pos : 0 < count p.max_frames (bitmap_test p.bitmap)
    count-pos = count_pos p.max_frames f (bitmap_test p.bitmap) lt used

Freeable-pmm_free_page :
    (p : Pmm) (a : ℕ)
    → p.ready ≡ true
    → Freeable p a
    → pmm_free_page p a ≡ freed_at p (a / page_size)
unfolding pmm_free_page
Freeable-pmm_free_page p a ready h = ground arith

not-Freeable-pmm_free_page : (p : Pmm) (a : ℕ) → ¬ Freeable p a → pmm_free_page p a ≡ p
unfolding pmm_free_page
not-Freeable-pmm_free_page p a h = ground arith

Freeable-cases : (p : Pmm) (a : ℕ) → Freeable p a ⊎ (¬ Freeable p a)
Freeable-cases p a = ground arith

-- `pmm_free_page` takes back the frame of a page in range that is used, and counts it; a page out
-- of range, or free already, changes nothing.
pub pmm_free_page_lem :
    (p : Pmm) (a : ℕ)
    → IsValid p
    → p.ready ≡ true
    → (Freeable p a × Freed p (a / page_size) (pmm_free_page p a))
      ⊎ ((¬ Freeable p a) × (pmm_free_page p a ≡ p))
pmm_free_page_lem p a v ready = elim (Freeable-cases p a) [
  | inl h ↦
      inl (h, rw (Freeable-pmm_free_page p a ready h) (freed_at-Freed p (a / page_size) v h.0 h.1))
  | inr h ↦ inr (h, not-Freeable-pmm_free_page p a h)
]
