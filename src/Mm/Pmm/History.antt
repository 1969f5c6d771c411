-- ===== src/Mm/Pmm/History.antt =====
-- kernel/mm/pmm/pmm.c: histories of calls of a ready allocator.
use grace_os.Prelude.{
  ℕ, zero, suc, ◌+◌, ◌-◌, ◌*◌, ◌/◌, ◌%◌, ◌^◌, ◌<◌, ◌≡◌, refl, ap, ◌∙◌, ◌≢◌, inl, inr, true, false,
  ◌&&◌, ◌||◌, List, [], ◌∷◌, arith, ltb, leb, ◌==◌, if◌then◌else◌, ==_self, ==_ne, Bool-cases,
}
use grace_os.Mm.Bitmap.{bitmap_test}
use grace_os.Mm.Pmm.{
  Pmm, page_size, mark_used, use_frames, pmm_alloc_page, pmm_alloc_page_low, pmm_free_page,
  pmm_reserve_range, pmm_total, pmm_free,
}
use grace_os.Mm.Pmm.Count.{count-le, count_all}
use grace_os.Mm.Pmm.Loops.{IsValid, use_frames-IsValid, test-use_frames, ready-mark_used}
use grace_os.Mm.Pmm.Alloc.{
  Used, Outcome, Allocated, low_frames, pmm_alloc_page_lem, pmm_alloc_page_low_lem,
  pmm_free_page_lem,
}

-- A call of the interface; the allocations carry the fallback's answer.
pub data Call : Type 0 where
  alloc : ℕ → Call
  alloc_low : ℕ → Call
  free : ℕ → Call
  reserve : ℕ → ℕ → Call

unfoldable pub step : Pmm → Call → Pmm
step p (alloc fallback) = (pmm_alloc_page fallback p).1
step p (alloc_low fallback) = (pmm_alloc_page_low fallback p).1
step p (free a) = pmm_free_page p a
step p (reserve start size) = pmm_reserve_range p start size

unfoldable pub run : Pmm → List Call → Pmm
run p [] = p
run p (c ∷ cs) = run (step p c) cs

-- What every call keeps of a ready allocator.
pub record IsReady (p : Pmm) : Type 0 where
  pub valid : IsValid p
  pub ready : p.ready ≡ true

-- The call does not free the frame `f`.
abbrev pub Spares : ℕ → Call → Type 0
Spares f (alloc a) = Unit {0}
Spares f (alloc_low a) = Unit {0}
Spares f (free a) = a / page_size ≢ f
Spares f (reserve start size) = Unit {0}

abbrev pub AllSpare : ℕ → List Call → Type 0
AllSpare f [] = Unit {0}
AllSpare f (c ∷ cs) = Spares f c × AllSpare f cs

ready-use_frames : (n i : ℕ) (p : Pmm) → (use_frames n i p).ready ≡ p.ready
unfolding use_frames
ready-use_frames zero i p = refl
ready-use_frames (suc n) i p = ready-use_frames n (i + 1) (mark_used p i) ∙ ready-mark_used p i

Outcome-Used :
    (p : Pmm) (n otherwise : ℕ) (r : ℕ × Pmm) (f : ℕ)
    → Outcome p n otherwise r
    → Used p f
    → Used r.1 f
Outcome-Used p n o r f (inl (g, first, done)) used = ground (arith, done.frames f)
Outcome-Used p n o r f (inr (all, e)) used = rw e used

Outcome-IsReady :
    (p : Pmm) (n otherwise : ℕ) (r : ℕ × Pmm) → Outcome p n otherwise r → IsReady p → IsReady r.1
Outcome-IsReady p n o r (inl (g, first, done)) v = record {
  valid = done.valid;
  ready = done.ready ∙ v.ready;
}
Outcome-IsReady p n o r (inr (all, e)) v = rw e v

-- The frames of `pmm_reserve_range`.
ready-pmm_reserve_range :
    (p : Pmm) (start size : ℕ)
    → p.ready ≡ true
    → pmm_reserve_range p start size ≡ (
        if size == 0
        then p
        else use_frames ((start + size + 4096 - 1) % 2 ^ 64 / 4096 - start / 4096) (start / 4096) p)
unfolding pmm_reserve_range
ready-pmm_reserve_range p start size h = ground arith

pmm_reserve_range-IsReady :
    (p : Pmm) (start size : ℕ) → IsReady p → IsReady (pmm_reserve_range p start size)
pmm_reserve_range-IsReady p start size v =
    rw (ready-pmm_reserve_range p start size v.ready) (elim (Bool-cases (size == 0)) [
      | inl e ↦ rw e v
      | inr e ↦ rw e (record {
        valid = use_frames-IsValid _ _ p v.valid;
        ready = ready-use_frames _ _ p ∙ v.ready;
      })
    ])

pmm_reserve_range-Used :
    (p : Pmm) (start size f : ℕ) → IsReady p → Used p f → Used (pmm_reserve_range p start size) f
pmm_reserve_range-Used p start size f v used =
    rw (ready-pmm_reserve_range p start size v.ready) (elim (Bool-cases (size == 0)) [
      | inl e ↦ rw e used
      | inr e ↦ rw e (rw (test-use_frames _ _ p f v.valid, used) (ground arith))
    ])

-- On a ready allocator, reserving a range that does not wrap makes exactly its pages used.
pub pmm_reserve_range_lem :
    (p : Pmm) (start size g : ℕ)
    → IsReady p
    → 0 < size
    → start + size + 4095 < 2 ^ 64
    → bitmap_test (pmm_reserve_range p start size).bitmap g
      ≡ (leb (start / 4096) g && ltb (g * 4096) (start + size) || bitmap_test p.bitmap g)
pmm_reserve_range_lem p start size g v pos fits =
    rw (ready-pmm_reserve_range p start size v.ready, ==_ne size 0 (omega arith))
      (rw (test-use_frames _ _ p g v.valid) (ground arith))

free-IsReady : (p : Pmm) (a : ℕ) → IsReady p → IsReady (pmm_free_page p a)
free-IsReady p a v = elim (pmm_free_page_lem p a v.valid v.ready) [
  | inl (h, done) ↦ record { valid = done.valid; ready = done.ready ∙ v.ready }
  | inr (h, e) ↦ rw e v
]

free-Used :
    (p : Pmm) (a f : ℕ) → IsReady p → a / page_size ≢ f → Used p f → Used (pmm_free_page p a) f
free-Used p a f v ne used = elim (pmm_free_page_lem p a v.valid v.ready) [
  | inl (h, done) ↦ ground (arith, done.frames f)
  | inr (h, e) ↦ rw e used
]

-- Every call keeps the invariant of a ready allocator: the counter stays the number of used frames.
pub step-IsReady : (p : Pmm) (c : Call) → IsReady p → IsReady (step p c)
unfolding step
step-IsReady p (alloc a) v =
    Outcome-IsReady p p.max_frames a _ (pmm_alloc_page_lem a p v.valid v.ready) v
step-IsReady p (alloc_low a) v =
    Outcome-IsReady p (low_frames p) 0 _ (pmm_alloc_page_low_lem a p v.valid v.ready) v
step-IsReady p (free a) v = free-IsReady p a v
step-IsReady p (reserve start size) v = pmm_reserve_range-IsReady p start size v

pub run-IsReady : (cs : List Call) (p : Pmm) → IsReady p → IsReady (run p cs)
unfolding run
run-IsReady [] p v = v
run-IsReady (c ∷ cs) p v = run-IsReady cs (step p c) (step-IsReady p c v)

-- Only a free of the frame itself makes a used frame free.
step-Used : (p : Pmm) (c : Call) (f : ℕ) → IsReady p → Spares f c → Used p f → Used (step p c) f
unfolding step
step-Used p (alloc a) f v s used =
    Outcome-Used p p.max_frames a _ f (pmm_alloc_page_lem a p v.valid v.ready) used
step-Used p (alloc_low a) f v s used =
    Outcome-Used p (low_frames p) 0 _ f (pmm_alloc_page_low_lem a p v.valid v.ready) used
step-Used p (free a) f v s used = free-Used p a f v s used
step-Used p (reserve start size) f v s used = pmm_reserve_range-Used p start size f v used

pub run-Used :
    (cs : List Call) (p : Pmm) (f : ℕ) → IsReady p → AllSpare f cs → Used p f → Used (run p cs) f
unfolding run
run-Used [] p f v s used = used
run-Used (c ∷ cs) p f v s used =
    run-Used cs (step p c) f (step-IsReady p c v) s.1 (step-Used p c f v s.0 used)

-- While a frame is free, an allocation takes one.
pub some_free-Allocated :
    (fallback : ℕ) (p : Pmm)
    → IsReady p
    → p.used_frames < p.max_frames
    → (f : ℕ) × (bitmap_test p.bitmap f ≡ false)
      × Allocated p f (pmm_alloc_page fallback p).0 (pmm_alloc_page fallback p).1
some_free-Allocated fallback p v h = elim (pmm_alloc_page_lem fallback p v.valid v.ready) [
  | inl (f, first, done) ↦ (f, first.free, done)
  | inr (all, e) ↦
      absurd (omega (arith, count_all p.max_frames (bitmap_test p.bitmap) all, v.valid.counted))
]

-- On a ready and consistent allocator, a page handed out is not handed out again, whatever calls
-- follow, until one frees its frame: as long as some frame is free both times, the two pages differ.
pub alloc_exclusive :
    (p : Pmm) (fallback fallback' : ℕ) (cs : List Call)
    → IsReady p
    → p.used_frames < p.max_frames
    → AllSpare ((pmm_alloc_page fallback p).0 / page_size) cs
    → (run (pmm_alloc_page fallback p).1 cs).used_frames
      < (run (pmm_alloc_page fallback p).1 cs).max_frames
    → (pmm_alloc_page fallback' (run (pmm_alloc_page fallback p).1 cs)).0
      ≢ (pmm_alloc_page fallback p).0
alloc_exclusive p fb fb' cs v some_free spare some_left same =
    let q = run (pmm_alloc_page fb p).1 cs in
    let (f, was_free, done) = some_free-Allocated fb p v some_free in
    let w : IsReady (pmm_alloc_page fb p).1 = record {
      valid = done.valid;
      ready = done.ready ∙ v.ready;
    } in
    let a_frame : (pmm_alloc_page fb p).0 / page_size ≡ f = omega (arith, done.address) in
    let taken : Used (pmm_alloc_page fb p).1 f = rw (done.frames f, ==_self f) refl in
    let kept : Used q f = run-Used cs _ f w (rw a_frame at spare) taken in
    let (g, is_free, again) = some_free-Allocated fb' q (run-IsReady cs _ w) some_left in
    let g_ne_f : g ≢ f = λ e. cc (kept, ap (bitmap_test q.bitmap) e, is_free) in
    g_ne_f (omega (arith, same, again.address, done.address))

-- Used and free memory make up the whole.
pub pmm_free-add-used : (p : Pmm) → IsValid p → pmm_free p + p.used_frames * page_size ≡ pmm_total p
unfolding pmm_free pmm_total
pmm_free-add-used p v =
    omega (arith, v.counted, v.limit, count-le p.max_frames (bitmap_test p.bitmap))
