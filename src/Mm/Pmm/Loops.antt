-- ===== src/Mm/Pmm/Loops.antt =====
-- kernel/mm/pmm/pmm.c: the invariant of the allocator, kept by the single steps and by the loops
-- that mark frames.
use grace_os.Prelude.{
  ℕ, zero, suc, ◌+◌, ◌^◌, ◌≤◌, ◌<◌, ◌≡◌, refl, sym, ◌∙◌, inl, inr, true, false, ◌&&◌, ◌||◌, not,
  arith, ltb, leb, ◌==◌, ==_iff, ==_self, ==_ne, Bool-cases, inc64, dec64,
}
use grace_os.Mm.Bitmap
use grace_os.Mm.Bitmap.{
  Bitmap, bitmap_set, bitmap_clear, bitmap_test, bitmap_set-IsValid, bitmap_clear-IsValid,
  frames-bitmap_set, frames-bitmap_clear, bitmap_test-bitmap_set, bitmap_test-bitmap_clear,
  bitmap_test-range,
}
use grace_os.Mm.Pmm.{Pmm, mark_used, mark_free, use_frames, free_frames}
use grace_os.Mm.Pmm.Count.{count, count-le, count_flip}

-- `used_frames` is the number of used frames; at most 2^24 frames make up 64 GB.
pub record IsValid (p : Pmm) : Type 0 where
  pub bits : Bitmap.IsValid p.bitmap
  pub same_frames : p.bitmap.frames ≡ p.max_frames
  pub limit : p.max_frames ≤ 2 ^ 24
  pub counted : p.used_frames ≡ count p.max_frames (bitmap_test p.bitmap)

-- The state with frame `i` set, or cleared, and counted.
abbrev pub used_at : Pmm → ℕ → Pmm
used_at p i = record p { bitmap = bitmap_set p.bitmap i; used_frames = inc64 p.used_frames }

abbrev pub freed_at : Pmm → ℕ → Pmm
freed_at p i = record p { bitmap = bitmap_clear p.bitmap i; used_frames = dec64 p.used_frames }

module _ (p : Pmm) (i : ℕ) (v : IsValid p) where
  count-bitmap_set :
      bitmap_test p.bitmap i ≡ false
      → count p.max_frames (bitmap_test (bitmap_set p.bitmap i))
        ≡ count p.max_frames (bitmap_test p.bitmap) + 1
  count-bitmap_set free =
      count_flip p.max_frames i (bitmap_test p.bitmap) (bitmap_test (bitmap_set p.bitmap i))
        (omega (arith, bitmap_test-range p.bitmap i free, v.same_frames)) free
        (rw (bitmap_test-bitmap_set p.bitmap i i v.bits, ==_self i))
        (λ g ne. rw (bitmap_test-bitmap_set p.bitmap i g v.bits, ==_ne i g ne))

  count-bitmap_clear :
      bitmap_test p.bitmap i ≡ true
      → i < p.max_frames
      → count p.max_frames (bitmap_test p.bitmap)
        ≡ count p.max_frames (bitmap_test (bitmap_clear p.bitmap i)) + 1
  count-bitmap_clear used lt =
      count_flip p.max_frames i (bitmap_test (bitmap_clear p.bitmap i)) (bitmap_test p.bitmap) lt
        (rw
          (bitmap_test-bitmap_clear p.bitmap i i v.bits (omega (arith, v.same_frames)), ==_self i))
        used
        (λ g ne. sym (
          rw
            (
              bitmap_test-bitmap_clear p.bitmap i g v.bits (omega (arith, v.same_frames)),
              ==_ne i g ne,
            )
            refl))

  pub used_at-IsValid : bitmap_test p.bitmap i ≡ false → IsValid (used_at p i)
  used_at-IsValid free = record {
    bits = bitmap_set-IsValid p.bitmap i v.bits;
    same_frames = frames-bitmap_set p.bitmap i ∙ v.same_frames;
    limit = v.limit;
    counted = omega (
      arith,
      count-bitmap_set free,
      v.counted,
      v.limit,
      count-le p.max_frames (bitmap_test p.bitmap),
    );
  }

  pub freed_at-IsValid : bitmap_test p.bitmap i ≡ true → i < p.max_frames → IsValid (freed_at p i)
  freed_at-IsValid used lt = record {
    bits = bitmap_clear-IsValid p.bitmap i v.bits;
    same_frames = frames-bitmap_clear p.bitmap i ∙ v.same_frames;
    limit = v.limit;
    counted = omega (
      arith,
      count-bitmap_clear used lt,
      v.counted,
      v.limit,
      count-le p.max_frames (bitmap_test p.bitmap),
    );
  }

  pub mark_used-IsValid : IsValid (mark_used p i)
  unfolding mark_used
  mark_used-IsValid = elim (Bool-cases (bitmap_test p.bitmap i)) [
    | inl e ↦ rw e v
    | inr e ↦ rw e (used_at-IsValid e)
  ]

  pub mark_free-IsValid : i < p.max_frames → IsValid (mark_free p i)
  unfolding mark_free
  mark_free-IsValid lt = elim (Bool-cases (bitmap_test p.bitmap i)) [
    | inl e ↦ rw e (freed_at-IsValid e lt)
    | inr e ↦ rw e v
  ]

  -- Afterwards exactly the frame `i` has joined the used ones.
  pub test-mark_used :
      (g : ℕ) → bitmap_test (mark_used p i).bitmap g ≡ (i == g || bitmap_test p.bitmap g)
  unfolding mark_used
  test-mark_used g = ground (arith, bitmap_test-bitmap_set p.bitmap i g v.bits, ==_iff i g)

  pub test-mark_free :
      (g : ℕ)
      → i < p.max_frames
      → bitmap_test (mark_free p i).bitmap g ≡ (not (i == g) && bitmap_test p.bitmap g)
  unfolding mark_free
  test-mark_free g lt = ground (arith, bitmap_test-bitmap_clear p.bitmap i g v.bits, v.same_frames)

pub max_frames-mark_used : (p : Pmm) (i : ℕ) → (mark_used p i).max_frames ≡ p.max_frames
unfolding mark_used
max_frames-mark_used p i = ground arith

pub ready-mark_used : (p : Pmm) (i : ℕ) → (mark_used p i).ready ≡ p.ready
unfolding mark_used
ready-mark_used p i = ground arith

pub max_frames-mark_free : (p : Pmm) (i : ℕ) → (mark_free p i).max_frames ≡ p.max_frames
unfolding mark_free
max_frames-mark_free p i = ground arith

pub max_frames-use_frames : (n i : ℕ) (p : Pmm) → (use_frames n i p).max_frames ≡ p.max_frames
unfolding use_frames
max_frames-use_frames zero i p = refl
max_frames-use_frames (suc n) i p =
    max_frames-use_frames n (i + 1) (mark_used p i) ∙ max_frames-mark_used p i

pub max_frames-free_frames : (n i : ℕ) (p : Pmm) → (free_frames n i p).max_frames ≡ p.max_frames
unfolding free_frames
max_frames-free_frames zero i p = refl
max_frames-free_frames (suc n) i p =
    max_frames-free_frames n (i + 1) (mark_free p i) ∙ max_frames-mark_free p i

pub use_frames-IsValid : (n i : ℕ) (p : Pmm) → IsValid p → IsValid (use_frames n i p)
unfolding use_frames
use_frames-IsValid zero i p v = v
use_frames-IsValid (suc n) i p v =
    use_frames-IsValid n (i + 1) (mark_used p i) (mark_used-IsValid p i v)

pub free_frames-IsValid :
    (n i : ℕ) (p : Pmm) → i + n ≤ p.max_frames → IsValid p → IsValid (free_frames n i p)
unfolding free_frames
free_frames-IsValid zero i p h v = v
free_frames-IsValid (suc n) i p h v =
    free_frames-IsValid n (i + 1) (mark_free p i) (omega (arith, max_frames-mark_free p i))
      (mark_free-IsValid p i v (omega arith))

-- The frames that the loops leave used: those of the range too, or those of the range no longer.
pub test-use_frames :
    (n i : ℕ) (p : Pmm) (g : ℕ)
    → IsValid p
    → bitmap_test (use_frames n i p).bitmap g ≡ (leb i g && ltb g (i + n) || bitmap_test p.bitmap g)
unfolding use_frames
test-use_frames zero i p g v = ground arith
test-use_frames (suc n) i p g v = ground (
  arith,
  test-use_frames n (i + 1) (mark_used p i) g (mark_used-IsValid p i v),
  test-mark_used p i v g,
)

pub test-free_frames :
    (n i : ℕ) (p : Pmm) (g : ℕ)
    → i + n ≤ p.max_frames
    → IsValid p
    → bitmap_test (free_frames n i p).bitmap g
      ≡ (not (leb i g && ltb g (i + n)) && bitmap_test p.bitmap g)
unfolding free_frames
test-free_frames zero i p g h v = ground arith
test-free_frames (suc n) i p g h v = ground (
  arith,
  test-free_frames n (i + 1) (mark_free p i) g (omega (arith, max_frames-mark_free p i))
      (mark_free-IsValid p i v (omega arith)),
  test-mark_free p i v g,
)
