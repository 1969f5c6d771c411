-- ===== src/Mm/Bitmap.antt =====
-- kernel/mm/pmm/bitmap.c: one bit for each physical frame, set when the frame is used. The two
-- static variables are the fields of a record; the bytes at `addr` are a list.
use grace_os.Prelude.{
  ℕ, zero, suc, ◌+◌, ◌*◌, ◌/◌, ◌%◌, ◌^◌, ◌≤◌, ◌<◌, ◌≡◌, inl, inr, Bool, true, false, ◌&&◌, ◌||◌,
  not, List, [], ◌∷◌, arith, ℕ_discrete, ltb, ◌==◌, if◌then◌else◌, Bool-cases, length, set,
  length-set, get_or, replicate, length-replicate, get_or-set_self, get_or-set_ne, get_or-replicate,
}
use grace_os.Prelude.Bits.{
  test_bit, set_bit, clear_bit, test_bit-set_bit, test_bit-clear_bit, test_bit-ones, set_bit-lt,
  clear_bit-lt,
}

pub record Bitmap : Type 0 where
  pub bytes : List ℕ
  pub frames : ℕ

-- `(frames + 7) / 8`, in 64 bits.
abbrev pub bitmap_size : ℕ → ℕ
bitmap_size frame_count = (frame_count + 7) % 2 ^ 64 / 8

unfoldable pub bitmap_init : ℕ → Bitmap
bitmap_init frame_count = record {
  bytes = replicate (bitmap_size frame_count) 255;
  frames = frame_count;
}

unfoldable pub bitmap_set : Bitmap → ℕ → Bitmap
bitmap_set bm frame =
    if ltb frame bm.frames
    then record bm {
      bytes = set bm.bytes (frame / 8) (set_bit (get_or bm.bytes (frame / 8) 0) (frame % 8));
    }
    else bm

unfoldable pub bitmap_clear : Bitmap → ℕ → Bitmap
bitmap_clear bm frame =
    if ltb frame bm.frames
    then record bm {
      bytes = set bm.bytes (frame / 8) (clear_bit (get_or bm.bytes (frame / 8) 0) (frame % 8));
    }
    else bm

-- Out of range counts as used.
unfoldable pub bitmap_test : Bitmap → ℕ → Bool
bitmap_test bm frame =
    if ltb frame bm.frames then test_bit (get_or bm.bytes (frame / 8) 0) (frame % 8) else true

abbrev pub bitmap_get_total : Bitmap → ℕ
bitmap_get_total bm = bm.frames

abbrev pub bitmap_get_size : Bitmap → ℕ
bitmap_get_size bm = bitmap_size bm.frames

-- The storage holds a bit for each frame, and its cells are bytes.
pub record IsValid (bm : Bitmap) : Type 0 where
  pub room : bm.frames ≤ 8 * length bm.bytes
  pub is_byte : (k : ℕ) → get_or bm.bytes k 0 < 256

-- Every access of a frame in range is inside the storage.
pub access_in_bounds :
    (bm : Bitmap) (frame : ℕ) → IsValid bm → frame < bm.frames → frame / 8 < length bm.bytes
access_in_bounds bm frame v h = omega arith

replicate-is_byte : (n k : ℕ) → get_or (replicate n 255) k 0 < 256
replicate-is_byte zero k = omega arith
replicate-is_byte (suc n) zero = omega arith
replicate-is_byte (suc n) (suc k) = replicate-is_byte n k

pub bitmap_init-IsValid : (n : ℕ) → n + 7 < 2 ^ 64 → IsValid (bitmap_init n)
unfolding bitmap_init
bitmap_init-IsValid n h = record {
  room = omega (arith, length-replicate (bitmap_size n) (let x : ℕ = 255 in x));
  is_byte = replicate-is_byte (bitmap_size n);
}

-- After `bitmap_init` every frame is used.
pub bitmap_test-bitmap_init : (n g : ℕ) → n + 7 < 2 ^ 64 → bitmap_test (bitmap_init n) g ≡ true
unfolding bitmap_init bitmap_test
bitmap_test-bitmap_init n g h =
    ground (arith, get_or-replicate {A = ℕ} (bitmap_size n) 255 0 (g / 8), test_bit-ones (g % 8))

set-is_byte :
    (xs : List ℕ) (i v : ℕ)
    → v < 256
    → ((k : ℕ) → get_or xs k 0 < 256)
    → (k : ℕ) → get_or (set xs i v) k 0 < 256
set-is_byte [] i v h all k = all k
set-is_byte (x ∷ xs) zero v h all zero = h
set-is_byte (x ∷ xs) zero v h all (suc k) = all (suc k)
set-is_byte (x ∷ xs) (suc i) v h all zero = all zero
set-is_byte (x ∷ xs) (suc i) v h all (suc k) = set-is_byte xs i v h (λ j. all (suc j)) k

-- Writing a byte into the storage keeps the invariant.
write-IsValid :
    (bm : Bitmap) (k v : ℕ)
    → v < 256
    → IsValid bm
    → IsValid (record bm { bytes = set bm.bytes k v })
write-IsValid bm k v h w = record {
  room = omega (arith, length-set bm.bytes k v, w.room);
  is_byte = set-is_byte bm.bytes k v h w.is_byte;
}

pub bitmap_set-IsValid : (bm : Bitmap) (f : ℕ) → IsValid bm → IsValid (bitmap_set bm f)
unfolding bitmap_set
bitmap_set-IsValid bm f v = elim (Bool-cases (ltb f bm.frames)) [
  | inl e ↦ rw e (write-IsValid bm (f / 8) _ (set_bit-lt (get_or bm.bytes (f / 8) 0) (f % 8)) v)
  | inr e ↦ rw e v
]

pub bitmap_clear-IsValid : (bm : Bitmap) (f : ℕ) → IsValid bm → IsValid (bitmap_clear bm f)
unfolding bitmap_clear
bitmap_clear-IsValid bm f v = elim (Bool-cases (ltb f bm.frames)) [
  | inl e ↦ rw e (write-IsValid bm (f / 8) _ (clear_bit-lt (get_or bm.bytes (f / 8) 0) (f % 8)) v)
  | inr e ↦ rw e v
]

pub frames-bitmap_set : (bm : Bitmap) (f : ℕ) → (bitmap_set bm f).frames ≡ bm.frames
unfolding bitmap_set
frames-bitmap_set bm f = ground arith

pub frames-bitmap_clear : (bm : Bitmap) (f : ℕ) → (bitmap_clear bm f).frames ≡ bm.frames
unfolding bitmap_clear
frames-bitmap_clear bm f = ground arith

-- Setting a frame makes exactly that frame used.
pub bitmap_test-bitmap_set :
    (bm : Bitmap) (f g : ℕ)
    → IsValid bm
    → bitmap_test (bitmap_set bm f) g ≡ (f == g || bitmap_test bm g)
unfolding bitmap_set bitmap_test
bitmap_test-bitmap_set bm f g v = elim (ℕ_discrete (f / 8) (g / 8)) [
  | yes e ↦ ground (
    arith,
    get_or-set_self bm.bytes (f / 8) (set_bit (get_or bm.bytes (f / 8) 0) (f % 8)) 0,
    test_bit-set_bit (get_or bm.bytes (f / 8) 0) (f % 8) (g % 8) (v.is_byte (f / 8)),
  )
  | no ne ↦ ground (
    arith,
    get_or-set_ne bm.bytes (f / 8) (g / 8) (set_bit (get_or bm.bytes (f / 8) 0) (f % 8)) 0 ne,
  )
]

-- Clearing a frame in range makes exactly that frame free.
pub bitmap_test-bitmap_clear :
    (bm : Bitmap) (f g : ℕ)
    → IsValid bm
    → f < bm.frames
    → bitmap_test (bitmap_clear bm f) g ≡ (not (f == g) && bitmap_test bm g)
unfolding bitmap_clear bitmap_test
bitmap_test-bitmap_clear bm f g v h = elim (ℕ_discrete (f / 8) (g / 8)) [
  | yes e ↦ ground (
    arith,
    get_or-set_self bm.bytes (f / 8) (clear_bit (get_or bm.bytes (f / 8) 0) (f % 8)) 0,
    test_bit-clear_bit (get_or bm.bytes (f / 8) 0) (f % 8) (g % 8) (v.is_byte (f / 8)),
  )
  | no ne ↦ ground (
    arith,
    get_or-set_ne bm.bytes (f / 8) (g / 8) (clear_bit (get_or bm.bytes (f / 8) 0) (f % 8)) 0 ne,
  )
]

pub bitmap_test-range : (bm : Bitmap) (g : ℕ) → bitmap_test bm g ≡ false → g < bm.frames
unfolding bitmap_test
bitmap_test-range bm g h = ground arith
