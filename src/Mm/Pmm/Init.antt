-- ===== src/Mm/Pmm/Init.antt =====
-- kernel/mm/pmm/pmm.c: what `pmm_init` sets up.
use grace_os.Prelude.{
  ℕ, zero, suc, ◌+◌, ◌-◌, ◌*◌, ◌/◌, ◌%◌, ◌^◌, ◌≤◌, ◌<◌, min, ◌≡◌, refl, sym, ◌∙◌, ◌≢◌, ◌↔◌, ◌⊎◌,
  inl, inr, Bool, true, false, ◌&&◌, ◌||◌, not, arith, dec_lt, ℕ_discrete, ltb, leb, le→ltb,
}
use grace_os.Mm.Bitmap.{bitmap_init, bitmap_test, bitmap_init-IsValid, bitmap_test-bitmap_init}
use grace_os.Mm.Pmm.{
  Pmm, page_size, usable_memory, kernel_end_frame, mark_used, mark_free, use_frames, free_frames,
  pmm_init,
}
use grace_os.Mm.Pmm.History.{IsReady}
use grace_os.Mm.Pmm.Count.{count_all}
use grace_os.Mm.Pmm.Loops.{
  IsValid, use_frames-IsValid, free_frames-IsValid, test-use_frames, test-free_frames,
  max_frames-use_frames, max_frames-free_frames,
}

pub usable_memory-le : (total : ℕ) → usable_memory total ≤ 2 ^ 36
usable_memory-le total = ground arith

-- The state before the two loops: all frames are used.
abbrev initial : ℕ → Bool → ℕ → Pmm
initial frames r e = record {
  bitmap = bitmap_init frames;
  max_frames = frames;
  used_frames = frames;
  ready = r;
  kernel_reserved_end = e;
}

frames-bitmap_init : (n : ℕ) → (bitmap_init n).frames ≡ n
unfolding bitmap_init
frames-bitmap_init n = refl

initial-IsValid : (n : ℕ) (r : Bool) (e : ℕ) → n ≤ 2 ^ 24 → IsValid (initial n r e)
initial-IsValid n r e h = record {
  bits = bitmap_init-IsValid n (omega arith);
  same_frames = frames-bitmap_init n;
  limit = h;
  counted = sym (
      count_all n (bitmap_test (bitmap_init n))
        (λ g lt. bitmap_test-bitmap_init n g (omega arith)));
}

-- The two loops of `pmm_init` over a fresh state.
abbrev marked : ℕ → ℕ → Pmm → Pmm
marked frames first p = use_frames first 0 (free_frames (frames - first) first p)

-- No frames, no change.
free_frames-zero : (k i : ℕ) (p : Pmm) → k ≡ 0 → free_frames k i p ≡ p
unfolding free_frames
free_frames-zero zero i p e = refl
free_frames-zero (suc k) i p e = absurd (omega arith)

module _ (n first : ℕ) (p : Pmm) (same : p.max_frames ≡ n) (v : IsValid p) where
  freed-IsValid : IsValid (free_frames (n - first) first p)
  freed-IsValid = elim (dec_lt first n) [
    | yes h ↦ free_frames-IsValid (n - first) first p (omega arith) v
    | no h ↦ rw (free_frames-zero (n - first) first p (omega arith)) v
  ]

  test-freed :
      (g : ℕ)
      → bitmap_test (free_frames (n - first) first p).bitmap g
        ≡ (not (leb first g && ltb g n) && bitmap_test p.bitmap g)
  test-freed g = elim (dec_lt first n) [
    | yes h ↦ rw (test-free_frames (n - first) first p g (omega arith) v) (ground arith)
    | no h ↦ rw (free_frames-zero (n - first) first p (omega arith)) (ground arith)
  ]

  marked-IsValid : IsValid (marked n first p)
  marked-IsValid = use_frames-IsValid first 0 _ freed-IsValid

  test-marked :
      (g : ℕ)
      → bitmap_test (marked n first p).bitmap g
        ≡ (ltb g first || (not (leb first g && ltb g n) && bitmap_test p.bitmap g))
  test-marked g = rw (test-use_frames first 0 _ g freed-IsValid, test-freed g) (ground arith)

  max_frames-marked : (marked n first p).max_frames ≡ n
  max_frames-marked =
      max_frames-use_frames first 0 _ ∙ (max_frames-free_frames (n - first) first p ∙ same)

-- The state that `pmm_init` leaves, for a valid boot information address.
init-marked :
    (p : Pmm) (mb_addr total end_addr : ℕ)
    → 0x1000 ≤ mb_addr
    → let frames = usable_memory total / page_size in
      let first = kernel_end_frame end_addr frames in
      pmm_init p mb_addr total end_addr
      ≡ record (marked frames first (initial frames p.ready (first * page_size % 2 ^ 64))) {
        ready = true;
      }
unfolding pmm_init
init-marked p mb_addr total end_addr h = rw (le→ltb mb_addr 0x1000 h) refl

reserved-use_frames :
    (n i : ℕ) (p : Pmm) → (use_frames n i p).kernel_reserved_end ≡ p.kernel_reserved_end
unfolding use_frames mark_used
reserved-use_frames zero i p = refl
reserved-use_frames (suc n) i p = reserved-use_frames n (i + 1) (mark_used p i) ∙ ground arith

reserved-free_frames :
    (n i : ℕ) (p : Pmm) → (free_frames n i p).kernel_reserved_end ≡ p.kernel_reserved_end
unfolding free_frames mark_free
reserved-free_frames zero i p = refl
reserved-free_frames (suc n) i p = reserved-free_frames n (i + 1) (mark_free p i) ∙ ground arith

-- In terms of the first free frame.
pub pmm_init-frames :
    (p : Pmm) (mb_addr total end_addr : ℕ)
    → 0x1000 ≤ mb_addr
    → let frames = usable_memory total / page_size in
      let first = kernel_end_frame end_addr frames in
      let q = pmm_init p mb_addr total end_addr in
      IsReady q
      × (q.max_frames ≡ frames)
      × (q.kernel_reserved_end ≡ first * page_size % 2 ^ 64)
      × ((g : ℕ) → bitmap_test q.bitmap g ≡ (ltb g first || not (ltb g frames)))
pmm_init-frames p mb_addr total end_addr h = rw (init-marked p mb_addr total end_addr h) (
  record {
    valid =
        let m = marked-IsValid n first start refl ok in
        record { bits = m.bits; same_frames = m.same_frames; limit = m.limit; counted = m.counted };
    ready = refl;
  },
  max_frames-marked n first start refl ok,
  reserved-use_frames first 0 _ ∙ reserved-free_frames (n - first) first start,
  λ g.
      rw
        (
          test-marked n first start refl ok g,
          bitmap_test-bitmap_init n g (omega (arith, usable_memory-le total)),
        )
        (ground arith),
)
  where
    n : ℕ
    n = usable_memory total / page_size

    first : ℕ
    first = kernel_end_frame end_addr n

    start : Pmm
    start = initial n p.ready (first * page_size % 2 ^ 64)

    small : n ≤ 2 ^ 24
    small = omega (arith, usable_memory-le total)

    ok : IsValid start
    ok = initial-IsValid n p.ready (first * page_size % 2 ^ 64) small

-- The memory that is managed: all that is reported up to 64 GB, and 128 MB if nothing is reported.
abbrev pub IsManaged : ℕ → ℕ → Type 0
IsManaged total mem =
    ((total ≡ 0) × (mem ≡ 128 * 2 ^ 20)) ⊎ ((total ≢ 0) × (mem ≡ min total (64 * 2 ^ 30)))

-- The memory map after the boot: the bitmap stands behind the kernel's end on 16 bytes, with a bit for
-- every frame; the reservation ends with the page in which the bitmap ends; free are exactly the frames
-- of the memory that lie behind the bitmap.
pub record IsMapped (total end_addr : ℕ) (q : Pmm) : Type 0 where
  pub memory : ℕ
  pub managed : IsManaged total memory
  pub frames : (q.max_frames * 4096 ≤ memory) × (memory < q.max_frames * 4096 + 4096)
  pub area : ℕ
  pub behind_end : (end_addr ≤ area) × (area < end_addr + 16) × (area % 16 ≡ 0)
  pub bytes : ℕ
  pub bits : (q.max_frames ≤ 8 * bytes) × (8 * bytes < q.max_frames + 8)
  pub reserved :
      (area + bytes ≤ q.kernel_reserved_end)
      × (q.kernel_reserved_end < area + bytes + 4096)
      × (q.kernel_reserved_end % 4096 ≡ 0)
  pub free :
      (g : ℕ) → (bitmap_test q.bitmap g ≡ false) ↔ ((area + bytes ≤ g * 4096) × (g < q.max_frames))

usable_memory-IsManaged : (total : ℕ) → IsManaged total (usable_memory total)
usable_memory-IsManaged total = elim (ℕ_discrete total 0) [
  | yes none_told ↦ inl (none_told, ground (arith, none_told))
  | no told ↦ inr (told, ground (arith, told))
]

-- Where nothing wraps.
end_frame_lem :
    (end_addr frames : ℕ)
    → end_addr < 2 ^ 48
    → frames ≤ 2 ^ 24
    → kernel_end_frame end_addr frames
      ≡ ((end_addr + 15) / 16 * 16 + (frames + 7) / 8 + 4095) / 4096
end_frame_lem end_addr frames low few = omega (arith, low, few)

-- With a boot information address, and the kernel's end below 2^48, `pmm_init` leaves a ready and
-- consistent allocator. It manages the reported memory up to 64 GB, or 128 MB if none is reported, in
-- which exactly the frames behind the bitmap are free; the bitmap has a bit for every frame and stands
-- behind the kernel's end on 16 bytes, and the reservation ends with the page in which the bitmap ends.
pub pmm_init_lem :
    (p : Pmm) (mb_addr total end_addr : ℕ)
    → 0x1000 ≤ mb_addr
    → end_addr < 2 ^ 48
    → IsReady (pmm_init p mb_addr total end_addr)
      × IsMapped total end_addr (pmm_init p mb_addr total end_addr)
pmm_init_lem p mb_addr total end_addr h low =
    let n = usable_memory total / page_size in
    let few : n ≤ 2 ^ 24 = omega (arith, usable_memory-le total) in
    let q = pmm_init p mb_addr total end_addr in
    let first = kernel_end_frame end_addr n in
    let e = end_frame_lem end_addr n low few in
    let (ready, max, end, free) = pmm_init-frames p mb_addr total end_addr h in
    (
      ready,
      record {
        memory = usable_memory total;
        managed = usable_memory-IsManaged total;
        frames = (omega (arith, max), omega (arith, max));
        area = (end_addr + 15) / 16 * 16;
        behind_end = (omega arith, omega arith, omega arith);
        bytes = (n + 7) / 8;
        bits = (omega (arith, max), omega (arith, max));
        reserved = (
          omega (arith, end, e, low, few),
          omega (arith, end, e, low, few),
          omega (arith, end, e, low, few),
        );
        free = λ g. (
          λ f.
              let b : (ltb g first || not (ltb g n)) ≡ false = sym (free g) ∙ f in
              let ge : first ≤ g = ground (arith, b) in
              let lt : g < n = ground (arith, b) in (omega (arith, e, ge), omega (arith, lt, max)),
          λ r.
              let ge : first ≤ g = omega (arith, e, r.0) in
              let lt : g < n = omega (arith, max, r.1) in free g ∙ ground (arith, ge, lt),
        );
      },
    )
