-- ===== src/Mm/Tests.antt =====
-- Tests of the page allocator: a machine of 16 frames whose kernel ends in frame 1.
use grace_os.Prelude.{◌≡◌, refl, ◌≢◌, true, false, [], ◌∷◌, arith}
use grace_os.Prelude.Bits.{test_bit, set_bit, clear_bit}
use grace_os.Mm.Bitmap.{bitmap_init, bitmap_set, bitmap_clear, bitmap_test}
use grace_os.Mm.Pmm.{
  Pmm, mark_used, mark_free, use_frames, free_frames, take_first, pmm_init, pmm_alloc_page,
  pmm_free_page,
}
use grace_os.Mm.Pmm.Alloc.{Outcome, pmm_alloc_page_lem}
use grace_os.Mm.Pmm.History.{alloc, free, step, run, IsReady, step-IsReady, alloc_exclusive}
use grace_os.Mm.Pmm.Init.{IsMapped, pmm_init-frames, pmm_init_lem}
use grace_os.Mm.Kheap.{Heap}

abbrev off : Pmm
off = record {
  bitmap = record { bytes = []; frames = 0 };
  max_frames = 0;
  used_frames = 0;
  ready = false;
  kernel_reserved_end = 0;
}

-- Frames 2 and up are free.
abbrev booted : Pmm
booted = record {
  bitmap = record { bytes = 3 ∷ 0 ∷ []; frames = 16 };
  max_frames = 16;
  used_frames = 2;
  ready = true;
  kernel_reserved_end = 0x2000;
}

booted_lem : pmm_init off 0x9000 0x10000 0x1000 ≡ booted
unfolding pmm_init use_frames free_frames mark_used mark_free bitmap_init bitmap_set bitmap_clear
    bitmap_test test_bit set_bit clear_bit
booted_lem = refl

first_page : pmm_alloc_page 0 booted ≡ (
  0x2000,
  record booted { bitmap = record { bytes = 7 ∷ 0 ∷ []; frames = 16 }; used_frames = 3 },
)
unfolding pmm_alloc_page take_first bitmap_set bitmap_test test_bit set_bit
first_page = refl

pmm_init_lem_example :
    IsReady (pmm_init off 0x9000 0x10000 0x1000)
    × IsMapped 0x10000 0x1000 (pmm_init off 0x9000 0x10000 0x1000)
pmm_init_lem_example = pmm_init_lem off 0x9000 0x10000 0x1000 (omega arith) (omega arith)

start-IsReady : IsReady (pmm_init off 0x9000 0x10000 0x1000)
start-IsReady = (pmm_init-frames off 0x9000 0x10000 0x1000 (omega arith)).0

booted-IsReady : IsReady booted
booted-IsReady = rw booted_lem at start-IsReady

pmm_alloc_page_lem_example : Outcome booted 16 0 (pmm_alloc_page 0 booted)
pmm_alloc_page_lem_example = pmm_alloc_page_lem 0 booted booted-IsReady.valid refl

step-IsReady_example : IsReady (step booted (free 0x1000))
step-IsReady_example = step-IsReady booted (free 0x1000) booted-IsReady

alloc_exclusive_example :
    (pmm_alloc_page 0 (run (pmm_alloc_page 0 booted).1 (alloc 0 ∷ free 0x3000 ∷ []))).0
    ≢ (pmm_alloc_page 0 booted).0
unfolding run step pmm_alloc_page take_first pmm_free_page bitmap_set bitmap_clear bitmap_test
    test_bit set_bit clear_bit
alloc_exclusive_example =
    alloc_exclusive booted 0 0 (alloc 0 ∷ free 0x3000 ∷ []) booted-IsReady (omega arith)
      (omega arith) (omega arith)

-- A machine of 8 MB whose kernel ends at 1 MB.
large : Pmm
large = pmm_init off 0x9000 0x800000 0x100000

abbrev no_heap : Heap
no_heap = record {
  headers = λ p. record { magic = 0; free = 0; size = 0; next = 0; prev = 0 };
  footers = λ p. record { size = 0; magic = 0 };
  heap_start = 0;
  heap_base = 0;
  heap_limit = 0;
}
