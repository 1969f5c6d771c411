-- ===== src/Mm/Kheap/Boot.antt =====
-- kernel/mm/kheap.c: `kheap_init` and the page allocator.
use grace_os.Prelude.{ℕ, ◌+◌, ◌-◌, ◌*◌, ◌%◌, ◌^◌, ◌≤◌, ◌<◌, ◌≡◌, ◌⊎◌, true, [], ◌∷◌}
use grace_os.Mm.Bitmap.{bitmap_test}
use grace_os.Mm.Pmm.{Pmm, page_size, pmm_total}
use grace_os.Mm.Pmm.History.{IsReady}
use grace_os.Mm.Kheap.{Heap, kheap_magic, raw_start, raw_size, with_header, with_footer}
use grace_os.Mm.Kheap.Trip.{InOrder}

-- The start and the limit of the region.
abbrev first_byte : Pmm → ℕ
first_byte p = raw_start p.kernel_reserved_end

abbrev last_byte : Pmm → ℕ
last_byte p = first_byte p + raw_size (first_byte p) (pmm_total p)

-- The kernel's end is on a page and not at the end of the address space.
abbrev pub IsPlaced : Pmm → Type 0
IsPlaced p = (p.kernel_reserved_end % page_size ≡ 0) × (p.kernel_reserved_end < 2 ^ 48)

-- The heap that `kheap_init` sets up between two bounds.
abbrev fresh : Heap → ℕ → ℕ → Heap
fresh h base limit =
    with_footer
      (with_header (record h { heap_start = base; heap_base = base; heap_limit = limit }) base
        (λ b. record { magic = kheap_magic; free = 1; size = limit - base; next = 0; prev = 0 }))
      base

-- The heap begins at 4 MB, or at the end of the kernel and the bitmap if that is higher.
abbrev pub IsStart : Pmm → ℕ → Type 0
IsStart p base =
    (0x400000 ≤ base)
    × (p.kernel_reserved_end ≤ base)
    × ((base ≡ 0x400000) ⊎ (base ≡ p.kernel_reserved_end))

-- It has 32 MB, or less, up to the end of the memory. No memory reported counts as enough.
abbrev pub IsEnd : ℕ → ℕ → ℕ → Type 0
IsEnd mem base limit =
    ((limit ≡ base + 32 * 2 ^ 20) × ((mem ≡ 0) ⊎ (limit ≤ mem)))
    ⊎ ((limit ≡ mem) × (base < limit) × (limit < base + 32 * 2 ^ 20))

-- The memory that the page allocator manages.
abbrev pub managed : Pmm → ℕ
managed p = p.max_frames * 4096

-- What the boot leaves: no heap, since the memory ends at or below the place where it would begin; or
-- one free block at its place, whose pages the page allocator does not hand out, the others being as
-- they were.
abbrev pub Booted : Heap → Pmm → Heap × Pmm → Type 0
Booted h p (h', p') =
    ((h'.heap_start ≡ h.heap_start)
      × (p' ≡ p)
      × IsStart p h'.heap_base
      × (0 < managed p)
      × (managed p ≤ h'.heap_base))
    ⊎ (InOrder h' (record { size = h'.heap_limit - h'.heap_base; free = true } ∷ [])
        × IsStart p h'.heap_base
        × IsEnd (managed p) h'.heap_base h'.heap_limit
        × IsReady p'
        × ((g : ℕ)
            → h'.heap_base ≤ g * 4096
            → g * 4096 < h'.heap_limit
            → bitmap_test p'.bitmap g ≡ true)
        × ((g : ℕ)
            → (g * 4096 < h'.heap_base) ⊎ (h'.heap_limit ≤ g * 4096)
            → bitmap_test p'.bitmap g ≡ bitmap_test p.bitmap g))

-- The end of the region, when the start and the memory are whole pages.
abbrev Region : ℕ → ℕ → ℕ → Type 0
Region mem base limit = IsEnd mem base limit ⊎ ((limit ≡ base) × (0 < mem) × (mem ≤ base))
