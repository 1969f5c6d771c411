-- ===== src/Mm/Kheap/History.antt =====
-- kernel/mm/kheap.c: the heap stays in order over any history of calls.
use grace_os.Prelude.{ℕ, ◌+◌, ◌-◌, ◌≡◌, ◌⊎◌, false, Option, none, some, List}
use grace_os.Mm.Kheap.{Heap, header_size, block_valid, kmalloc, kfree}
use grace_os.Mm.Kheap.Cells.{Cell, IsHeap}
use grace_os.Mm.Kheap.Free.{block_at}

-- The pointers that may be given to `kfree`: NULL, one without a valid header in front of it, and the
-- payload of a block, in use or freed before. What is left out is a pointer in front of which stand
-- bytes that pass for a header, while no block begins there.
abbrev pub CanBeFreed : Heap → ℕ → Type 0
CanBeFreed h r =
    (r ≡ 0)
    ⊎ (block_valid h (r - header_size) ≡ false)
    ⊎ ((cs : List Cell)
        → IsHeap h cs
        → (p : ℕ) × (d : Cell) × (r ≡ p + header_size) × (block_at p h.heap_base cs ≡ some d))

-- The heaps that calls lead to.
pub data Reached (start : Heap) : Heap → Type 0 where
  begin : Reached start start
  allocated :
      {h0 h : Heap} (size r : ℕ)
      → Reached start h0
      → kmalloc size h0 ≡ some (r, h)
      → Reached start h
  released : {h0 : Heap} (r : ℕ) → Reached start h0 → CanBeFreed h0 r → Reached start (kfree r h0)

abbrev heap_of : Heap → Option (ℕ × Heap) → Heap
heap_of h none = h
heap_of h (some (r, h')) = h'
