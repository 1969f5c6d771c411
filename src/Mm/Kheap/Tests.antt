-- ===== src/Mm/Kheap/Tests.antt =====
-- Runs of kernel/mm/kheap.c on a heap of 4096 bytes at 4096: a block in use of 96 bytes, a free one
-- of 160, and one in use up to the end.
use grace_os.Prelude.{
  ℕ, ◌+◌, ◌%◌, ◌≤◌, ◌≡◌, refl, ◌⊎◌, Bool, true, false, some, List, [], ◌∷◌, arith, ◌==◌,
  if◌then◌else◌,
}
use grace_os.Mm.Kheap.{
  Header, Footer, Heap, kheap_magic, header_size, footer_size, needed_for, take_block, search_from,
  block_valid, kmalloc, kfree,
}
use grace_os.Mm.Kheap.Cells.{Cell, IsHeap}
use grace_os.Mm.Kheap.Malloc.{alloc_cells, Answer, kmalloc_lem}
use grace_os.Mm.Kheap.Free.{block_at}
use grace_os.Mm.Kheap.Trip.{InOrder, kfree-kmalloc, kmalloc_exclusive}

abbrev block : ℕ → ℕ → ℕ → ℕ → Header
block free size next prev = record {
  magic = kheap_magic;
  free = free;
  size = size;
  next = next;
  prev = prev;
}

abbrev blocks : ℕ → Header
blocks a =
    if a == 4096
    then block 0 96 4192 0
    else if a == 4192
    then block 1 160 4352 4096
    else if a == 4352
    then block 0 3840 0 4192
    else block 0 0 0 0

abbrev ends : ℕ → Footer
ends a =
    if a == 4176
    then record { size = 96; magic = kheap_magic }
    else if a == 4336
    then record { size = 160; magic = kheap_magic }
    else if a == 8176
    then record { size = 3840; magic = kheap_magic }
    else record { size = 0; magic = 0 }

abbrev small_heap : Heap
small_heap = record {
  headers = blocks;
  footers = ends;
  heap_start = 4096;
  heap_base = 4096;
  heap_limit = 8192;
}

abbrev cell : ℕ → Bool → Cell
cell n f = record { size = n; free = f }

abbrev cells : List Cell
cells = cell 96 false ∷ cell 160 true ∷ cell 3840 false ∷ []

small_heap-IsHeap : IsHeap small_heap cells
small_heap-IsHeap = record {
  chain = ground arith;
  starts = refl;
  based = omega arith;
  aligned = refl;
  bounded = omega arith;
  filled = omega arith;
}

small_heap-InOrder : InOrder small_heap cells
small_heap-InOrder = (small_heap-IsHeap, (refl, (refl, tt)))

-- 24 bytes fit into the free block, which is split.
abbrev split_heap : Heap
split_heap = take_block small_heap 4192 72

run_24 : kmalloc 24 small_heap ≡ some (4224, split_heap)
unfolding kmalloc search_from block_valid
run_24 = refl

kfree-kmalloc_example : IsHeap (kfree 4224 split_heap) cells
kfree-kmalloc_example =
    kfree-kmalloc 24 small_heap cells 4224 split_heap small_heap-InOrder (omega arith) (omega arith)
      run_24 (omega arith)

kmalloc_exclusive_example :
    (ds : List Cell) × IsHeap split_heap ds
    × (4224 % 8 ≡ 0)
    × (4096 + header_size ≤ 4224)
    × (4224 + 24 + footer_size ≤ split_heap.heap_limit)
    × ((p : ℕ) × (d : Cell) × (4224 ≡ p + header_size)
        × (block_at p split_heap.heap_base ds ≡ some d)
        × (d.free ≡ false)
        × (header_size + 24 + footer_size ≤ d.size))
    × ((q : ℕ) (e : Cell)
        → block_at q 4096 cells ≡ some e
        → e.free ≡ false
        → (block_at q split_heap.heap_base ds ≡ some e)
          × ((4224 + 24 + footer_size ≤ q) ⊎ (q + e.size + header_size ≤ 4224)))
kmalloc_exclusive_example =
    kmalloc_exclusive 24 small_heap cells 4224 split_heap small_heap-IsHeap (omega arith)
      (omega arith) run_24 (omega arith)

kmalloc_lem_example :
    (r : ℕ × Heap) × (kmalloc 24 small_heap ≡ some r)
    × Answer small_heap (alloc_cells (needed_for 24) 4096 cells) r
kmalloc_lem_example = kmalloc_lem 24 small_heap cells small_heap-IsHeap (omega arith) (omega arith)

at_4352 : block_at 4352 4096 cells ≡ some (cell 3840 false)
unfolding block_at
at_4352 = refl
