-- ===== src/Mm/Kheap/Trip.antt =====
-- kernel/mm/kheap.c: `kmalloc` and `kfree` together.
use grace_os.Prelude.{
  ℕ, ◌+◌, ◌%◌, ◌≤◌, ◌<◌, ◌≡◌, refl, sym, ap, ◌∙◌, subst, ◌≢◌, ◌⊎◌, inl, inr, false, Option, none,
  some, List, arith, dec_lt,
}
use grace_os.Mm.Kheap.{Heap, kheap_max_alloc, header_size, footer_size, needed_for, kmalloc, kfree}
use grace_os.Mm.Kheap.Cells.{Cell, IsHeap}
use grace_os.Mm.Kheap.Malloc.{alloc_cells, Answer, kmalloc_lem}
use grace_os.Mm.Kheap.Free.{free_cells, block_at}
use grace_os.Mm.Kheap.Kfree.{kfree_lem, block_at-le}
use grace_os.Mm.Kheap.Coalesce.{Coalesced}
use grace_os.Mm.Kheap.Restore.{free-alloc_cells}
use grace_os.Mm.Kheap.Blocks.{
  Chain-AllFit, block_at-within, block_at-apart, alloc_cells-taken, alloc_cells-was_free,
  alloc_cells-kept,
}

-- A heap in order without free neighbours, with its blocks.
abbrev pub InOrder : Heap → List Cell → Type 0
InOrder h cs = IsHeap h cs × Coalesced cs

-- A call that succeeded: the block it took, and the list that it left.
pub record Took (size : ℕ) (h : Heap) (cs : List Cell) (r : ℕ) (h' : Heap) : Type 0 where
  pub block : ℕ
  pub left : List Cell
  pub search : alloc_cells (needed_for size) h.heap_base cs ≡ some (block, left)
  pub address : r ≡ block + header_size
  pub heap : IsHeap h' left
  pub base : h'.heap_base ≡ h.heap_base

pub kmalloc-Took :
    (size : ℕ) (h : Heap) (cs : List Cell) (r : ℕ) (h' : Heap)
    → IsHeap h cs
    → 0 < size
    → size ≤ kheap_max_alloc
    → kmalloc size h ≡ some (r, h')
    → r ≢ 0
    → Took size h cs r h'
kmalloc-Took size h cs r h' is pos small run nn =
    let (x, run', ans) = kmalloc_lem size h cs is pos small in
    from (alloc_cells (needed_for size) h.heap_base cs) refl
      (subst (Answer h (alloc_cells (needed_for size) h.heap_base cs)) (same x run') ans)
  where
    same : (x : ℕ × Heap) → kmalloc size h ≡ some x → x ≡ (r, h')
    same x run' = let e : some x ≡ some (r, h') = sym run' ∙ run in cc

    from :
        (o : Option (ℕ × List Cell))
        → alloc_cells (needed_for size) h.heap_base cs ≡ o
        → Answer h o (r, h')
        → Took size h cs r h'
    from none e ans = absurd (nn ans.0)
    from (some (p, ds)) e (at_p, heap, base) = record {
      block = p;
      left = ds;
      search = e;
      address = at_p;
      heap = heap;
      base = base;
    }

-- On a heap in order without free neighbours, what `kmalloc` returned can be given to `kfree`, and the
-- heap then has the blocks of before.
pub kfree-kmalloc :
    (size : ℕ) (h : Heap) (cs : List Cell) (r : ℕ) (h' : Heap)
    → InOrder h cs
    → 0 < size
    → size ≤ kheap_max_alloc
    → kmalloc size h ≡ some (r, h')
    → r ≢ 0
    → IsHeap (kfree r h') cs
kfree-kmalloc size h cs r h' (is, k) pos small run nn =
    let t = kmalloc-Took size h cs r h' is pos small run nn in
    let fits = Chain-AllFit h.headers h.footers 0 h.heap_base cs h.heap_limit is.chain in
    let (d, at_p, used, big) =
      alloc_cells-taken (needed_for size) h.heap_base cs t.block t.left fits t.search in
    let at_p' : block_at t.block h'.heap_base t.left ≡ some d =
      ap (λ b. block_at t.block b t.left) t.base ∙ at_p in
    let again = free-alloc_cells (needed_for size) h.heap_base cs t.block t.left fits k t.search in
    elim (kfree_lem h' t.left t.block d t.heap at_p') [
      | inr (free, same) ↦ absurd (cc (used, free))
      | inl (free, heap) ↦
          subst (λ q. IsHeap (kfree q h') cs) (sym t.address)
            (subst (IsHeap (kfree (t.block + header_size) h'))
              (ap (λ a. free_cells t.block a t.left) t.base ∙ again) heap)
    ]

-- What `kmalloc` returns is aligned memory of the heap that no block in use overlaps: afterwards it is
-- the payload of a block that is in use and has room for it between the header and the footer, and
-- every block that was in use is still there, below or above it.
pub kmalloc_exclusive :
    (size : ℕ) (h : Heap) (cs : List Cell) (r : ℕ) (h' : Heap)
    → IsHeap h cs
    → 0 < size
    → size ≤ kheap_max_alloc
    → kmalloc size h ≡ some (r, h')
    → r ≢ 0
    → (ds : List Cell) × IsHeap h' ds
      × (r % 8 ≡ 0)
      × (h.heap_base + header_size ≤ r)
      × (r + size + footer_size ≤ h'.heap_limit)
      × ((p : ℕ) × (d : Cell) × (r ≡ p + header_size)
          × (block_at p h'.heap_base ds ≡ some d)
          × (d.free ≡ false)
          × (header_size + size + footer_size ≤ d.size))
      × ((q : ℕ) (e : Cell)
          → block_at q h.heap_base cs ≡ some e
          → e.free ≡ false
          → (block_at q h'.heap_base ds ≡ some e)
            × ((r + size + footer_size ≤ q) ⊎ (q + e.size + header_size ≤ r)))
kmalloc_exclusive size h cs r h' is pos small run nn =
    let t = kmalloc-Took size h cs r h' is pos small run nn in
    let fits = Chain-AllFit h.headers h.footers 0 h.heap_base cs h.heap_limit is.chain in
    let (d, at_p, used, big) =
      alloc_cells-taken (needed_for size) h.heap_base cs t.block t.left fits t.search in
    let at_p' : block_at t.block h'.heap_base t.left ≡ some d =
      ap (λ b. block_at t.block b t.left) t.base ∙ at_p in
    let (aligned, within) =
      block_at-within h'.headers h'.footers 0 h'.heap_base t.left h'.heap_limit t.block d
        t.heap.aligned t.heap.chain at_p' in
    (
      t.left,
      t.heap,
      omega (arith, t.address, aligned),
      omega (arith, t.address, block_at-le t.block h.heap_base t.left d at_p),
      omega (arith, t.address, within, big),
      (t.block, d, t.address, at_p', used, omega (arith, big)),
      λ q e at_q in_use.
          let kept =
            alloc_cells-kept (needed_for size) h.heap_base cs t.block t.left q e fits t.search at_q
              in_use in
          let (c, was_at, was_free) =
            alloc_cells-was_free (needed_for size) h.heap_base cs t.block t.left fits t.search in
          let differs : q ≢ t.block = λ same.
            let is : some e ≡ some c =
              sym at_q ∙ (ap (λ x. block_at x h.heap_base cs) same ∙ was_at) in
            let is' : e ≡ c = cc in cc (ap (λ (x : Cell). x.free) is', in_use, was_free) in
          (
            ap (λ b. block_at q b t.left) t.base ∙ kept,
            elim (dec_lt q t.block) [
              | yes lt ↦ inr (
                  omega (
                    arith,
                    t.address,
                    block_at-apart h.heap_base t.left q t.block e d kept at_p lt,
                  ))
              | no ge ↦ inl (
                  omega (
                    arith,
                    t.address,
                    big,
                    block_at-apart h.heap_base t.left t.block q d e at_p kept (omega arith),
                  ))
            ],
          ),
    )
