-- ===== src/Mm/Kheap/Malloc.antt =====
-- kernel/mm/kheap.c: `kmalloc` takes the first free block that is large enough.
use grace_os.Prelude.{
  ℕ, zero, suc, ◌+◌, ◌-◌, ◌≤◌, ◌<◌, ◌≡◌, refl, sym, ap, ◌∙◌, ◌≢◌, inl, inr, Bool, true, false, ◌&&◌,
  not, Option, none, some, List, [], ◌∷◌, arith, leb, ◌==◌, if◌then◌else◌, le→ltb, ==_ne,
  Bool-cases, length,
}
use grace_os.Mm.Kheap.{
  Header, Heap, kheap_max_alloc, header_size, take_block, search_from, walk_fuel, needed_for,
  kmalloc, block_valid,
}
use grace_os.Mm.Kheap.Cells.{
  Cell, flag, link, header_of, FitsSize, Chain, IsHeap, Chain-valid, length-Chain,
}
use grace_os.Mm.Kheap.Take.{
  SameBelow-IsHeap, carve, SameBelow, take_block-Chain, take_block-SameBelow, link-or,
}

-- An answer for the blocks behind one, for the list with that one.
abbrev pub behind : Cell → Option (ℕ × List Cell) → Option (ℕ × List Cell)
behind c none = none
behind c (some (p, ds)) = some (p, c ∷ ds)

-- First fit on the list: the address of the block, and the new list.
unfoldable pub alloc_cells : ℕ → ℕ → List Cell → Option (ℕ × List Cell)
alloc_cells needed a [] = none
alloc_cells needed a (c ∷ cs) =
    let rest = alloc_cells needed (a + c.size) cs in
    if c.free && leb needed c.size then some (a, carve needed c cs) else behind c rest

-- What a search leaves: nothing done, or the block taken and all before it as it was.
abbrev pub Outcome : Heap → ℕ → ℕ → ℕ → Option (ℕ × List Cell) → ℕ × Heap → Type 0
Outcome h prev a end none (r, h') = (r ≡ 0) × (h' ≡ h)
Outcome h prev a end (some (p, ds)) (r, h') =
    (r ≡ p + header_size) × Chain h'.headers h'.footers prev a ds end × SameBelow a h h'

flag_iff : (b : Bool) → not (flag b == 0) ≡ b
flag_iff true = refl
flag_iff false = refl

-- A block that is passed over stays in front of what the search leaves behind it.
passed-Outcome :
    (h : Heap) (prev a end : ℕ) (c : Cell) (cs : List Cell) (o : Option (ℕ × List Cell))
    (r : ℕ × Heap)
    → (h.headers a ≡ header_of prev a c cs)
    → h.footers (a + c.size - 16) ≡ record { size = c.size; magic = 0xDEADBEEF }
    → FitsSize c.size
    → ((q : ℕ) (ds : List Cell) → o ≡ some (q, ds) → link (a + c.size) ds ≡ link (a + c.size) cs)
    → Outcome h a (a + c.size) end o r
    → Outcome h prev a end (behind c o) r
passed-Outcome h prev a end c cs none r head foot fits same out = out
passed-Outcome h prev a end c cs (some (p, ds)) (r, h') head foot fits same (at_p, ch, below) = (
  at_p,
  (
    below.headers a (omega (arith, fits))
        ∙ (head
            ∙ ap
                (λ l. record {
                  magic = 0xDEADBEEF;
                  free = flag c.free;
                  size = c.size;
                  next = l;
                  prev = prev;
                })
                (sym (same p ds refl))),
    below.footers (a + c.size - 16) (omega (arith, fits)) ∙ foot,
    fits,
    ch,
  ),
  record {
    headers = λ x lt. below.headers x (omega (arith, fits));
    footers = λ x lt. below.footers x (omega (arith, fits));
    start = below.start;
    base = below.base;
    limit = below.limit;
  },
)

link-alloc_cells :
    (needed a : ℕ) (cs : List Cell) (q : ℕ) (ds : List Cell)
    → alloc_cells needed a cs ≡ some (q, ds)
    → link a ds ≡ link a cs
unfolding alloc_cells
link-alloc_cells needed a [] q ds e = absurd (ground arith)
link-alloc_cells needed a (c ∷ cs) q ds e = ground (arith, e)

-- One round of the search, on a valid block.
module _ (fuel : ℕ) (h : Heap) (a needed : ℕ) (nn : a ≢ 0) (valid : block_valid h a ≡ true) where
  search-take :
      (not ((h.headers a).free == 0) && leb needed (h.headers a).size) ≡ true
      → search_from (suc fuel) h a needed ≡ some (a + header_size, take_block h a needed)
  unfolding search_from
  search-take fit = rw (==_ne a 0 nn, valid, fit) refl

  search-pass :
      (not ((h.headers a).free == 0) && leb needed (h.headers a).size) ≡ false
      → search_from (suc fuel) h a needed ≡ search_from fuel h (h.headers a).next needed
  unfolding search_from
  search-pass unfit = rw (==_ne a 0 nn, valid, unfit) refl

search_from-Outcome :
    (fuel : ℕ) (h : Heap) (prev a : ℕ) (cs : List Cell) (end needed : ℕ)
    → a ≢ 0
    → FitsSize needed
    → Chain h.headers h.footers prev a cs end
    → length cs < fuel
    → (r : ℕ × Heap) × (search_from fuel h (link a cs) needed ≡ some r)
      × Outcome h prev a end (alloc_cells needed a cs) r
unfolding search_from alloc_cells
search_from-Outcome zero h prev a cs end needed nn fits ch f = absurd (omega arith)
search_from-Outcome (suc fuel) h prev a [] end needed nn fits ch f = ((0, h), refl, (refl, refl))
search_from-Outcome (suc fuel) h prev a (c ∷ cs) end needed nn fits (head, foot, cfits, rest) f =
    let valid = Chain-valid h prev a c cs end nn (head, foot, cfits, rest) in
    let test : (not ((h.headers a).free == 0) && leb needed (h.headers a).size)
        ≡ (c.free && leb needed c.size) =
      ap (λ (r : Header). not (r.free == 0) && leb needed r.size) head
      ∙ ap (λ b. b && leb needed c.size) (flag_iff c.free) in
    let size : (h.headers a).size ≡ c.size = ap (λ (r : Header). r.size) head in
    let next : (h.headers a).next ≡ link (a + c.size) cs = ap (λ (r : Header). r.next) head in
    elim (Bool-cases (c.free && leb needed c.size)) [
      | inl fit ↦ (
        (a + header_size, take_block h a needed),
        search-take fuel h a needed nn valid (test ∙ fit),
        rw fit (
          refl,
          take_block-Chain h prev a needed c cs end nn fits (head, foot, cfits, rest),
          take_block-SameBelow h a needed fits.0 (omega (arith, size, cfits))
              (omega (arith, next, link-or (a + c.size) cs, cfits)),
        ),
      )
      | inr unfit ↦
          let (r, run, out) =
            search_from-Outcome fuel h a (a + c.size) cs end needed (omega arith) fits rest
              (omega arith) in
          (
            r,
            search-pass fuel h a needed nn valid (test ∙ unfit)
                ∙ (ap (λ p. search_from fuel h p needed) next ∙ run),
            rw unfit (
                passed-Outcome h prev a end c cs (alloc_cells needed (a + c.size) cs) r head foot
                  cfits (λ q ds e. link-alloc_cells needed (a + c.size) cs q ds e) out),
          )
    ]

-- What `kmalloc` returns: null and no change, or the payload of the block taken.
abbrev pub Answer : Heap → Option (ℕ × List Cell) → ℕ × Heap → Type 0
Answer h none (r, h') = (r ≡ 0) × (h' ≡ h)
Answer h (some (p, ds)) (r, h') =
    (r ≡ p + header_size) × IsHeap h' ds × (h'.heap_base ≡ h.heap_base)

Outcome-Answer :
    (h : Heap) (cs : List Cell) (o : Option (ℕ × List Cell)) (r : ℕ × Heap)
    → IsHeap h cs
    → Outcome h 0 h.heap_base h.heap_limit o r
    → Answer h o r
Outcome-Answer h cs none r is out = out
Outcome-Answer h cs (some (p, ds)) (r, h') is (at_p, ch, below) =
    (at_p, SameBelow-IsHeap h h' cs ds is ch below, below.base)

needed_for-FitsSize : (size : ℕ) → size ≤ kheap_max_alloc → FitsSize (needed_for size)
needed_for-FitsSize size small = (omega arith, omega arith)

pub link-filled : (h : Heap) (cs : List Cell) → IsHeap h cs → h.heap_start ≡ link h.heap_base cs
link-filled h [] is = absurd (omega (arith, is.chain, is.filled))
link-filled h (c ∷ cs) is = is.starts

kmalloc-search :
    (size : ℕ) (h : Heap)
    → h.heap_start ≢ 0
    → 0 < size
    → size ≤ kheap_max_alloc
    → kmalloc size h ≡ search_from (walk_fuel h) h h.heap_start (needed_for size)
unfolding kmalloc
kmalloc-search size h nn pos small =
    rw (==_ne h.heap_start 0 nn, ==_ne size 0 (omega arith), le→ltb kheap_max_alloc size small) refl

-- On a heap in order, `kmalloc` of 1 to 65536 bytes ends. It takes the first free block that is large
-- enough, splits it where the rest makes a block, and leaves a heap in order; it returns null, and
-- changes nothing, exactly if there is no such block.
pub kmalloc_lem :
    (size : ℕ) (h : Heap) (cs : List Cell)
    → IsHeap h cs
    → 0 < size
    → size ≤ kheap_max_alloc
    → (r : ℕ × Heap) × (kmalloc size h ≡ some r)
      × Answer h (alloc_cells (needed_for size) h.heap_base cs) r
kmalloc_lem size h cs is pos small =
    let fuel = length-Chain h.headers h.footers 0 h.heap_base cs h.heap_limit is.chain in
    let (r, run, out) =
      search_from-Outcome (walk_fuel h) h 0 h.heap_base cs h.heap_limit (needed_for size)
        (omega (arith, is.based)) (needed_for-FitsSize size small) is.chain (omega (arith, fuel)) in
    (
      r,
      kmalloc-search size h (omega (arith, is.starts, is.based)) pos small
          ∙ (ap (λ p. search_from (walk_fuel h) h p (needed_for size)) (link-filled h cs is) ∙ run),
      Outcome-Answer h cs _ r is out,
    )
