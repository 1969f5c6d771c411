-- ===== src/Mm/Kheap/Kfree.antt =====
-- kernel/mm/kheap.c: `kfree` on a heap in order.
use grace_os.Prelude.{
  ℕ, ◌+◌, ◌^◌, ◌≤◌, ◌<◌, ◌≡◌, refl, sym, ap, ◌∙◌, subst, ◌≢◌, ◌⊎◌, inl, inr, true, false, some,
  List, [], ◌∷◌, arith, ℕ_discrete, ==_self, ==_ne, Bool-cases,
}
use grace_os.Mm.Kheap.{Header, Heap, header_size, merge_prev, block_valid, kfree}
use grace_os.Mm.Kheap.Cells.{Cell, flag, Chain, IsHeap, Chain-valid}
use grace_os.Mm.Kheap.Take.{SameBelow-IsHeap}
use grace_os.Mm.Kheap.Free.{
  join, freed, free_cells, block_at, SameBelow-trans, SameBelow-weaken, Rebuilt, released,
  released-Rebuilt, cons-Chain, join-free, link-join, link-free_cells, prev-Rebuilt,
  merge_prev-first,
}

-- What `kfree` does to a block in use.
abbrev given_back : Heap → ℕ → Heap
given_back h p = merge_prev (released h p) p

-- The block behind another one is given back.
second-Rebuilt :
    (h : Heap) (prev a : ℕ) (c d : Cell) (ds : List Cell) (end : ℕ)
    → a ≢ 0
    → end < 2 ^ 64
    → Chain h.headers h.footers prev a (c ∷ d ∷ ds) end
    → Rebuilt h prev a (join c (join (freed d) ds)) end (given_back h (a + c.size))
second-Rebuilt h prev a c d ds end nn small ch =
    let b = a + c.size in
    let (ch1, below1) = released-Rebuilt h a b d ds end (omega arith) small ch.3 in
    let whole =
      cons-Chain h (released h b) prev a c (d ∷ ds) (join (freed d) ds) end ch
        (link-join b (freed d) ds) (ch1, below1) in
    let (e, es, is, free) = join-free (freed d) ds refl in
    let (ch2, below2) =
      prev-Rebuilt (released h b) prev a c e es end nn small
        (subst (λ xs. Chain (released h b).headers (released h b).footers prev a (c ∷ xs) end) is
          whole)
        free in
    subst (λ xs. Rebuilt h prev a (join c xs) end (given_back h b)) (sym is)
      (ch2, SameBelow-trans a b h (released h b) (given_back h b) (omega arith) below1 below2)

-- The first block is given back: there is nothing in front of it to join with.
first-Rebuilt :
    (h : Heap) (a : ℕ) (c : Cell) (cs : List Cell) (end : ℕ)
    → a ≢ 0
    → end < 2 ^ 64
    → Chain h.headers h.footers 0 a (c ∷ cs) end
    → Rebuilt h 0 a (join (freed c) cs) end (given_back h a)
first-Rebuilt h a c cs end nn small ch =
    let (ch1, below1) = released-Rebuilt h 0 a c cs end nn small ch in
    let (e, es, is, free) = join-free (freed c) cs refl in
    let back : ((released h a).headers a).prev ≡ 0 =
      ap (λ (r : Header). r.prev)
        (subst (λ xs. Chain (released h a).headers (released h a).footers 0 a xs end) is ch1).0 in
    subst (λ g. Rebuilt h 0 a (join (freed c) cs) end g)
      (sym (merge_prev-first (released h a) a back)) (ch1, below1)

pub free_cells-first :
    (a : ℕ) (c : Cell) (cs : List Cell) → free_cells a a (c ∷ cs) ≡ join (freed c) cs
unfolding free_cells
free_cells-first a c cs = rw (==_self a) refl

free_cells-second :
    (a : ℕ) (c x : Cell) (cs : List Cell)
    → 0 < c.size
    → free_cells (a + c.size) a (c ∷ x ∷ cs) ≡ join c (join (freed x) cs)
unfolding free_cells
free_cells-second a c x cs pos = rw (==_ne (a + c.size) a (omega arith), ==_self (a + c.size)) refl

pub free_cells-later :
    (p a : ℕ) (c : Cell) (cs : List Cell)
    → p ≢ a
    → p ≢ a + c.size
    → free_cells p a (c ∷ cs) ≡ c ∷ free_cells p (a + c.size) cs
unfolding free_cells
free_cells-later p a c cs ne ne' = ground arith

pub block_at-le : (p a : ℕ) (cs : List Cell) (d : Cell) → block_at p a cs ≡ some d → a ≤ p
unfolding block_at
block_at-le p a [] d e = absurd (ground arith)
block_at-le p a (c ∷ cs) d e = elim (ℕ_discrete p a) [
  | yes h ↦ omega arith
  | no ne ↦ omega (arith, block_at-le p (a + c.size) cs d (ground (arith, e, ne)))
]

-- A block further on is given back.
later-Rebuilt :
    (cs : List Cell) (h : Heap) (prev a p : ℕ) (c d : Cell) (end : ℕ)
    → a ≢ 0
    → end < 2 ^ 64
    → a < p
    → Chain h.headers h.footers prev a (c ∷ cs) end
    → block_at p (a + c.size) cs ≡ some d
    → Rebuilt h prev a (free_cells p a (c ∷ cs)) end (given_back h p)
unfolding block_at
later-Rebuilt [] h prev a p c d end nn small lt ch at_p = absurd (ground arith)
later-Rebuilt (x ∷ cs) h prev a p c d end nn small lt ch at_p = elim (ℕ_discrete p (a + c.size)) [
  | yes e ↦
      subst (λ q. Rebuilt h prev a (free_cells q a (c ∷ x ∷ cs)) end (given_back h q)) (sym e)
        (subst (λ xs. Rebuilt h prev a xs end (given_back h (a + c.size)))
          (sym (free_cells-second a c x cs (omega (arith, ch.2))))
          (second-Rebuilt h prev a c x cs end nn small ch))
  | no ne ↦
      let b = a + c.size in
      let at_p' : block_at p (b + x.size) cs ≡ some d = ground (arith, at_p, ne) in
      let above : b < p = omega (arith, block_at-le p (b + x.size) cs d at_p', ch.3.2) in
      let (ch1, below1) = later-Rebuilt cs h a b p x d end (omega arith) small above ch.3 at_p' in
      subst (λ xs. Rebuilt h prev a xs end (given_back h p))
        (sym (free_cells-later p a c (x ∷ cs) (omega arith) ne))
        (
          cons-Chain h (given_back h p) prev a c (x ∷ cs) (free_cells p b (x ∷ cs)) end ch
              (link-free_cells p b x cs) (ch1, below1),
          SameBelow-weaken a b h (given_back h p) (omega arith) below1,
        )
]

-- The block at `p` as the memory has it.
block_at-valid :
    (h : Heap) (prev a : ℕ) (cs : List Cell) (end p : ℕ) (d : Cell)
    → a ≢ 0
    → Chain h.headers h.footers prev a cs end
    → block_at p a cs ≡ some d
    → (block_valid h p ≡ true) × ((h.headers p).free ≡ flag d.free)
unfolding block_at
block_at-valid h prev a [] end p d nn ch e = absurd (ground arith)
block_at-valid h prev a (c ∷ cs) end p d nn ch e = elim (ℕ_discrete p a) [
  | yes same ↦
      let is_d : c ≡ d = ground (arith, e, same) in
      subst (λ q. (block_valid h q ≡ true) × ((h.headers q).free ≡ flag d.free)) (sym same)
        (
          Chain-valid h prev a c cs end nn ch,
          ap (λ (r : Header). r.free) ch.0 ∙ ap (λ (x : Cell). flag x.free) is_d,
        )
  | no ne ↦ block_at-valid h a (a + c.size) cs end p d (omega arith) ch.3 (ground (arith, e, ne))
]

given_back-Rebuilt :
    (h : Heap) (a : ℕ) (cs : List Cell) (end p : ℕ) (d : Cell)
    → a ≢ 0
    → end < 2 ^ 64
    → Chain h.headers h.footers 0 a cs end
    → block_at p a cs ≡ some d
    → Rebuilt h 0 a (free_cells p a cs) end (given_back h p)
unfolding block_at
given_back-Rebuilt h a [] end p d nn small ch e = absurd (ground arith)
given_back-Rebuilt h a (c ∷ cs) end p d nn small ch e = elim (ℕ_discrete p a) [
  | yes same ↦
      subst (λ q. Rebuilt h 0 a (free_cells q a (c ∷ cs)) end (given_back h q)) (sym same)
        (subst (λ xs. Rebuilt h 0 a xs end (given_back h a)) (sym (free_cells-first a c cs))
          (first-Rebuilt h a c cs end nn small ch))
  | no ne ↦
      let e' : block_at p (a + c.size) cs ≡ some d = ground (arith, e, ne) in
      later-Rebuilt cs h 0 a p c d end nn small
        (omega (arith, block_at-le p (a + c.size) cs d e', ch.2)) ch e'
]

-- `kfree` of the payload of a valid block: nothing for a free one.
module _ (h : Heap) (p : ℕ) (started : h.heap_start ≢ 0) (valid : block_valid h p ≡ true) where
  kfree-used : (h.headers p).free ≡ 0 → kfree (p + header_size) h ≡ given_back h p
  unfolding kfree
  kfree-used used = ground (arith, valid, used)

  kfree-free : (h.headers p).free ≡ 1 → kfree (p + header_size) h ≡ h
  unfolding kfree
  kfree-free free = ground (arith, valid, free)

-- `kfree` of the payload of a block in use leaves a heap in order, in which the block is free and one
-- with the free blocks next to it; of the payload of a free block, it changes nothing.
pub kfree_lem :
    (h : Heap) (cs : List Cell) (p : ℕ) (d : Cell)
    → IsHeap h cs
    → block_at p h.heap_base cs ≡ some d
    → ((d.free ≡ false) × IsHeap (kfree (p + header_size) h) (free_cells p h.heap_base cs))
      ⊎ ((d.free ≡ true) × (kfree (p + header_size) h ≡ h))
kfree_lem h cs p d is at_p =
    let base : h.heap_base ≢ 0 = omega (arith, is.based) in
    let (valid, free) = block_at-valid h 0 h.heap_base cs h.heap_limit p d base is.chain at_p in
    elim (Bool-cases d.free) [
      | inl e ↦
          inr (e, kfree-free h p (omega (arith, is.starts, is.based)) valid (free ∙ ap flag e))
      | inr e ↦
          let (ch, below) =
            given_back-Rebuilt h h.heap_base cs h.heap_limit p d base is.bounded is.chain at_p in
          inl (
            e,
            subst (λ g. IsHeap g (free_cells p h.heap_base cs))
                (sym (kfree-used h p (omega (arith, is.starts, is.based)) valid (free ∙ ap flag e)))
                (SameBelow-IsHeap h (given_back h p) cs (free_cells p h.heap_base cs) is ch below),
          )
    ]
