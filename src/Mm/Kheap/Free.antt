-- ===== src/Mm/Kheap/Free.antt =====
-- kernel/mm/kheap.c: `kfree` frees a block and joins it with its free neighbours.
use grace_os.Prelude.{
  ℕ, ◌+◌, ◌-◌, ◌^◌, ◌≤◌, ◌<◌, ◌≡◌, refl, sym, ap, ◌∙◌, subst, ◌≢◌, inl, inr, Bool, true, false,
  ◌&&◌, Option, none, some, List, [], ◌∷◌, arith, ◌==◌, if◌then◌else◌, Bool-cases, put_self, put_ne,
}
use grace_os.Mm.Kheap.{
  Header, Heap, footer_size, with_header, absorb, merge_next, merge_prev, can_merge,
}
use grace_os.Mm.Kheap.Cells.{Cell, flag, link, header_of, Chain, Chain-agree, Chain-valid}
use grace_os.Mm.Kheap.Take.{SameBelow}
use grace_os.Mm.Kheap.Absorb.{joined, absorb-Chain}

-- A block in front of others, as one block with the first of them if both are free.
abbrev pub join : Cell → List Cell → List Cell
join c [] = c ∷ []
join c (d ∷ ds) = if c.free && d.free then joined c d ∷ ds else c ∷ d ∷ ds

abbrev pub freed : Cell → Cell
freed c = record { size = c.size; free = true }

-- The list with the block at `p` freed and joined with its neighbours.
unfoldable pub free_cells : ℕ → ℕ → List Cell → List Cell
free_cells p a [] = []
free_cells p a (c ∷ cs) =
    let rest = free_cells p (a + c.size) cs in
    if p == a then join (freed c) cs else if p == a + c.size then join c rest else c ∷ rest

-- The block that lies at `p`.
unfoldable pub block_at : ℕ → ℕ → List Cell → Option Cell
block_at p a [] = none
block_at p a (c ∷ cs) = let rest = block_at p (a + c.size) cs in if p == a then some c else rest

pub SameBelow-trans :
    (a b : ℕ) (h h' h'' : Heap) → a ≤ b → SameBelow b h h' → SameBelow a h' h'' → SameBelow a h h''
SameBelow-trans a b h h' h'' le s t = record {
  headers = λ x lt. t.headers x lt ∙ s.headers x (omega arith);
  footers = λ x lt. t.footers x lt ∙ s.footers x (omega arith);
  start = t.start ∙ s.start;
  base = t.base ∙ s.base;
  limit = t.limit ∙ s.limit;
}

pub SameBelow-weaken : (a b : ℕ) (h h' : Heap) → a ≤ b → SameBelow b h h' → SameBelow a h h'
SameBelow-weaken a b h h' le s = record {
  headers = λ x lt. s.headers x (omega arith);
  footers = λ x lt. s.footers x (omega arith);
  start = s.start;
  base = s.base;
  limit = s.limit;
}

SameBelow-self : (a : ℕ) (h : Heap) → SameBelow a h h
SameBelow-self a h = record {
  headers = λ x lt. refl;
  footers = λ x lt. refl;
  start = refl;
  base = refl;
  limit = refl;
}

-- A chain from `a` on, in a heap that is the same below.
abbrev pub Rebuilt : Heap → ℕ → ℕ → List Cell → ℕ → Heap → Type 0
Rebuilt h prev a cs end h' = Chain h'.headers h'.footers prev a cs end × SameBelow a h h'

abbrev pub marked : Heap → ℕ → Heap
marked h p = with_header h p (λ b. record b { free = 1 })

pub marked-Rebuilt :
    (h : Heap) (prev a : ℕ) (c : Cell) (cs : List Cell) (end : ℕ)
    → Chain h.headers h.footers prev a (c ∷ cs) end
    → Rebuilt h prev a (freed c ∷ cs) end (marked h a)
marked-Rebuilt h prev a c cs end (head, foot, fits, rest) = (
  (
    put_self h.headers a (record (h.headers a) { free = 1 })
        ∙ ap (λ (r : Header). record r { free = 1 }) head,
    foot,
    fits,
    Chain-agree h.headers (marked h a).headers h.footers h.footers a (a + c.size) cs end
        (λ x lo hi. put_ne h.headers a x (record (h.headers a) { free = 1 }) (omega (arith, fits)))
        (λ x lo hi. refl) rest,
  ),
  record {
    headers = λ x lt. put_ne h.headers a x (record (h.headers a) { free = 1 }) (omega arith);
    footers = λ x lt. refl;
    start = refl;
    base = refl;
    limit = refl;
  },
)

-- Whether a neighbour can be merged is whether it is there and free.
can_merge-cell :
    (h : Heap) (prev a : ℕ) (c : Cell) (cs : List Cell) (end : ℕ)
    → a ≢ 0
    → Chain h.headers h.footers prev a (c ∷ cs) end
    → can_merge h a ≡ c.free
can_merge-cell h prev a c cs end nn ch =
    let valid = Chain-valid h prev a c cs end nn ch in
    let free : (h.headers a).free ≡ flag c.free = ap (λ (r : Header). r.free) ch.0 in
    ground (arith, valid, free)

-- Two neighbours, joined or not.
module _ (h : Heap) (prev a : ℕ) (c d : Cell) (ds : List Cell) (end : ℕ) (nn : a ≢ 0)
    (small : end < 2 ^ 64) (ch : Chain h.headers h.footers prev a (c ∷ d ∷ ds) end) where
  joined_if :
      (t : Bool)
      → Rebuilt h prev a
          (if t then joined c d ∷ ds else c ∷ d ∷ ds)
          end
          (if t then absorb h a (a + c.size) else h)
  joined_if true = absorb-Chain h prev a c d ds end nn small ch
  joined_if false = (ch, SameBelow-self a h)

  next-Rebuilt : c.free ≡ true → Rebuilt h prev a (join c (d ∷ ds)) end (merge_next h a)
  unfolding merge_next
  next-Rebuilt free =
      let next : (h.headers a).next ≡ a + c.size = ap (λ (r : Header). r.next) ch.0 in
      let can = can_merge-cell h a (a + c.size) d ds end (omega arith) ch.3 in
      let test : (c.free && d.free) ≡ can_merge h (a + c.size) = ground (arith, free, can) in
      subst
        (λ q. Rebuilt h prev a (join c (d ∷ ds)) end (if can_merge h q then absorb h a q else h))
        (sym next)
        (subst
          (λ t. Rebuilt h prev a (join c (d ∷ ds)) end (if t then absorb h a (a + c.size) else h))
          test (joined_if (c.free && d.free)))

  pub prev-Rebuilt :
      d.free ≡ true → Rebuilt h prev a (join c (d ∷ ds)) end (merge_prev h (a + c.size))
  unfolding merge_prev
  prev-Rebuilt free =
      let back : (h.headers (a + c.size)).prev ≡ a = ap (λ (r : Header). r.prev) ch.3.0 in
      let can = can_merge-cell h prev a c (d ∷ ds) end nn ch in
      let test : (c.free && d.free) ≡ can_merge h a = ground (arith, free, can) in
      subst
        (λ q.
          Rebuilt h prev a (join c (d ∷ ds)) end
            (if can_merge h q then absorb h q (a + c.size) else h))
        (sym back)
        (subst
          (λ t. Rebuilt h prev a (join c (d ∷ ds)) end (if t then absorb h a (a + c.size) else h))
          test (joined_if (c.free && d.free)))

merge_next-Rebuilt :
    (h : Heap) (prev a : ℕ) (c : Cell) (cs : List Cell) (end : ℕ)
    → a ≢ 0
    → end < 2 ^ 64
    → c.free ≡ true
    → Chain h.headers h.footers prev a (c ∷ cs) end
    → Rebuilt h prev a (join c cs) end (merge_next h a)
unfolding merge_next
merge_next-Rebuilt h prev a c [] end nn small free ch =
    let next : (h.headers a).next ≡ 0 = ap (λ (r : Header). r.next) ch.0 in
    subst (λ q. Rebuilt h prev a (c ∷ []) end (if can_merge h q then absorb h a q else h))
      (sym next) (ch, SameBelow-self a h)
merge_next-Rebuilt h prev a c (d ∷ ds) end nn small free ch =
    next-Rebuilt h prev a c d ds end nn small ch free

pub merge_prev-first : (h : Heap) (a : ℕ) → (h.headers a).prev ≡ 0 → merge_prev h a ≡ h
unfolding merge_prev
merge_prev-first h a e = subst (λ q. (if can_merge h q then absorb h q a else h) ≡ h) (sym e) refl

-- The freed block, marked and joined with the block behind it.
abbrev pub released : Heap → ℕ → Heap
released h p = merge_next (marked h p) p

pub released-Rebuilt :
    (h : Heap) (prev a : ℕ) (c : Cell) (cs : List Cell) (end : ℕ)
    → a ≢ 0
    → end < 2 ^ 64
    → Chain h.headers h.footers prev a (c ∷ cs) end
    → Rebuilt h prev a (join (freed c) cs) end (released h a)
released-Rebuilt h prev a c cs end nn small ch =
    let (mid, below) = marked-Rebuilt h prev a c cs end ch in
    let (ch', below') = merge_next-Rebuilt (marked h a) prev a (freed c) cs end nn small refl mid in
    (ch', SameBelow-trans a a h (marked h a) (released h a) (omega arith) below below')

-- A block in front of a part that was rebuilt.
pub cons-Chain :
    (h h' : Heap) (prev a : ℕ) (c : Cell) (cs ds : List Cell) (end : ℕ)
    → Chain h.headers h.footers prev a (c ∷ cs) end
    → link (a + c.size) ds ≡ link (a + c.size) cs
    → Rebuilt h a (a + c.size) ds end h'
    → Chain h'.headers h'.footers prev a (c ∷ ds) end
cons-Chain h h' prev a c cs ds end (head, foot, fits, rest) same (ch, below) = (
  below.headers a (omega (arith, fits))
      ∙ (head ∙ ap (λ l. record (header_of prev a c cs) { next = l }) (sym same)),
  below.footers (a + c.size - footer_size) (omega (arith, fits)) ∙ foot,
  fits,
  ch,
)

-- The first of the joined blocks is free.
pub join-free :
    (c : Cell) (cs : List Cell)
    → c.free ≡ true
    → (d : Cell) × (ds : List Cell) × (join c cs ≡ d ∷ ds) × (d.free ≡ true)
join-free c [] free = (c, [], refl, free)
join-free c (d ∷ ds) free = elim (Bool-cases (c.free && d.free)) [
  | inl e ↦ (joined c d, ds, ap (λ t. if t then joined c d ∷ ds else c ∷ d ∷ ds) e, free)
  | inr e ↦ (c, d ∷ ds, ap (λ t. if t then joined c d ∷ ds else c ∷ d ∷ ds) e, free)
]

pub link-join : (a : ℕ) (c : Cell) (cs : List Cell) → link a (join c cs) ≡ a
link-join a c [] = refl
link-join a c (d ∷ ds) = ground arith

pub link-free_cells : (p a : ℕ) (c : Cell) (cs : List Cell) → link a (free_cells p a (c ∷ cs)) ≡ a
unfolding free_cells
link-free_cells p a c cs =
    let rest = free_cells p (a + c.size) cs in
    ground (arith, link-join a (freed c) cs, link-join a c rest)
