-- ===== src/Mm/Kheap/Take.antt =====
-- kernel/mm/kheap.c: a block is taken, whole or split.
use grace_os.Prelude.{
  ℕ, ◌+◌, ◌-◌, ◌≤◌, ◌<◌, ◌≡◌, refl, sym, ap, ◌∙◌, ap₂, subst, ◌≢◌, ◌⊎◌, inl, inr, true, false, List,
  [], ◌∷◌, arith, leb, if◌then◌else◌, Bool-cases, put_self, put_ne,
}
use grace_os.Mm.Kheap.{
  Header, Heap, kheap_magic, footer_size, min_block, min_split, with_header, take_block,
}
use grace_os.Mm.Kheap.Cells.{Cell, link, FitsSize, Chain, IsHeap, Chain-agree, Chain-set_prev}
use grace_os.Mm.Kheap.Split.{
  split-here, split-rest, split-next, split-others, split-footers, split-footers_others,
}

-- A block cut down to `needed`, the rest behind it where it makes a block.
abbrev pub carve : ℕ → Cell → List Cell → List Cell
carve needed c cs =
    if leb min_split (c.size - needed)
    then record { size = needed; free = false }
      ∷ record { size = c.size - needed; free = true }
      ∷ cs
    else record { size = c.size; free = false } ∷ cs

-- The memory below `a` and the bounds are those of before.
pub record SameBelow (a : ℕ) (h h' : Heap) : Type 0 where
  pub headers : (x : ℕ) → x < a → h'.headers x ≡ h.headers x
  pub footers : (x : ℕ) → x < a → h'.footers x ≡ h.footers x
  pub start : h'.heap_start ≡ h.heap_start
  pub base : h'.heap_base ≡ h.heap_base
  pub limit : h'.heap_limit ≡ h.heap_limit

pub SameBelow-IsHeap :
    (h h' : Heap) (cs ds : List Cell)
    → IsHeap h cs
    → Chain h'.headers h'.footers 0 h.heap_base ds h.heap_limit
    → SameBelow h.heap_base h h'
    → IsHeap h' ds
SameBelow-IsHeap h h' cs ds is ch below = record {
  chain = rw (below.base, below.limit) ch;
  starts = below.start ∙ (is.starts ∙ sym below.base);
  based = rw below.base is.based;
  aligned = rw below.base is.aligned;
  bounded = rw below.limit is.bounded;
  filled = rw (below.base, below.limit) is.filled;
}

-- The blocks behind a split block, whose first gets a new link back.
behind_split :
    (h : Heap) (a needed size : ℕ) (cs : List Cell) (end : ℕ)
    → a ≢ 0
    → (h.headers a).size ≡ size
    → (h.headers a).next ≡ link (a + size) cs
    → min_split ≤ size - needed
    → min_block ≤ needed
    → Chain h.headers h.footers a (a + size) cs end
    → Chain
        (take_block h a needed).headers
        (take_block h a needed).footers
        (a + needed)
        (a + size)
        cs
        end
behind_split h a needed size [] end nn es en big fits ch = ch
behind_split h a needed size (d ∷ ds) end nn es en big fits ch =
    let big' : min_split ≤ (h.headers a).size - needed = rw es big in
    let next =
      split-next h a needed big' fits (omega (arith, en)) (omega (arith, en, es))
        (omega (arith, en)) in
    Chain-set_prev h.headers (take_block h a needed).headers h.footers
      (take_block h a needed).footers a (a + needed) (a + size) d ds end ch
      (subst (λ x. (take_block h a needed).headers x ≡ record (h.headers x) { prev = a + needed })
        en next)
      (λ x lo hi.
        split-others h a needed big' fits x (omega arith) (omega arith) (inl (omega (arith, en))))
      (λ x lo hi.
        split-footers_others h a needed big' fits x (omega (arith, es)) (omega (arith, es)))

pub link-or : (a : ℕ) (cs : List Cell) → (link a cs ≡ 0) ⊎ (link a cs ≡ a)
link-or a [] = inl refl
link-or a (c ∷ cs) = inr refl

-- The header of the rest of a split block of the given size and link.
abbrev rest_header : ℕ → ℕ → ℕ → ℕ → Header
rest_header a needed size next = record {
  magic = kheap_magic;
  free = 1;
  size = size - needed;
  next = next;
  prev = a;
}

-- The rest of a split block in front of the blocks behind it.
split-Chain :
    (h : Heap) (prev a needed : ℕ) (c : Cell) (cs : List Cell) (end : ℕ)
    → a ≢ 0
    → FitsSize needed
    → min_split ≤ c.size - needed
    → Chain h.headers h.footers prev a (c ∷ cs) end
    → Chain
        (take_block h a needed).headers
        (take_block h a needed).footers
        prev
        a
        (record { size = needed; free = false }
          ∷ record { size = c.size - needed; free = true }
          ∷ cs)
        end
split-Chain h prev a needed c cs end nn fits some_rest (head, foot, cfits, rest) =
    let size : (h.headers a).size ≡ c.size = ap (λ (r : Header). r.size) head in
    let big : min_split ≤ (h.headers a).size - needed = rw size some_rest in
    let next : (h.headers a).next ≡ link (a + c.size) cs = ap (λ (r : Header). r.next) head in
    let at_end = link-or (a + c.size) cs in
    let (own, behind) = split-footers h a needed big fits.0 in
    let together : a + needed + (c.size - needed) ≡ a + c.size = omega arith in
    (
      split-here h a needed big fits.0 (omega (arith, next, at_end))
          ∙ ap (λ (r : Header). record r { free = 0; size = needed; next = a + needed }) head,
      own,
      fits,
      (
        split-rest h a needed big fits.0 (omega (arith, next, at_end))
            ∙ ap₂ (rest_header a needed) size (next ∙ ap (λ e. link e cs) (sym together)),
        subst
            (λ s.
              (take_block h a needed).footers (a + needed + (s - needed) - footer_size)
              ≡ record { size = s - needed; magic = kheap_magic })
            size behind,
        (omega arith, omega (arith, cfits, fits)),
        subst
            (λ e.
              Chain (take_block h a needed).headers (take_block h a needed).footers (a + needed) e
                cs end)
            (sym together)
            (behind_split h a needed c.size cs end nn size next some_rest fits.0 rest),
      ),
    )

take_block-whole :
    (h : Heap) (a needed : ℕ)
    → leb min_split ((h.headers a).size - needed) ≡ false
    → take_block h a needed ≡ with_header h a (λ r. record r { free = 0 })
unfolding take_block
take_block-whole h a needed small = rw small refl

-- A block taken whole.
whole-Chain :
    (h : Heap) (prev a needed : ℕ) (c : Cell) (cs : List Cell) (end : ℕ)
    → leb min_split (c.size - needed) ≡ false
    → Chain h.headers h.footers prev a (c ∷ cs) end
    → Chain
        (take_block h a needed).headers
        (take_block h a needed).footers
        prev
        a
        (record { size = c.size; free = false } ∷ cs)
        end
whole-Chain h prev a needed c cs end small (head, foot, cfits, rest) =
    let size : (h.headers a).size ≡ c.size = ap (λ (r : Header). r.size) head in
    let taken = with_header h a (λ r. record r { free = 0 }) in
    let e : take_block h a needed ≡ taken = take_block-whole h a needed (rw size small) in
    subst
      (λ (g : Heap).
        Chain g.headers g.footers prev a (record { size = c.size; free = false } ∷ cs) end)
      (sym e)
      (
        put_self h.headers a (record (h.headers a) { free = 0 })
            ∙ ap (λ (r : Header). record r { free = 0 }) head,
        foot,
        cfits,
        Chain-agree h.headers taken.headers h.footers taken.footers a (a + c.size) cs end
            (λ x lo hi.
              put_ne h.headers a x (record (h.headers a) { free = 0 }) (omega (arith, cfits)))
            (λ x lo hi. refl) rest,
      )

pub take_block-Chain :
    (h : Heap) (prev a needed : ℕ) (c : Cell) (cs : List Cell) (end : ℕ)
    → a ≢ 0
    → FitsSize needed
    → Chain h.headers h.footers prev a (c ∷ cs) end
    → Chain
        (take_block h a needed).headers
        (take_block h a needed).footers
        prev
        a
        (carve needed c cs)
        end
take_block-Chain h prev a needed c cs end nn fits ch =
    elim (Bool-cases (leb min_split (c.size - needed))) [
      | inl big ↦ rw big (split-Chain h prev a needed c cs end nn fits (ground arith) ch)
      | inr small ↦ rw small (whole-Chain h prev a needed c cs end small ch)
    ]

pub take_block-SameBelow :
    (h : Heap) (a needed : ℕ)
    → min_block ≤ needed
    → min_block ≤ (h.headers a).size
    → ((h.headers a).next ≡ 0) ⊎ (a < (h.headers a).next)
    → SameBelow a h (take_block h a needed)
unfolding take_block
take_block-SameBelow h a needed fits big up = record {
  headers = λ x lt. ground arith;
  footers = λ x lt. ground arith;
  start = ground arith;
  base = ground arith;
  limit = ground arith;
}
