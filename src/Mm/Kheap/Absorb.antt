-- ===== src/Mm/Kheap/Absorb.antt =====
-- kernel/mm/kheap.c: a block takes in the block behind it.
use grace_os.Prelude.{
  ℕ, ◌+◌, ◌-◌, ◌%◌, ◌^◌, ◌<◌, ◌≡◌, ap, ◌∙◌, ap₂, subst, ◌≢◌, ◌⊎◌, inl, inr, List, [], ◌∷◌, arith,
  ◌==◌, if◌then◌else◌,
}
use grace_os.Mm.Kheap.{Header, Heap, kheap_magic, footer_size, absorb}
use grace_os.Mm.Kheap.Cells.{Cell, link, Chain, Chain-le, Chain-set_prev}
use grace_os.Mm.Kheap.Take.{SameBelow, link-or}

module _ (h : Heap) (a b : ℕ) (apart : (h.headers b).next ≢ a) where
  absorb-here : (absorb h a b).headers a ≡ record (h.headers a) {
    size = ((h.headers a).size + (h.headers b).size) % 2 ^ 64;
    next = (h.headers b).next;
  }
  unfolding absorb
  absorb-here = ground arith

  absorb-next :
      (h.headers b).next ≢ 0
      → (absorb h a b).headers (h.headers b).next
        ≡ record (h.headers (h.headers b).next) { prev = a }
  unfolding absorb
  absorb-next nn = ground arith

  absorb-others :
      (x : ℕ)
      → x ≢ a
      → (x ≢ (h.headers b).next) ⊎ ((h.headers b).next ≡ 0)
      → (absorb h a b).headers x ≡ h.headers x
  unfolding absorb
  absorb-others x ne ne' = ground arith

  absorb-footers :
      (x : ℕ)
      → (absorb h a b).footers x ≡ (
          if a + ((h.headers a).size + (h.headers b).size) % 2 ^ 64 - footer_size == x
          then record {
            size = ((h.headers a).size + (h.headers b).size) % 2 ^ 64;
            magic = kheap_magic;
          }
          else h.footers x)
  unfolding absorb
  absorb-footers x = ground arith

  absorb-bounds :
      ((absorb h a b).heap_start ≡ h.heap_start)
      × ((absorb h a b).heap_base ≡ h.heap_base)
      × ((absorb h a b).heap_limit ≡ h.heap_limit)
  unfolding absorb
  absorb-bounds = ground arith

-- The blocks behind the block taken in.
behind_absorbed :
    (h : Heap) (a b q : ℕ) (cs : List Cell) (end : ℕ)
    → a ≢ 0
    → a < b
    → b < q
    → (h.headers b).next ≡ link q cs
    → a + ((h.headers a).size + (h.headers b).size) % 2 ^ 64 ≡ q
    → Chain h.headers h.footers b q cs end
    → Chain (absorb h a b).headers (absorb h a b).footers a q cs end
behind_absorbed h a b q [] end nn lt lt' en es ch = ch
behind_absorbed h a b q (d ∷ ds) end nn lt lt' en es ch =
    let apart : (h.headers b).next ≢ a = omega (arith, en) in
    let next = absorb-next h a b apart (omega (arith, en)) in
    Chain-set_prev h.headers (absorb h a b).headers h.footers (absorb h a b).footers b a q d ds end
      ch (subst (λ x. (absorb h a b).headers x ≡ record (h.headers x) { prev = a }) en next)
      (λ x lo hi. absorb-others h a b apart x (omega arith) (inl (omega (arith, en))))
      (λ x lo hi. absorb-footers h a b apart x ∙ ground (arith, es))

-- Two neighbours as one block.
abbrev pub joined : Cell → Cell → Cell
joined c d = record { size = c.size + d.size; free = c.free }

abbrev resized : Header → ℕ → ℕ → Header
resized r size next = record r { size = size; next = next }

-- The two blocks become one, and nothing below them changes.
pub absorb-Chain :
    (h : Heap) (prev a : ℕ) (c d : Cell) (ds : List Cell) (end : ℕ)
    → a ≢ 0
    → end < 2 ^ 64
    → Chain h.headers h.footers prev a (c ∷ d ∷ ds) end
    → Chain
        (absorb h a (a + c.size)).headers
        (absorb h a (a + c.size)).footers
        prev
        a
        (joined c d ∷ ds)
        end
      × SameBelow a h (absorb h a (a + c.size))
absorb-Chain h prev a c d ds end nn small (head, foot, fits, (dhead, dfoot, dfits, rest)) =
    let b = a + c.size in
    let le = Chain-le h.headers h.footers b (b + d.size) ds end rest in
    let size : (h.headers a).size ≡ c.size = ap (λ (r : Header). r.size) head in
    let dsize : (h.headers b).size ≡ d.size = ap (λ (r : Header). r.size) dhead in
    let next : (h.headers b).next ≡ link (b + d.size) ds = ap (λ (r : Header). r.next) dhead in
    let at_end = link-or (b + d.size) ds in
    let apart : (h.headers b).next ≢ a = omega (arith, next, at_end, dfits) in
    let sum : ((h.headers a).size + (h.headers b).size) % 2 ^ 64 ≡ c.size + d.size =
      omega (arith, size, dsize, le) in
    let assoc : a + c.size + d.size ≡ a + (c.size + d.size) = omega arith in
    let bounds = absorb-bounds h a b apart in
    (
      (
        absorb-here h a b apart
            ∙ (ap₂ (resized (h.headers a)) sum (next ∙ ap (λ q. link q ds) assoc)
                ∙ ap (λ r. resized r (c.size + d.size) (link (a + (c.size + d.size)) ds)) head),
        absorb-footers h a b apart (a + (c.size + d.size) - footer_size) ∙ ground (arith, sum),
        (omega (arith, fits), omega (arith, fits, dfits)),
        subst (λ q. Chain (absorb h a b).headers (absorb h a b).footers a q ds end) assoc
            (behind_absorbed h a b (b + d.size) ds end nn (omega (arith, fits))
              (omega (arith, dfits)) next (omega (arith, sum)) rest),
      ),
      record {
        headers = λ x lt.
            absorb-others h a b apart x (omega arith)
              (elim at_end [ inl e ↦ inr (next ∙ e) | inr e ↦ inl (omega (arith, next, e)) ]);
        footers = λ x lt. absorb-footers h a b apart x ∙ ground (arith, sum, fits);
        start = bounds.0;
        base = bounds.1;
        limit = bounds.2;
      },
    )
