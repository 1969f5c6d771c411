-- ===== src/Mm/Kheap/Cells.antt =====
-- kernel/mm/kheap.c: the heap as the list of its blocks, which lie one behind the other.
use grace_os.Prelude.{
  ℕ, ◌+◌, ◌-◌, ◌*◌, ◌%◌, ◌^◌, ◌≤◌, ◌<◌, ◌≡◌, refl, ap, ◌∙◌, ◌≢◌, Bool, true, false, List, [], ◌∷◌,
  arith, ==_self, ==_ne, length,
}
use grace_os.Mm.Kheap.{Header, Footer, Heap, kheap_magic, footer_size, min_block, block_valid}

pub record Cell : Type 0 where
  pub size : ℕ
  pub free : Bool

abbrev pub flag : Bool → ℕ
flag true = 1
flag false = 0

-- The link to the blocks `cs` at `a`: null if there are none.
abbrev pub link : ℕ → List Cell → ℕ
link a [] = 0
link a (c ∷ cs) = a

abbrev pub header_of : ℕ → ℕ → Cell → List Cell → Header
header_of prev a c cs = record {
  magic = kheap_magic;
  free = flag c.free;
  size = c.size;
  next = link (a + c.size) cs;
  prev = prev;
}

abbrev pub footer_for : Cell → Footer
footer_for c = record { size = c.size; magic = kheap_magic }

-- A block can hold its header and footer, and keeps the alignment.
abbrev pub FitsSize : ℕ → Type 0
FitsSize n = (min_block ≤ n) × (n % 8 ≡ 0)

-- The blocks `cs` lie from `a` up to `end`, linked both ways, with their footers.
abbrev pub Chain : (ℕ → Header) → (ℕ → Footer) → ℕ → ℕ → List Cell → ℕ → Type 0
Chain hs fs prev a [] end = a ≡ end
Chain hs fs prev a (c ∷ cs) end =
    (hs a ≡ header_of prev a c cs)
    × (fs (a + c.size - footer_size) ≡ footer_for c)
    × FitsSize c.size
    × Chain hs fs a (a + c.size) cs end

abbrev pub InRange : ℕ → ℕ → ℕ → Type 0
InRange lo hi x = (lo ≤ x) × (x < hi)

pub Chain-le :
    (hs : ℕ → Header) (fs : ℕ → Footer) (prev a : ℕ) (cs : List Cell) (end : ℕ)
    → Chain hs fs prev a cs end
    → a ≤ end
Chain-le hs fs prev a [] end ch = omega (arith, ch)
Chain-le hs fs prev a (c ∷ cs) end ch = omega (arith, Chain-le hs fs a (a + c.size) cs end ch.3)

-- Writes outside of the blocks do not matter.
pub Chain-agree :
    (hs hs' : ℕ → Header) (fs fs' : ℕ → Footer) (prev a : ℕ) (cs : List Cell) (end : ℕ)
    → ((x : ℕ) → a ≤ x → x < end → hs' x ≡ hs x)
    → ((x : ℕ) → a ≤ x → x < end → fs' x ≡ fs x)
    → Chain hs fs prev a cs end
    → Chain hs' fs' prev a cs end
Chain-agree hs hs' fs fs' prev a [] end same_h same_f ch = ch
Chain-agree hs hs' fs fs' prev a (c ∷ cs) end same_h same_f (head, foot, fits, rest) =
    let le = Chain-le hs fs a (a + c.size) cs end rest in
    (
      same_h a (omega arith) (omega (arith, le, fits)) ∙ head,
      same_f (a + c.size - footer_size) (omega (arith, fits)) (omega (arith, le, fits)) ∙ foot,
      fits,
      Chain-agree hs hs' fs fs' a (a + c.size) cs end (λ x lo hi. same_h x (omega arith) hi)
          (λ x lo hi. same_f x (omega arith) hi) rest,
    )

-- The first block's link back is changed.
pub Chain-set_prev :
    (hs hs' : ℕ → Header) (fs fs' : ℕ → Footer) (prev prev' a : ℕ) (c : Cell) (cs : List Cell)
    (end : ℕ)
    → Chain hs fs prev a (c ∷ cs) end
    → hs' a ≡ record (hs a) { prev = prev' }
    → ((x : ℕ) → a < x → x < end → hs' x ≡ hs x)
    → ((x : ℕ) → a ≤ x → x < end → fs' x ≡ fs x)
    → Chain hs' fs' prev' a (c ∷ cs) end
Chain-set_prev hs hs' fs fs' prev prev' a c cs end (head, foot, fits, rest) first same_h same_f =
    let le = Chain-le hs fs a (a + c.size) cs end rest in
    (
      first ∙ ap (λ (r : Header). record r { prev = prev' }) head,
      same_f (a + c.size - footer_size) (omega (arith, fits)) (omega (arith, le, fits)) ∙ foot,
      fits,
      Chain-agree hs hs' fs fs' a (a + c.size) cs end (λ x lo hi. same_h x (omega (arith, fits)) hi)
          (λ x lo hi. same_f x (omega arith) hi) rest,
    )

-- The first block of a chain is valid.
pub Chain-valid :
    (h : Heap) (prev a : ℕ) (c : Cell) (cs : List Cell) (end : ℕ)
    → a ≢ 0
    → Chain h.headers h.footers prev a (c ∷ cs) end
    → block_valid h a ≡ true
unfolding block_valid
Chain-valid h prev a c cs end ne (head, foot, fits, rest) =
    rw (head, foot, ==_ne a 0 ne, ==_self c.size) refl

-- The blocks fill the heap from its base to its limit, and every two neighbours are linked.
pub record IsHeap (h : Heap) (cs : List Cell) : Type 0 where
  pub chain : Chain h.headers h.footers 0 h.heap_base cs h.heap_limit
  pub starts : h.heap_start ≡ h.heap_base
  pub based : 0 < h.heap_base
  pub aligned : h.heap_base % 8 ≡ 0
  pub bounded : h.heap_limit < 2 ^ 64
  pub filled : h.heap_base < h.heap_limit

-- A walk meets fewer blocks than its fuel.
pub length-Chain :
    (hs : ℕ → Header) (fs : ℕ → Footer) (prev a : ℕ) (cs : List Cell) (end : ℕ)
    → Chain hs fs prev a cs end
    → length cs * min_block + a ≤ end
length-Chain hs fs prev a [] end ch = omega (arith, ch)
length-Chain hs fs prev a (c ∷ cs) end (head, foot, fits, rest) =
    omega (arith, fits, length-Chain hs fs a (a + c.size) cs end rest)
