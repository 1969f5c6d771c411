-- ===== src/Mm/Kheap/Blocks.antt =====
-- kernel/mm/kheap.c: where the blocks of a list lie, before and after one of them is taken.
use grace_os.Prelude.{
  ℕ, ◌+◌, ◌-◌, ◌%◌, ◌≤◌, ◌<◌, ◌≡◌, refl, sym, ap, ◌∙◌, ap₂, subst, ◌≢◌, inl, inr, Bool, true, false,
  ◌&&◌, some, List, [], ◌∷◌, arith, ℕ_discrete, leb, if◌then◌else◌, ==_self, ==_ne, Bool-cases,
}
use grace_os.Mm.Kheap.{Header, Footer, min_split}
use grace_os.Mm.Kheap.Cells.{Cell, Chain, Chain-le}
use grace_os.Mm.Kheap.Take.{carve}
use grace_os.Mm.Kheap.Malloc.{alloc_cells}
use grace_os.Mm.Kheap.Free.{block_at}
use grace_os.Mm.Kheap.Kfree.{block_at-le}
use grace_os.Mm.Kheap.Coalesce.{AllFit}
use grace_os.Mm.Kheap.Restore.{address, blocks, alloc_cells-fit, alloc_cells-later, alloc_cells-le}

pub Chain-AllFit :
    (hs : ℕ → Header) (fs : ℕ → Footer) (prev a : ℕ) (cs : List Cell) (end : ℕ)
    → Chain hs fs prev a cs end
    → AllFit cs
Chain-AllFit hs fs prev a [] end ch = tt
Chain-AllFit hs fs prev a (c ∷ cs) end ch =
    (omega (arith, ch.2), Chain-AllFit hs fs a (a + c.size) cs end ch.3)

block_at-here : (a : ℕ) (c : Cell) (cs : List Cell) → block_at a a (c ∷ cs) ≡ some c
unfolding block_at
block_at-here a c cs = rw (==_self a) refl

block_at-later :
    (p a : ℕ) (c : Cell) (cs : List Cell)
    → p ≢ a
    → block_at p a (c ∷ cs) ≡ block_at p (a + c.size) cs
unfolding block_at
block_at-later p a c cs ne = rw (==_ne p a ne) refl

-- The blocks of a chain lie within it, at aligned addresses.
pub block_at-within :
    (hs : ℕ → Header) (fs : ℕ → Footer) (prev a : ℕ) (cs : List Cell) (end p : ℕ) (d : Cell)
    → a % 8 ≡ 0
    → Chain hs fs prev a cs end
    → block_at p a cs ≡ some d
    → (p % 8 ≡ 0) × (p + d.size ≤ end)
block_at-within hs fs prev a [] end p d al ch e = absurd (unfold block_at in ground arith)
block_at-within hs fs prev a (c ∷ cs) end p d al ch e = elim (ℕ_discrete p a) [
  | yes same ↦
      let is : c ≡ d = unfold block_at in ground (arith, e, same) in
      let size = ap (λ (x : Cell). x.size) is in
      (omega arith, omega (arith, size, Chain-le hs fs a (a + c.size) cs end ch.3))
  | no ne ↦
      block_at-within hs fs a (a + c.size) cs end p d (omega (arith, ch.2)) ch.3
        (sym (block_at-later p a c cs ne) ∙ e)
]

-- Two blocks do not overlap.
pub block_at-apart :
    (a : ℕ) (cs : List Cell) (p q : ℕ) (d e : Cell)
    → block_at p a cs ≡ some d
    → block_at q a cs ≡ some e
    → p < q
    → p + d.size ≤ q
block_at-apart a [] p q d e at_p at_q lt = absurd (unfold block_at in ground arith)
block_at-apart a (c ∷ cs) p q d e at_p at_q lt =
    let le = block_at-le p a (c ∷ cs) d at_p in
    let at_q' = sym (block_at-later q a c cs (omega (arith, le))) ∙ at_q in
    elim (ℕ_discrete p a) [
      | yes same ↦
          let is : c ≡ d = unfold block_at in ground (arith, at_p, same) in
          omega (arith, ap (λ (x : Cell). x.size) is, block_at-le q (a + c.size) cs e at_q')
      | no ne ↦
          block_at-apart (a + c.size) cs p q d e (sym (block_at-later p a c cs ne) ∙ at_p) at_q' lt
    ]

-- The block taken is in use and large enough.
pub alloc_cells-taken :
    (needed a : ℕ) (cs : List Cell) (p : ℕ) (ds : List Cell)
    → AllFit cs
    → alloc_cells needed a cs ≡ some (p, ds)
    → (d : Cell) × (block_at p a ds ≡ some d) × (d.free ≡ false) × (needed ≤ d.size)
alloc_cells-taken needed a [] p ds fits e = absurd (unfold alloc_cells in ground arith)
alloc_cells-taken needed a (c ∷ cs) p ds fits e = elim (Bool-cases (c.free && leb needed c.size)) [
  | inl fit ↦
      let same = sym (alloc_cells-fit needed a c cs fit) ∙ e in
      subst (λ (o : ℕ × List Cell). Taken o.0 o.1)
        (ap₂ (λ q xs. (q, xs)) (ap address same) (ap blocks same))
        (first (leb min_split (c.size - needed)) (ground (arith, fit)))
  | inr unfit ↦
      let (es, later, is) = alloc_cells-later needed a c cs p ds unfit e in
      let le = alloc_cells-le (a + c.size) needed cs p es later in
      let (d, at_p, used, big) = alloc_cells-taken needed (a + c.size) cs p es fits.1 later in
      (
        d,
        ap (block_at p a) is ∙ (block_at-later p a c es (omega (arith, le, fits.0)) ∙ at_p),
        used,
        big,
      )
]
  where
    Taken : ℕ → List Cell → Type 0
    Taken q xs = (d : Cell) × (block_at q a xs ≡ some d) × (d.free ≡ false) × (needed ≤ d.size)

    first :
        (t : Bool)
        → needed ≤ c.size
        → Taken a (
            if t
            then record { size = needed; free = false }
              ∷ record { size = c.size - needed; free = true }
              ∷ cs
            else record { size = c.size; free = false } ∷ cs)
    first true le = (record { size = needed; free = false }, block_at-here a _ _, refl, omega arith)
    first false le = (record { size = c.size; free = false }, block_at-here a _ _, refl, le)

-- It was a free block.
pub alloc_cells-was_free :
    (needed a : ℕ) (cs : List Cell) (p : ℕ) (ds : List Cell)
    → AllFit cs
    → alloc_cells needed a cs ≡ some (p, ds)
    → (c : Cell) × (block_at p a cs ≡ some c) × (c.free ≡ true)
alloc_cells-was_free needed a [] p ds fits e = absurd (unfold alloc_cells in ground arith)
alloc_cells-was_free needed a (c ∷ cs) p ds fits e =
    elim (Bool-cases (c.free && leb needed c.size)) [
      | inl fit ↦
          let at_a = ap address (sym (alloc_cells-fit needed a c cs fit) ∙ e) in
          (
            c,
            subst (λ q. block_at q a (c ∷ cs) ≡ some c) at_a (block_at-here a c cs),
            ground (arith, fit),
          )
      | inr unfit ↦
          let (es, later, is) = alloc_cells-later needed a c cs p ds unfit e in
          let le = alloc_cells-le (a + c.size) needed cs p es later in
          let (d, at_p, free) = alloc_cells-was_free needed (a + c.size) cs p es fits.1 later in
          (d, block_at-later p a c cs (omega (arith, le, fits.0)) ∙ at_p, free)
    ]

-- The blocks behind a carved one.
carve-behind :
    (needed a : ℕ) (c : Cell) (cs : List Cell) (q : ℕ) (e : Cell)
    → needed ≤ c.size
    → a < q
    → block_at q (a + c.size) cs ≡ some e
    → block_at q a (carve needed c cs) ≡ some e
carve-behind needed a c cs q e le lt at_q =
    let above = block_at-le q (a + c.size) cs e at_q in
    elim (Bool-cases (leb min_split (c.size - needed))) [
      | inr small ↦
          ap (λ t. block_at q a (if t then two else one)) small
          ∙ (block_at-later q a (record { size = c.size; free = false }) cs (omega arith) ∙ at_q)
      | inl big ↦
          let together : a + needed + (c.size - needed) ≡ a + c.size = omega arith in
          ap (λ t. block_at q a (if t then two else one)) big
          ∙ (block_at-later q a (record { size = needed; free = false }) _ (omega arith)
              ∙ (block_at-later q (a + needed) (record { size = c.size - needed; free = true }) cs
                    (λ same. absurd (rest_positive big (omega (arith, same, above))))
                  ∙ (ap (λ b. block_at q b cs) together ∙ at_q)))
    ]
  where
    two : List Cell
    two =
        record { size = needed; free = false } ∷ record { size = c.size - needed; free = true } ∷ cs

    one : List Cell
    one = record { size = c.size; free = false } ∷ cs

    rest_positive : leb min_split (c.size - needed) ≡ true → ¬ (c.size ≤ needed)
    rest_positive big small = ground (arith, big, small)

-- The blocks in use stay where and what they are.
pub alloc_cells-kept :
    (needed a : ℕ) (cs : List Cell) (p : ℕ) (ds : List Cell) (q : ℕ) (e : Cell)
    → AllFit cs
    → alloc_cells needed a cs ≡ some (p, ds)
    → block_at q a cs ≡ some e
    → e.free ≡ false
    → block_at q a ds ≡ some e
alloc_cells-kept needed a [] p ds q e fits run at_q used =
    absurd (unfold alloc_cells in ground arith)
alloc_cells-kept needed a (c ∷ cs) p ds q e fits run at_q used =
    elim (Bool-cases (c.free && leb needed c.size)) [
      | inl fit ↦
          let is : carve needed c cs ≡ ds =
            ap blocks (sym (alloc_cells-fit needed a c cs fit) ∙ run) in
          let ne : q ≢ a = λ same. taken_free same (ground (arith, fit)) in
          let at_q' = sym (block_at-later q a c cs ne) ∙ at_q in
          ap (block_at q a) (sym is)
          ∙ carve-behind needed a c cs q e (ground (arith, fit))
              (omega (arith, block_at-le q (a + c.size) cs e at_q', fits.0)) at_q'
      | inr unfit ↦
          let (es, later, is) = alloc_cells-later needed a c cs p ds unfit run in
          ap (block_at q a) is ∙ elim (ℕ_discrete q a) [
            | yes same ↦
                subst (λ x. block_at x a (c ∷ es) ≡ some e) (sym same)
                  (block_at-here a c es
                    ∙ (sym (block_at-here a c cs)
                        ∙ subst (λ x. block_at x a (c ∷ cs) ≡ some e) same at_q))
            | no ne ↦
                block_at-later q a c es ne
                ∙ alloc_cells-kept needed (a + c.size) cs p es q e fits.1 later
                    (sym (block_at-later q a c cs ne) ∙ at_q) used
          ]
    ]
  where
    taken_free : q ≡ a → ¬ (c.free ≡ true)
    taken_free same free =
        let at_a = subst (λ x. block_at x a (c ∷ cs) ≡ some e) same at_q in
        let is : some c ≡ some e = sym (block_at-here a c cs) ∙ at_a in
        let is' : c ≡ e = cc in cc (free, ap (λ (x : Cell). x.free) is', used)
