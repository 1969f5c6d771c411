-- ===== src/Mm/Kheap/Restore.antt =====
-- kernel/mm/kheap.c: on lists of blocks, freeing a block that was just taken gives the list back, and
-- taking one leaves no free neighbours.
use grace_os.Prelude.{
  ℕ, ◌+◌, ◌-◌, ◌≤◌, ◌≡◌, refl, sym, ap, ◌∙◌, subst, inl, inr, true, false, ◌&&◌, Option, none, some,
  List, [], ◌∷◌, arith, ℕ_discrete, leb, if◌then◌else◌, Bool-cases,
}
use grace_os.Mm.Kheap.{min_split}
use grace_os.Mm.Kheap.Cells.{Cell}
use grace_os.Mm.Kheap.Take.{carve}
use grace_os.Mm.Kheap.Malloc.{behind, alloc_cells}
use grace_os.Mm.Kheap.Free.{join, freed, free_cells}
use grace_os.Mm.Kheap.Kfree.{free_cells-first, free_cells-later}
use grace_os.Mm.Kheap.Coalesce.{
  Coalesced, Coalesced-tail, starts_free, Coalesced-cons, Coalesced-starts, join-apart,
  free_cells-join, AllFit,
}

-- One step of the search on the list.
pub alloc_cells-fit :
    (needed a : ℕ) (c : Cell) (cs : List Cell)
    → (c.free && leb needed c.size) ≡ true
    → alloc_cells needed a (c ∷ cs) ≡ some (a, carve needed c cs)
unfolding alloc_cells
alloc_cells-fit needed a c cs fit = rw fit refl

pub alloc_cells-later :
    (needed a : ℕ) (c : Cell) (cs : List Cell) (p : ℕ) (ds : List Cell)
    → (c.free && leb needed c.size) ≡ false
    → alloc_cells needed a (c ∷ cs) ≡ some (p, ds)
    → (es : List Cell) × (alloc_cells needed (a + c.size) cs ≡ some (p, es)) × (ds ≡ c ∷ es)
unfolding alloc_cells
alloc_cells-later needed a c cs p ds unfit e =
    go (alloc_cells needed (a + c.size) cs) refl (rw unfit at e)
  where
    go :
        (o : Option (ℕ × List Cell))
        → alloc_cells needed (a + c.size) cs ≡ o
        → behind c o ≡ some (p, ds)
        → (es : List Cell) × (alloc_cells needed (a + c.size) cs ≡ some (p, es)) × (ds ≡ c ∷ es)
    go none is h = absurd (ground arith)
    go (some (q, es)) is h = (es, is ∙ ground (arith, h), ground (arith, h))

abbrev pub address : Option (ℕ × List Cell) → ℕ
address none = 0
address (some (p, ds)) = p

abbrev pub blocks : Option (ℕ × List Cell) → List Cell
blocks none = []
blocks (some (p, ds)) = ds

pub alloc_cells-le :
    (a needed : ℕ) (cs : List Cell) (p : ℕ) (ds : List Cell)
    → alloc_cells needed a cs ≡ some (p, ds)
    → a ≤ p
alloc_cells-le a needed [] p ds e = absurd (unfold alloc_cells in ground arith)
alloc_cells-le a needed (c ∷ cs) p ds e = elim (Bool-cases (c.free && leb needed c.size)) [
  | inl fit ↦ omega (arith, ap (λ o. address o) (sym (alloc_cells-fit needed a c cs fit) ∙ e))
  | inr unfit ↦
      let (es, later, is) = alloc_cells-later needed a c cs p ds unfit e in
      omega (arith, alloc_cells-le (a + c.size) needed cs p es later)
]

-- The block that was carved, given back.
free-carve :
    (needed a : ℕ) (c : Cell) (cs : List Cell)
    → (c.free && leb needed c.size) ≡ true
    → Coalesced (c ∷ cs)
    → free_cells a a (carve needed c cs) ≡ c ∷ cs
free-carve needed a c cs fit k = elim (Bool-cases (leb min_split (c.size - needed))) [
  | inl big ↦
      ap (λ t. free_cells a a (if t then taken else whole)) big
      ∙ (free_cells-first a (record { size = needed; free = false }) _ ∙ ground (arith, fit))
  | inr small ↦
      ap (λ t. free_cells a a (if t then taken else whole)) small
      ∙ (free_cells-first a (record { size = c.size; free = false }) cs
          ∙ (join-apart (freed c) cs (ground (arith, Coalesced-starts c cs k, fit))
              ∙ ground (arith, fit)))
]
  where
    taken : List Cell
    taken =
        record { size = needed; free = false } ∷ record { size = c.size - needed; free = true } ∷ cs

    whole : List Cell
    whole = record { size = c.size; free = false } ∷ cs

-- Taking a block and freeing it again gives the list back.
pub free-alloc_cells :
    (needed a : ℕ) (cs : List Cell) (p : ℕ) (ds : List Cell)
    → AllFit cs
    → Coalesced cs
    → alloc_cells needed a cs ≡ some (p, ds)
    → free_cells p a ds ≡ cs
free-alloc_cells needed a [] p ds fits k e = absurd (unfold alloc_cells in ground arith)
free-alloc_cells needed a (c ∷ cs) p ds fits k e = elim (Bool-cases (c.free && leb needed c.size)) [
  | inl fit ↦
      let same = sym (alloc_cells-fit needed a c cs fit) ∙ e in
      let at_a : a ≡ p = ap address same in
      let is : carve needed c cs ≡ ds = ap blocks same in
      subst (λ q. free_cells q a ds ≡ c ∷ cs) at_a
        (subst (λ xs. free_cells a a xs ≡ c ∷ cs) is (free-carve needed a c cs fit k))
  | inr unfit ↦
      let (es, later, is) = alloc_cells-later needed a c cs p ds unfit e in
      let le = alloc_cells-le (a + c.size) needed cs p es later in
      let ih = free-alloc_cells needed (a + c.size) cs p es fits.1 (Coalesced-tail c cs k) later in
      subst (λ xs. free_cells p a xs ≡ c ∷ cs) (sym is)
        (elim (ℕ_discrete p (a + c.size)) [
          | yes at_b ↦
              subst (λ q. free_cells q a (c ∷ es) ≡ c ∷ cs) (sym at_b)
                (free_cells-join a c es fits.0
                  ∙ (ap (join c) (subst (λ q. free_cells q (a + c.size) es ≡ cs) at_b ih)
                      ∙ join-apart c cs (Coalesced-starts c cs k)))
          | no ne ↦ free_cells-later p a c es (omega (arith, le, fits.0)) ne ∙ ap (◌∷◌ c) ih
        ])
]

carve-Coalesced :
    (needed : ℕ) (c : Cell) (cs : List Cell)
    → Coalesced (c ∷ cs)
    → c.free ≡ true
    → Coalesced (carve needed c cs)
carve-Coalesced needed c cs k free = elim (Bool-cases (leb min_split (c.size - needed))) [
  | inl big ↦ rw big (
    refl,
    Coalesced-cons (record { size = c.size - needed; free = true }) cs
        (ground (arith, Coalesced-starts c cs k, free)) (Coalesced-tail c cs k),
  )
  | inr small ↦
      rw small
        (Coalesced-cons (record { size = c.size; free = false }) cs refl (Coalesced-tail c cs k))
]

starts_free-alloc_cells :
    (needed a : ℕ) (cs : List Cell) (p : ℕ) (ds : List Cell)
    → alloc_cells needed a cs ≡ some (p, ds)
    → starts_free cs ≡ false
    → starts_free ds ≡ false
starts_free-alloc_cells needed a [] p ds e h = absurd (unfold alloc_cells in ground arith)
starts_free-alloc_cells needed a (c ∷ cs) p ds e h =
    let unfit : (c.free && leb needed c.size) ≡ false = ground (arith, h) in
    let (es, later, is) = alloc_cells-later needed a c cs p ds unfit e in ap starts_free is ∙ h

pub alloc_cells-Coalesced :
    (needed a : ℕ) (cs : List Cell) (p : ℕ) (ds : List Cell)
    → alloc_cells needed a cs ≡ some (p, ds)
    → Coalesced cs
    → Coalesced ds
alloc_cells-Coalesced needed a [] p ds e k = absurd (unfold alloc_cells in ground arith)
alloc_cells-Coalesced needed a (c ∷ cs) p ds e k = elim (Bool-cases (c.free && leb needed c.size)) [
  | inl fit ↦
      subst Coalesced (ap blocks (sym (alloc_cells-fit needed a c cs fit) ∙ e))
        (carve-Coalesced needed c cs k (ground (arith, fit)))
  | inr unfit ↦
      let (es, later, is) = alloc_cells-later needed a c cs p ds unfit e in
      let k' = alloc_cells-Coalesced needed (a + c.size) cs p es later (Coalesced-tail c cs k) in
      subst Coalesced (sym is) (
        Coalesced-cons c es
          (elim (Bool-cases c.free) [
            | inl free ↦ ground (
              arith,
              free,
              starts_free-alloc_cells needed (a + c.size) cs p es later,
              Coalesced-starts c cs k,
            )
            | inr used ↦ ground (arith, used)
          ])
          k')
]
