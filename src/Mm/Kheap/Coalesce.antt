-- ===== src/Mm/Kheap/Coalesce.antt =====
-- kernel/mm/kheap.c: on lists of blocks, free neighbours stay joined when a block is freed.
use grace_os.Prelude.{
  ℕ, ◌+◌, ◌<◌, ◌≡◌, refl, sym, ap, ◌∙◌, subst, ◌≢◌, inl, inr, Bool, true, false, ◌&&◌, List, [],
  ◌∷◌, arith, ℕ_discrete, if◌then◌else◌, Bool-cases,
}
use grace_os.Mm.Kheap.Cells.{Cell}
use grace_os.Mm.Kheap.Free.{join, freed, free_cells}
use grace_os.Mm.Kheap.Absorb.{joined}
use grace_os.Mm.Kheap.Kfree.{free_cells-first, free_cells-later}

-- No two neighbours are free.
abbrev pub Coalesced : List Cell → Type 0
Coalesced [] = Unit {0}
Coalesced (c ∷ []) = Unit {0}
Coalesced (c ∷ d ∷ ds) = ((c.free && d.free) ≡ false) × Coalesced (d ∷ ds)

pub Coalesced-tail : (c : Cell) (cs : List Cell) → Coalesced (c ∷ cs) → Coalesced cs
Coalesced-tail c [] k = tt
Coalesced-tail c (d ∷ ds) k = k.1

-- The first of the list is free, if there is one.
abbrev pub starts_free : List Cell → Bool
starts_free [] = false
starts_free (c ∷ cs) = c.free

pub Coalesced-cons :
    (c : Cell) (cs : List Cell)
    → (c.free && starts_free cs) ≡ false
    → Coalesced cs
    → Coalesced (c ∷ cs)
Coalesced-cons c [] h k = tt
Coalesced-cons c (d ∷ ds) h k = (h, k)

pub Coalesced-starts :
    (c : Cell) (cs : List Cell) → Coalesced (c ∷ cs) → (c.free && starts_free cs) ≡ false
Coalesced-starts c [] k = ground arith
Coalesced-starts c (d ∷ ds) k = k.0

join-joined :
    (c d : Cell) (ds : List Cell) → (c.free && d.free) ≡ true → join c (d ∷ ds) ≡ joined c d ∷ ds
join-joined c d ds e = ap (λ t. if t then joined c d ∷ ds else c ∷ d ∷ ds) e

pub join-apart :
    (c : Cell) (cs : List Cell) → (c.free && starts_free cs) ≡ false → join c cs ≡ c ∷ cs
join-apart c [] e = refl
join-apart c (d ∷ ds) e = ap (λ t. if t then joined c d ∷ ds else c ∷ d ∷ ds) e

join-Coalesced : (c : Cell) (cs : List Cell) → Coalesced cs → Coalesced (join c cs)
join-Coalesced c [] k = tt
join-Coalesced c (d ∷ ds) k = elim (Bool-cases (c.free && d.free)) [
  | inl e ↦ subst Coalesced (sym (join-joined c d ds e)) (
      Coalesced-cons (joined c d) ds (ground (arith, Coalesced-starts d ds k, e))
        (Coalesced-tail d ds k))
  | inr e ↦ subst Coalesced (sym (join-apart c (d ∷ ds) e)) (e, k)
]

starts_free-join : (c : Cell) (cs : List Cell) → starts_free (join c cs) ≡ c.free
starts_free-join c [] = refl
starts_free-join c (d ∷ ds) = ground arith

-- Elsewhere than at the first block, the first keeps its state.
starts_free-free_cells :
    (p a : ℕ) (cs : List Cell) → p ≢ a → starts_free (free_cells p a cs) ≡ starts_free cs
unfolding free_cells
starts_free-free_cells p a [] ne = refl
starts_free-free_cells p a (c ∷ cs) ne =
    ground (arith, starts_free-join c (free_cells p (a + c.size) cs))

pub free_cells-join :
    (a : ℕ) (c : Cell) (cs : List Cell)
    → 0 < c.size
    → free_cells (a + c.size) a (c ∷ cs) ≡ join c (free_cells (a + c.size) (a + c.size) cs)
unfolding free_cells
free_cells-join a c cs pos = ground arith

-- Every block takes some room.
abbrev pub AllFit : List Cell → Type 0
AllFit [] = Unit {0}
AllFit (c ∷ cs) = (0 < c.size) × AllFit cs

pub free_cells-Coalesced :
    (p a : ℕ) (cs : List Cell) → AllFit cs → Coalesced cs → Coalesced (free_cells p a cs)
free_cells-Coalesced p a [] fit k = unfold free_cells in tt
free_cells-Coalesced p a (c ∷ cs) fit k =
    let b = a + c.size in
    let ih = free_cells-Coalesced p b cs fit.1 (Coalesced-tail c cs k) in
    elim (ℕ_discrete p a) [
      | yes e ↦
          subst (λ q. Coalesced (free_cells q a (c ∷ cs))) (sym e)
            (subst Coalesced (sym (free_cells-first a c cs))
              (join-Coalesced (freed c) cs (Coalesced-tail c cs k)))
      | no ne ↦ elim (ℕ_discrete p b) [
        | yes e ↦
            subst (λ q. Coalesced (free_cells q a (c ∷ cs))) (sym e)
              (subst Coalesced (sym (free_cells-join a c cs fit.0)) (
                join-Coalesced c (free_cells b b cs)
                  (subst (λ q. Coalesced (free_cells q b cs)) e ih)))
        | no ne' ↦ subst Coalesced (sym (free_cells-later p a c cs ne ne')) (
            Coalesced-cons c (free_cells p b cs)
              (ap (λ t. c.free && t) (starts_free-free_cells p b cs ne') ∙ Coalesced-starts c cs k)
              ih)
      ]
    ]
