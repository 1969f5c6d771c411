-- ===== src/Mm/Kheap/Totals.antt =====
-- kernel/mm/kheap.c: what the statistics and the check of the heap return.
use grace_os.Prelude.{
  ℕ, zero, suc, ◌+◌, ◌-◌, ◌%◌, ◌^◌, ◌≤◌, ◌<◌, ◌≡◌, refl, ap, ◌∙◌, ◌≢◌, Bool, true, false, not, some,
  List, [], ◌∷◌, arith, ltb, leb, ◌==◌, if◌then◌else◌, ==_ne, length,
}
use grace_os.Mm.Kheap.{
  Header, Heap, walk_fuel, block_valid, sum_from, kheap_get_used, kheap_get_free, validate_from,
  kheap_validate,
}
use grace_os.Mm.Kheap.Cells.{Cell, flag, link, Chain, IsHeap, Chain-le, Chain-valid, length-Chain}
use grace_os.Mm.Kheap.Malloc.{link-filled}

-- The bytes in the blocks of the given kind.
abbrev pub bytes_of : (Bool → Bool) → List Cell → ℕ
bytes_of p [] = 0
bytes_of p (c ∷ cs) = (if p c.free then c.size else 0) + bytes_of p cs

module _ (test : ℕ → Bool) (h : Heap) where
  sum_step :
      (fuel p : ℕ) (s : ℕ)
      → p ≢ 0
      → block_valid h p ≡ true
      → sum_from test fuel h (h.headers p).next ≡ some s
      → sum_from test (suc fuel) h p
        ≡ some (((if test (h.headers p).free then (h.headers p).size else 0) + s) % 2 ^ 64)
  unfolding sum_from
  sum_step fuel p s nn valid e = rw (==_ne p 0 nn, valid, e) refl

  sum_from-bytes :
      (kind : Bool → Bool) (fuel prev a : ℕ) (cs : List Cell) (end : ℕ)
      → ((b : Bool) → test (flag b) ≡ kind b)
      → a ≢ 0
      → end < 2 ^ 64
      → Chain h.headers h.footers prev a cs end
      → length cs < fuel
      → (sum_from test fuel h (link a cs) ≡ some (bytes_of kind cs)) × (bytes_of kind cs + a ≤ end)
  sum_from-bytes kind zero prev a cs end k nn small ch f = absurd (omega arith)
  sum_from-bytes kind (suc fuel) prev a [] end k nn small ch f =
      (unfold sum_from in refl, omega (arith, ch))
  sum_from-bytes kind (suc fuel) prev a (c ∷ cs) end k nn small ch f =
      let next : (h.headers a).next ≡ link (a + c.size) cs = ap (λ (r : Header). r.next) ch.0 in
      let (ih, le) =
        sum_from-bytes kind fuel a (a + c.size) cs end k (omega arith) small ch.3 (omega arith) in
      let valid = Chain-valid h prev a c cs end nn ch in
      let run = sum_step fuel a (bytes_of kind cs) nn valid (ap (sum_from test fuel h) next ∙ ih) in
      let part : (if test (h.headers a).free then (h.headers a).size else 0)
          ≡ (if kind c.free then c.size else 0) =
        ap (λ (r : Header). if test r.free then r.size else 0) ch.0
        ∙ ap (λ t. if t then c.size else 0) (k c.free) in
      let whole : (if kind c.free then c.size else 0) + bytes_of kind cs + a ≤ end =
        ground (arith, le) in
      (
        run
            ∙ ap some
                (ap (λ x. (x + bytes_of kind cs) % 2 ^ 64) part ∙ omega (arith, whole, small)),
        whole,
      )

bytes_of-whole :
    (h : Heap) (prev a : ℕ) (cs : List Cell) (end : ℕ)
    → Chain h.headers h.footers prev a cs end
    → bytes_of not cs + bytes_of (λ b. b) cs + a ≡ end
bytes_of-whole h prev a [] end ch = omega (arith, ch)
bytes_of-whole h prev a (c ∷ cs) end ch =
    let ih = bytes_of-whole h a (a + c.size) cs end ch.3 in ground (arith, ih)

-- On a heap in order the statistics end: used and free bytes are those of the blocks of either kind,
-- and together they are the whole heap.
pub kheap_get_used-add-free :
    (h : Heap) (cs : List Cell)
    → IsHeap h cs
    → (kheap_get_used h ≡ some (bytes_of not cs))
      × (kheap_get_free h ≡ some (bytes_of (λ b. b) cs))
      × (bytes_of not cs + bytes_of (λ b. b) cs ≡ h.heap_limit - h.heap_base)
unfolding kheap_get_used kheap_get_free
kheap_get_used-add-free h cs is =
    let fuel = length-Chain h.headers h.footers 0 h.heap_base cs h.heap_limit is.chain in
    let nn : h.heap_base ≢ 0 = omega (arith, is.based) in
    let used =
      sum_from-bytes (λ free. free == 0) h not (walk_fuel h) 0 h.heap_base cs h.heap_limit
        (λ b. ground arith) nn is.bounded is.chain (omega (arith, fuel)) in
    let free =
      sum_from-bytes (λ free. not (free == 0)) h (λ b. b) (walk_fuel h) 0 h.heap_base cs
        h.heap_limit (λ b. ground arith) nn is.bounded is.chain (omega (arith, fuel)) in
    let link' = link-filled h cs is in
    let started : (h.heap_start == 0) ≡ false =
      ==_ne h.heap_start 0 (omega (arith, is.starts, nn)) in
    (
      ap (λ t. if t then some 0 else sum_from (λ free. free == 0) (walk_fuel h) h h.heap_start)
            started
          ∙ (ap (sum_from (λ free. free == 0) (walk_fuel h) h) link' ∙ used.0),
      ap
            (λ t.
              if t then some 0 else sum_from (λ free. not (free == 0)) (walk_fuel h) h h.heap_start)
            started
          ∙ (ap (sum_from (λ free. not (free == 0)) (walk_fuel h) h) link' ∙ free.0),
      omega (arith, bytes_of-whole h 0 h.heap_base cs h.heap_limit is.chain),
    )

validate_step :
    (h : Heap) (n p : ℕ)
    → p ≢ 0
    → block_valid h p ≡ true
    → h.heap_base ≤ p
    → p < h.heap_limit
    → validate_from (suc n) h p ≡ validate_from n h (h.headers p).next
unfolding validate_from
validate_step h n p nn valid lo hi =
    let low : leb h.heap_base p ≡ true = ground (arith, lo) in
    let high : ltb p h.heap_limit ≡ true = ground (arith, hi) in
    rw (==_ne p 0 nn, valid, low, high) refl

validate_from-Chain :
    (h : Heap) (n prev a : ℕ) (cs : List Cell) (end : ℕ)
    → a ≢ 0
    → h.heap_base ≤ a
    → end ≤ h.heap_limit
    → Chain h.headers h.footers prev a cs end
    → validate_from n h (link a cs) ≡ leb (length cs) n
validate_from-Chain h zero prev a [] end nn lo hi ch = unfold validate_from in refl
validate_from-Chain h (suc n) prev a [] end nn lo hi ch = unfold validate_from in ground arith
validate_from-Chain h zero prev a (c ∷ cs) end nn lo hi ch =
    unfold validate_from in ground (arith, nn)
validate_from-Chain h (suc n) prev a (c ∷ cs) end nn lo hi ch =
    let next : (h.headers a).next ≡ link (a + c.size) cs = ap (λ (r : Header). r.next) ch.0 in
    let le = Chain-le h.headers h.footers a (a + c.size) cs end ch.3 in
    let some_size : 0 < c.size = omega (arith, ch.2.0) in
    validate_step h n a nn (Chain-valid h prev a c cs end nn ch) lo
      (omega (arith, le, hi, some_size))
    ∙ ap (validate_from n h) next
    ∙ validate_from-Chain h n a (a + c.size) cs end (omega (arith, nn)) (omega (arith, lo)) hi ch.3
    ∙ ground arith

-- `kheap_validate` accepts a heap in order exactly if it has at most 100000 blocks.
pub kheap_validate_lem :
    (h : Heap) (cs : List Cell) → IsHeap h cs → kheap_validate h ≡ leb (length cs) 100000
unfolding kheap_validate
kheap_validate_lem h cs is =
    let nn : h.heap_base ≢ 0 = omega (arith, is.based) in
    let started : (h.heap_start == 0) ≡ false =
      ==_ne h.heap_start 0 (omega (arith, is.starts, nn)) in
    rw started (
      ap (validate_from 100000 h) (link-filled h cs is)
      ∙ validate_from-Chain h 100000 0 h.heap_base cs h.heap_limit nn (omega arith) (omega arith)
          is.chain)
