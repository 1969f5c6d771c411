-- ===== src/Mm/Kheap/Split.antt =====
-- kernel/mm/kheap.c: what the split of a block writes.
use grace_os.Prelude.{ℕ, ◌+◌, ◌-◌, ◌≤◌, ◌≡◌, ◌≢◌, ◌⊎◌, arith}
use grace_os.Mm.Kheap.{Heap, kheap_magic, footer_size, min_block, min_split, take_block}

module _ (h : Heap) (a needed : ℕ) (some_rest : min_split ≤ (h.headers a).size - needed)
    (fits : min_block ≤ needed) where
  pub split-here :
      (h.headers a).next ≢ a
      → (take_block h a needed).headers a
        ≡ record (h.headers a) { free = 0; size = needed; next = a + needed }
  unfolding take_block
  split-here ne = ground arith

  pub split-rest :
      (h.headers a).next ≢ a + needed
      → (take_block h a needed).headers (a + needed) ≡ record {
        magic = kheap_magic;
        free = 1;
        size = (h.headers a).size - needed;
        next = (h.headers a).next;
        prev = a;
      }
  unfolding take_block
  split-rest ne = ground arith

  pub split-next :
      (h.headers a).next ≢ a
      → (h.headers a).next ≢ a + needed
      → (h.headers a).next ≢ 0
      → (take_block h a needed).headers (h.headers a).next
        ≡ record (h.headers (h.headers a).next) { prev = a + needed }
  unfolding take_block
  split-next ne ne' nn = ground arith

  pub split-others :
      (x : ℕ)
      → x ≢ a
      → x ≢ a + needed
      → (x ≢ (h.headers a).next) ⊎ ((h.headers a).next ≡ 0)
      → (take_block h a needed).headers x ≡ h.headers x
  unfolding take_block
  split-others x ne ne' ne'' = ground arith

  pub split-footers :
      ((take_block h a needed).footers (a + needed - footer_size)
        ≡ record { size = needed; magic = kheap_magic })
      × ((take_block h a needed).footers (a + needed + ((h.headers a).size - needed) - footer_size)
          ≡ record { size = (h.headers a).size - needed; magic = kheap_magic })
  unfolding take_block
  split-footers = ground arith

  pub split-footers_others :
      (x : ℕ)
      → x ≢ a + needed - footer_size
      → x ≢ a + needed + ((h.headers a).size - needed) - footer_size
      → (take_block h a needed).footers x ≡ h.footers x
  unfolding take_block
  split-footers_others x ne ne' = ground arith

  split-bounds :
      ((take_block h a needed).heap_start ≡ h.heap_start)
      × ((take_block h a needed).heap_base ≡ h.heap_base)
      × ((take_block h a needed).heap_limit ≡ h.heap_limit)
  unfolding take_block
  split-bounds = ground arith
