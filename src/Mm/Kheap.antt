-- ===== src/Mm/Kheap.antt =====
-- kernel/mm/kheap.c: the kernel heap. Headers and footers are two memories by address: a header takes
-- 32 bytes and a footer 16. A `struct heap_block*` is an address, 0 is NULL. The walks take fuel;
-- `none` means that it ran out.
pub mod Cells
pub mod Split
pub mod Take
pub mod Malloc
pub mod Absorb
pub mod Free
pub mod Kfree
pub mod Coalesce
pub mod Restore
pub mod Blocks
pub mod Trip
pub mod History
pub mod Boot
pub mod Totals
mod Tests
use mathlib.Core.Option
use grace_os.Prelude.{
  ℕ, zero, suc, ◌+◌, ◌-◌, ◌*◌, ◌/◌, ◌%◌, ◌^◌, Bool, true, false, ◌&&◌, ◌||◌, not, Option, none,
  some, map, ltb, leb, ◌==◌, if◌then◌else◌, put, modify,
}
use grace_os.Mm.Pmm.{Pmm, page_size, align_up, pmm_total, pmm_reserve_range}

-- `struct heap_block`
pub record Header : Type 0 where
  pub magic : ℕ
  pub free : ℕ
  pub size : ℕ
  pub next : ℕ
  pub prev : ℕ

-- `struct heap_footer`
pub record Footer : Type 0 where
  pub size : ℕ
  pub magic : ℕ

pub record Heap : Type 0 where
  pub headers : ℕ → Header
  pub footers : ℕ → Footer
  pub heap_start : ℕ
  pub heap_base : ℕ
  pub heap_limit : ℕ

abbrev pub kheap_magic : ℕ
kheap_magic = 0xDEADBEEF

abbrev pub kheap_max_alloc : ℕ
kheap_max_alloc = 65536

abbrev pub header_size : ℕ
header_size = 32

abbrev pub footer_size : ℕ
footer_size = 16

-- Header and footer of a block.
abbrev pub min_block : ℕ
min_block = 48

abbrev pub min_split : ℕ
min_split = 56

abbrev pub with_header : Heap → ℕ → (Header → Header) → Heap
with_header h p f = record h { headers = modify h.headers p f }

abbrev pub get_footer : Heap → ℕ → ℕ
get_footer h p = p + (h.headers p).size - footer_size

-- The footer of a block written anew from its header.
abbrev pub with_footer : Heap → ℕ → Heap
with_footer h p = record h {
  footers =
      put h.footers (get_footer h p) (record { size = (h.headers p).size; magic = kheap_magic });
}

unfoldable pub block_valid : Heap → ℕ → Bool
block_valid h p =
    not (p == 0)
    && (h.headers p).magic == kheap_magic
    && (h.footers (get_footer h p)).magic == kheap_magic
    && (h.footers (get_footer h p)).size == (h.headers p).size

abbrev pub kheap_start : ℕ
kheap_start = 0x400000

abbrev pub kheap_initial_size : ℕ
kheap_initial_size = 0x2000000

-- The start and the size of the region, from the end of the kernel and the size of the memory.
abbrev pub raw_start : ℕ → ℕ
raw_start reserved_end = if ltb kheap_start reserved_end then reserved_end else kheap_start

abbrev pub raw_size : ℕ → ℕ → ℕ
raw_size start phys_total =
    if not (phys_total == 0) && ltb phys_total ((start + kheap_initial_size) % 2 ^ 64)
    then if ltb start phys_total then phys_total - start else 0
    else kheap_initial_size

-- The bounds are set first; the single block and the reservation only if there is room for it.
abbrev pub set_up : Heap → Pmm → ℕ → ℕ → ℕ → Heap × Pmm
set_up h p base limit total =
    let h1 = record h { heap_base = base; heap_limit = limit } in
    let first : Header = record {
      magic = kheap_magic;
      free = 1;
      size = total;
      next = 0;
      prev = 0;
    } in
    if ltb total min_block then (h1, p) else (
      with_footer (with_header (record h1 { heap_start = base }) base (λ b. first)) base,
      pmm_reserve_range p base total,
    )

unfoldable pub kheap_init : Heap → Pmm → Heap × Pmm
kheap_init h p =
    let start = raw_start p.kernel_reserved_end in
    let base = align_up start page_size in
    let limit = (start + raw_size start (pmm_total p)) % 2 ^ 64 / page_size * page_size in
    set_up h p base limit ((limit + 2 ^ 64 - base) % 2 ^ 64)

-- The split of a block: the rest becomes a free block behind it.
abbrev pub split : Heap → ℕ → ℕ → Heap
split h p needed =
    let q = p + needed in
    let rest : Header = record {
      magic = kheap_magic;
      free = 1;
      size = (h.headers p).size - needed;
      next = (h.headers p).next;
      prev = p;
    } in
    let h1 = with_footer (with_header h q (λ b. rest)) q in
    let h2 = with_footer (with_header h1 p (λ b. record b { size = needed; next = q })) p in
    if (h2.headers q).next == 0
    then h2
    else with_header h2 (h2.headers q).next (λ b. record b { prev = q })

-- A block that is large enough: split where the rest makes a block, and marked allocated.
unfoldable pub take_block : Heap → ℕ → ℕ → Heap
take_block h p needed =
    with_header (if leb min_split ((h.headers p).size - needed) then split h p needed else h) p
      (λ b. record b { free = 0 })

-- The first-fit search from a block on.
unfoldable pub search_from : ℕ → Heap → ℕ → ℕ → Option (ℕ × Heap)
search_from zero h p needed = none
search_from (suc fuel) h p needed =
    let rest = search_from fuel h (h.headers p).next needed in
    if p == 0
    then some (0, h)
    else if not (block_valid h p)
    then some (0, h)
    else if not ((h.headers p).free == 0) && leb needed (h.headers p).size
    then some (p + header_size, take_block h p needed)
    else rest

-- More rounds than there can be blocks.
abbrev pub walk_fuel : Heap → ℕ
walk_fuel h = h.heap_limit - h.heap_base + 1

-- The size of the block for a request.
abbrev pub needed_for : ℕ → ℕ
needed_for size = min_block + align_up size 8

unfoldable pub kmalloc : ℕ → Heap → Option (ℕ × Heap)
kmalloc size h =
    if h.heap_start == 0 || size == 0 || ltb kheap_max_alloc size
    then some (0, h)
    else search_from (walk_fuel h) h h.heap_start (needed_for size)

-- The block `b` behind `a` becomes a part of `a`.
unfoldable pub absorb : Heap → ℕ → ℕ → Heap
absorb h a b =
    let h1 = with_header h a (λ r. record r {
      size = (r.size + (h.headers b).size) % 2 ^ 64;
      next = (h.headers b).next;
    }) in
    let h2 =
      if (h1.headers a).next == 0
      then h1
      else with_header h1 (h1.headers a).next (λ r. record r { prev = a }) in
    with_footer h2 a

-- A neighbour that is there, valid and free.
abbrev pub can_merge : Heap → ℕ → Bool
can_merge h n = not (n == 0) && block_valid h n && not ((h.headers n).free == 0)

unfoldable pub merge_next : Heap → ℕ → Heap
merge_next h p = if can_merge h (h.headers p).next then absorb h p (h.headers p).next else h

unfoldable pub merge_prev : Heap → ℕ → Heap
merge_prev h p = if can_merge h (h.headers p).prev then absorb h (h.headers p).prev p else h

unfoldable pub kfree : ℕ → Heap → Heap
kfree ptr h =
    let p = ptr - header_size in
    if ptr == 0 || h.heap_start == 0
    then h
    else if not (block_valid h p)
    then h
    else if not ((h.headers p).free == 0)
    then h
    else merge_prev (merge_next (with_header h p (λ b. record b { free = 1 })) p) p

-- The sums of `kheap_get_used` and `kheap_get_free`, for the blocks that a test takes.
unfoldable pub sum_from : (ℕ → Bool) → ℕ → Heap → ℕ → Option ℕ
sum_from test zero h p = none
sum_from test (suc fuel) h p =
    let rest = sum_from test fuel h (h.headers p).next in
    if p == 0 || not (block_valid h p)
    then some 0
    else Option.map
        (λ s. ((if test (h.headers p).free then (h.headers p).size else 0) + s) % 2 ^ 64) rest

unfoldable pub kheap_get_used : Heap → Option ℕ
kheap_get_used h =
    if h.heap_start == 0 then some 0 else sum_from (λ free. free == 0) (walk_fuel h) h h.heap_start

unfoldable pub kheap_get_free : Heap → Option ℕ
kheap_get_free h =
    if h.heap_start == 0
    then some 0
    else sum_from (λ free. not (free == 0)) (walk_fuel h) h h.heap_start

-- The loop of `kheap_validate`: it gives up on more than 100000 blocks.
unfoldable pub validate_from : ℕ → Heap → ℕ → Bool
validate_from zero h p = p == 0
validate_from (suc rounds) h p =
    let rest = validate_from rounds h (h.headers p).next in
    if p == 0 then true else block_valid h p && leb h.heap_base p && ltb p h.heap_limit && rest

unfoldable pub kheap_validate : Heap → Bool
kheap_validate h = if h.heap_start == 0 then false else validate_from 100000 h h.heap_start
