-- ===== src/Mm/Pmm.antt =====
-- kernel/mm/pmm/pmm.c: the page allocator over the bitmap. The static variables are a record. The
-- linker's `end`, the value of `multiboot_get_total_memory` and the page that the fallback
-- allocator answers (0 when it fails) are arguments.
pub mod Count
pub mod Loops
pub mod Alloc
pub mod History
pub mod Init
use grace_os.Prelude.{
  ℕ, zero, suc, ◌+◌, ◌-◌, ◌*◌, ◌/◌, ◌%◌, ◌^◌, Bool, true, ◌||◌, not, Option, none, some, ltb, ◌==◌,
  if◌then◌else◌, inc64, dec64,
}
use grace_os.Mm.Bitmap.{Bitmap, bitmap_init, bitmap_set, bitmap_clear, bitmap_test, bitmap_size}

pub record Pmm : Type 0 where
  pub bitmap : Bitmap
  pub max_frames : ℕ
  pub used_frames : ℕ
  pub ready : Bool
  pub kernel_reserved_end : ℕ

abbrev pub page_size : ℕ
page_size = 4096

-- `ALIGN_UP` at a power of two, in 64 bits.
abbrev pub align_up : ℕ → ℕ → ℕ
align_up x a = (x + a - 1) % 2 ^ 64 / a * a

-- `if (!bitmap_test(i)) { bitmap_set(i); used_frames++; }`
unfoldable pub mark_used : Pmm → ℕ → Pmm
mark_used p i =
    if bitmap_test p.bitmap i
    then p
    else record p { bitmap = bitmap_set p.bitmap i; used_frames = inc64 p.used_frames }

-- `if (bitmap_test(i)) { bitmap_clear(i); used_frames--; }`
unfoldable pub mark_free : Pmm → ℕ → Pmm
mark_free p i =
    if bitmap_test p.bitmap i
    then record p { bitmap = bitmap_clear p.bitmap i; used_frames = dec64 p.used_frames }
    else p

-- The loops over `n` frames from `i` on.
unfoldable pub use_frames : ℕ → ℕ → Pmm → Pmm
use_frames zero i p = p
use_frames (suc n) i p = use_frames n (i + 1) (mark_used p i)

unfoldable pub free_frames : ℕ → ℕ → Pmm → Pmm
free_frames zero i p = p
free_frames (suc n) i p = free_frames n (i + 1) (mark_free p i)

-- The memory that `pmm_init` manages, from the memory reported: a default and a limit.
abbrev pub usable_memory : ℕ → ℕ
usable_memory total =
    let max_addr = if total == 0 then 0x8000000 else total in
    if ltb 0x1000000000 max_addr then 0x1000000000 else max_addr

-- The first frame above the kernel and its bitmap.
abbrev pub kernel_end_frame : ℕ → ℕ → ℕ
kernel_end_frame end_addr frames =
    ((align_up end_addr 16 + bitmap_size frames) % 2 ^ 64 + page_size - 1) % 2 ^ 64 / page_size

unfoldable pub pmm_init : Pmm → ℕ → ℕ → ℕ → Pmm
pmm_init p mb_addr total end_addr =
    if ltb mb_addr 0x1000
    then p
    else let frames = usable_memory total / page_size in
      let first = kernel_end_frame end_addr frames in
      let start : Pmm = record {
        bitmap = bitmap_init frames;
        max_frames = frames;
        used_frames = frames;
        ready = p.ready;
        kernel_reserved_end = first * page_size % 2 ^ 64;
      } in
      record (use_frames first 0 (free_frames (frames - first) first start)) { ready = true }

-- The scan of `pmm_alloc_page` over `n` frames from `i` on: the page found, and the new state.
unfoldable pub take_first : ℕ → ℕ → Pmm → Option (ℕ × Pmm)
take_first zero i p = none
take_first (suc n) i p =
    let rest = take_first n (i + 1) p in
    if bitmap_test p.bitmap i
    then rest
    else some (
      i * page_size % 2 ^ 64,
      record p { bitmap = bitmap_set p.bitmap i; used_frames = inc64 p.used_frames },
    )

abbrev pub or_else : Option (ℕ × Pmm) → ℕ → Pmm → ℕ × Pmm
or_else none a p = (a, p)
or_else (some r) a p = r

unfoldable pub pmm_alloc_page : ℕ → Pmm → ℕ × Pmm
pmm_alloc_page fallback p =
    if p.ready then or_else (take_first p.max_frames 0 p) fallback p else (fallback, p)

unfoldable pub pmm_alloc_page_low : ℕ → Pmm → ℕ × Pmm
pmm_alloc_page_low fallback p =
    let low = 0x1000000 / page_size in
    let max_low_frame = if ltb p.max_frames low then p.max_frames else low in
    if p.ready then or_else (take_first max_low_frame 0 p) 0 p else (fallback, p)

unfoldable pub pmm_free_page : Pmm → ℕ → Pmm
pmm_free_page p phys_addr =
    let frame = phys_addr / page_size in
    if p.ready
    then if ltb frame p.max_frames
      then if bitmap_test p.bitmap frame
        then record p { bitmap = bitmap_clear p.bitmap frame; used_frames = dec64 p.used_frames }
        else p
      else p
    else p

unfoldable pub pmm_reserve_range : Pmm → ℕ → ℕ → Pmm
pmm_reserve_range p phys_start size =
    let first = phys_start / page_size in
    let last = (phys_start + size + page_size - 1) % 2 ^ 64 / page_size in
    if not p.ready || size == 0 then p else use_frames (last - first) first p

unfoldable pub pmm_total : Pmm → ℕ
pmm_total p = p.max_frames * page_size % 2 ^ 64

unfoldable pub pmm_free : Pmm → ℕ
pmm_free p = (p.max_frames + 2 ^ 64 - p.used_frames) % 2 ^ 64 * page_size % 2 ^ 64
