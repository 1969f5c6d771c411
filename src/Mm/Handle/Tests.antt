-- ===== src/Mm/Handle/Tests.antt =====
-- Runs of kernel/mm/sasy/handle.c: process 3 takes a handle of the segment at 4096, and process 4
-- duplicates it.
use grace_os.Mm.Pmm.Count.{count}
use grace_os.Mm.Handle.{
  Handles, max_handles, free_slot, handle_init, handle_alloc, handle_dup, handle_get_segment,
  handle_get_free,
}
use grace_os.Mm.Handle.Slots.{IsCounted, in_use}
use grace_os.Mm.Handle.Total.{begin, allocated, duplicated, Reached-IsCounted}
use grace_os.Prelude.{ℕ, ◌+◌, ◌≡◌, refl}

abbrev one_taken : Handles
one_taken = (handle_alloc 4096 3 handle_init).1

abbrev after_dup : ℕ × (ℕ → ℕ) × Handles
after_dup = handle_dup 0 4 (λ p. 1) one_taken

dup_run : (after_dup.0 ≡ 1) × (after_dup.1 4096 ≡ 2) × (handle_get_segment 1 after_dup.2 ≡ 4096)
unfolding handle_dup handle_alloc free_slot handle_init handle_get_segment
dup_run = (refl, refl, refl)

Reached-IsCounted_example :
    IsCounted after_dup.2
    × (handle_get_free after_dup.2 + count max_handles (in_use after_dup.2) ≡ max_handles)
Reached-IsCounted_example =
    Reached-IsCounted after_dup.2 (duplicated 0 4 (λ p. 1) (allocated 4096 3 begin))
