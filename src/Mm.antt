-- ===== src/Mm.antt =====
-- kernel/mm: the physical page allocator (`Bitmap`, `Pmm`), the kernel heap (`Kheap`)
-- and the handle table (`Handle`).
pub mod Bitmap
pub mod Pmm
pub mod Kheap
pub mod Handle
mod Tests
