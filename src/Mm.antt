-- ===== src/Mm.antt =====
-- Memory management: kernel/kernel/mm.
pub mod Bitmap
pub mod Pmm
pub mod Frames
pub mod Blocks
pub mod Heap
pub mod Pool
pub mod Brk
pub mod Paging
