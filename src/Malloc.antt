-- ===== src/Malloc.antt =====
-- The two allocators of malloc-code: the bookkeeping of one page, which they share, then each.
pub mod Page
pub mod Alloc
pub mod Ealloc
