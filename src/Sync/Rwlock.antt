-- ===== src/Sync/Rwlock.antt =====
-- pthreads-sync-code/rwlock: the read-write lock in two versions, each a `Code` (what its functions
-- do to the lock while they hold rw->lock), and `n` threads that call it.
pub mod Code
pub mod System
pub mod Laws
pub mod Tally
pub mod Invariant
pub mod Safety
pub mod Trial
pub mod ReaderPref
pub mod WriterPref
