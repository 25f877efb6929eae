-- ===== src/Sync.antt =====
-- The synchronisation programs of pthreads-sync-code, as threads whose critical sections interleave.
pub mod Threads
pub mod Rwlock
pub mod MasterWorker
pub mod Zemaphore
pub mod Turns
pub mod Handshake
