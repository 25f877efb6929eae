-- ===== src/Sync/Rwlock/Code.antt =====
-- What a version of the read-write lock consists of. The fields of struct read_write_lock and the
-- global counter are read and written only between pthread_mutex_lock and pthread_mutex_unlock, so
-- a stretch of a function up to a wait or up to its end is one function on the lock.
use os_modules.Prelude.{ℕ, Bool, List}
use os_modules.Prelude.Int.{ℤ}

-- resource_cnt is -1 while a thread writes, and otherwise the number of readers.
pub record Lock : Type 0 where
  pub resource_cnt : ℤ
  pub waiting_writers : ℕ

-- The calls of pthread_cond_signal and pthread_cond_broadcast, in order.
pub data Wake : Type 0 where
  signal_write broadcast_read : Wake

pub record Code : Type 0 where
  pub init : Lock → Lock  -- InitalizeReadWriteLock
  pub reader_waits : Lock → Bool  -- the test of the loop in ReaderLock
  pub reader_enters : Lock → Lock  -- behind the loop
  pub reader_unlock : Lock → Lock × List Wake
  pub writer_calls : Lock → Lock  -- before the loop in WriterLock
  pub writer_waits : Lock → Bool
  pub writer_enters : Lock → Lock
  pub writer_unlock : Lock → Lock × List Wake
