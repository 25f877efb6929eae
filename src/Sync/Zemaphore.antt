-- ===== src/Sync/Zemaphore.antt =====
-- pthreads-sync-code/zemaphore/zemaphore.c: a counting semaphore of a lock, a condition variable and a
-- counter. What stands between pthread_mutex_lock and the wait or the unlock is one function on the
-- counter, which is only taken down behind the test that it is not 0.
pub mod System
pub mod Waiting
mod Tests
use os_modules.Prelude.{ℕ, ◌+◌, ◌-◌, Bool, ◌==◌}

pub record Zem : Type 0 where
  pub accesses : ℕ

unfoldable pub zem_init : (value : ℕ) → Zem
zem_init value = record { accesses = value }

-- The test of the loop in `zem_down`.
unfoldable pub zem_waits : Zem → Bool
zem_waits z = z.accesses == 0

-- Behind the loop.
unfoldable pub zem_down : Zem → Zem
zem_down z = record { accesses = z.accesses - 1 }

-- Up to the signal of wait_phase.
unfoldable pub zem_up : Zem → Zem
zem_up z = record { accesses = z.accesses + 1 }
