-- ===== src/Sync/Rwlock/System.antt =====
-- `n` threads that call the lock, interleaved in any order.
use os_modules.Prelude.{ℕ, ◌<◌, ◌≡◌, ◌≢◌, Bool, true, false, Option, none, some, List, [], ◌∷◌}
use os_modules.Prelude.Int.{pos}
use os_modules.Prelude.Array.{Array, update}
use os_modules.Sync.Rwlock.Code.{Lock, Wake, signal_write, broadcast_read, Code}

-- Where a thread stands. One that is woken has still to take rw->lock and test again.
pub data Pc : Type 0 where
  idle : Pc
  asleep_reader : Pc  -- in pthread_cond_wait on read_phase
  woken_reader : Pc
  reading : Pc  -- between ReaderLock and ReaderUnlock
  asleep_writer : Pc  -- in pthread_cond_wait on write_phase
  woken_writer : Pc
  writing : Pc  -- between WriterLock and WriterUnlock

pub record System : Type 0 where
  pub lock : Lock
  pub pc : Array Pc

abbrev pub wake_reader : Pc → Pc
wake_reader asleep_reader = woken_reader
wake_reader p = p

-- What the wake-up calls of a function do to the threads: a signal wakes one thread that waits, if
-- any does, and a broadcast all. (A signal that wakes more is one with spurious wake-ups.)
pub data Woken (n : ℕ) : List Wake → Array Pc → Array Pc → Type 0 where
  done : {pc : Array Pc} → Woken n [] pc pc
  broadcast :
      {ws : List Wake} {pc pc' : Array Pc}
      → Woken n ws (λ i. wake_reader (pc i)) pc'
      → Woken n (broadcast_read ∷ ws) pc pc'
  signal_one :
      {ws : List Wake} {pc pc' : Array Pc} (i : ℕ)
      → i < n
      → pc i ≡ asleep_writer
      → Woken n ws (update pc i woken_writer) pc'
      → Woken n (signal_write ∷ ws) pc pc'
  signal_none :
      {ws : List Wake} {pc pc' : Array Pc}
      → ((i : ℕ) → i < n → pc i ≢ asleep_writer)
      → Woken n ws pc pc'
      → Woken n (signal_write ∷ ws) pc pc'

-- A thread that comes to the test of the loop in ReaderLock.
abbrev pub at_reader_test : Pc → Bool
at_reader_test idle = true
at_reader_test woken_reader = true
at_reader_test _ = false

module _ (c : Code) where
  -- The lock at the test of the loop in WriterLock, for a thread that comes to it.
  abbrev pub at_writer_test : Pc → Lock → Option Lock
  at_writer_test idle l = some (c.writer_calls l)
  at_writer_test woken_writer l = some l
  at_writer_test _ l = none

  pub data Step (n : ℕ) (s : System) : System → Type 0 where
    reader_sleeps :
        (i : ℕ)
        → i < n
        → at_reader_test (s.pc i) ≡ true
        → c.reader_waits s.lock ≡ true
        → Step n s (record s { pc = update s.pc i asleep_reader })
    reader_goes_in :
        (i : ℕ)
        → i < n
        → at_reader_test (s.pc i) ≡ true
        → c.reader_waits s.lock ≡ false
        → Step n s (record { lock = c.reader_enters s.lock; pc = update s.pc i reading })
    reader_leaves :
        (i : ℕ) {pc' : Array Pc}
        → i < n
        → s.pc i ≡ reading
        → Woken n (c.reader_unlock s.lock).1 (update s.pc i idle) pc'
        → Step n s (record { lock = (c.reader_unlock s.lock).0; pc = pc' })
    writer_sleeps :
        (i : ℕ) {l : Lock}
        → i < n
        → at_writer_test (s.pc i) s.lock ≡ some l
        → c.writer_waits l ≡ true
        → Step n s (record { lock = l; pc = update s.pc i asleep_writer })
    writer_goes_in :
        (i : ℕ) {l : Lock}
        → i < n
        → at_writer_test (s.pc i) s.lock ≡ some l
        → c.writer_waits l ≡ false
        → Step n s (record { lock = c.writer_enters l; pc = update s.pc i writing })
    writer_leaves :
        (i : ℕ) {pc' : Array Pc}
        → i < n
        → s.pc i ≡ writing
        → Woken n (c.writer_unlock s.lock).1 (update s.pc i idle) pc'
        → Step n s (record { lock = (c.writer_unlock s.lock).0; pc = pc' })
    spurious_reader :
        (i : ℕ)
        → i < n
        → s.pc i ≡ asleep_reader
        → Step n s (record s { pc = update s.pc i woken_reader })
    spurious_writer :
        (i : ℕ)
        → i < n
        → s.pc i ≡ asleep_writer
        → Step n s (record s { pc = update s.pc i woken_writer })

  -- Whether a thread goes on: a spurious wake-up is no step of a thread.
  abbrev pub is_own_step : {n : ℕ} {s t : System} → Step n s t → Bool
  is_own_step (spurious_reader i lt at) = false
  is_own_step (spurious_writer i lt at) = false
  is_own_step _ = true

  -- All threads outside the lock, which is initialised, with no writer counted yet.
  abbrev pub start : System
  start = record {
    lock = c.init (record { resource_cnt = pos 0; waiting_writers = 0 });
    pc = λ _. idle;
  }

  pub data Reach (n : ℕ) : System → Type 0 where
    begin : Reach n start
    next : {s t : System} → Reach n s → Step n s t → Reach n t
