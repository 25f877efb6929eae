-- ===== src/Sync/Rwlock/Laws.antt =====
-- What the proofs about the threads need of a version of the lock.
use os_modules.Prelude.{ℕ, suc, ◌+◌, ◌≤◌, ◌<◌, ◌≡◌, ◌≢◌, ◌⊎◌, Bool, true, false, List, [], ◌∷◌}
use os_modules.Prelude.Int.{pos, negsuc}
use os_modules.Sync.Rwlock.Code.{Lock, Wake, signal_write, broadcast_read, Code}

abbrev pub has_signal : List Wake → Bool
has_signal [] = false
has_signal (signal_write ∷ ws) = true
has_signal (broadcast_read ∷ ws) = has_signal ws

abbrev pub has_broadcast : List Wake → Bool
has_broadcast [] = false
has_broadcast (signal_write ∷ ws) = has_broadcast ws
has_broadcast (broadcast_read ∷ ws) = true

-- `Tracks l w`: the counter of waiting writers is right when `w` writers wait.
pub record Laws (c : Code) (Tracks : Lock → ℕ → Type 0) : Type 0 where
  pub init_count : (l : Lock) → (c.init l).resource_cnt ≡ pos 0
  pub init_tracks : (l : Lock) → l.waiting_writers ≡ 0 → Tracks (c.init l) 0
  pub tracks_same :
      (l l' : Lock) (w : ℕ) → l.waiting_writers ≡ l'.waiting_writers → Tracks l w → Tracks l' w
  pub tracks_bound : (l : Lock) (w : ℕ) → Tracks l w → l.waiting_writers ≤ w
  pub reader_waits_true :
      (l : Lock) → c.reader_waits l ≡ true → (l.resource_cnt ≡ negsuc 0) ⊎ (0 < l.waiting_writers)
  pub reader_waits_false :
      (l : Lock) (w : ℕ)
      → Tracks l w
      → c.reader_waits l ≡ false
      → (l.resource_cnt ≢ negsuc 0) × (l.waiting_writers ≡ 0)
  pub reader_enters_count :
      (l : Lock) (k : ℕ) → l.resource_cnt ≡ pos k → (c.reader_enters l).resource_cnt ≡ pos (suc k)
  pub reader_enters_same : (l : Lock) → l.waiting_writers ≡ (c.reader_enters l).waiting_writers
  pub reader_unlock_count :
      (l : Lock) (k : ℕ) → l.resource_cnt ≡ pos (suc k) → (c.reader_unlock l).0.resource_cnt ≡ pos k
  pub reader_unlock_same : (l : Lock) → l.waiting_writers ≡ (c.reader_unlock l).0.waiting_writers
  pub reader_unlock_wakes :
      (l : Lock)
      → (c.reader_unlock l).0.resource_cnt ≡ pos 0
      → has_signal (c.reader_unlock l).1 ≡ true
  pub writer_calls_count : (l : Lock) → (c.writer_calls l).resource_cnt ≡ l.resource_cnt
  pub writer_calls_tracks : (l : Lock) (w : ℕ) → Tracks l w → Tracks (c.writer_calls l) (w + 1)
  pub writer_calls_grows : (l : Lock) → l.waiting_writers ≤ (c.writer_calls l).waiting_writers
  pub writer_waits_true : (l : Lock) → c.writer_waits l ≡ true → l.resource_cnt ≢ pos 0
  pub writer_waits_false : (l : Lock) → c.writer_waits l ≡ false → l.resource_cnt ≡ pos 0
  pub writer_enters_count : (l : Lock) → (c.writer_enters l).resource_cnt ≡ negsuc 0
  pub writer_enters_tracks : (l : Lock) (w : ℕ) → Tracks l (w + 1) → Tracks (c.writer_enters l) w
  pub writer_unlock_count : (l : Lock) → (c.writer_unlock l).0.resource_cnt ≡ pos 0
  pub writer_unlock_same : (l : Lock) → l.waiting_writers ≡ (c.writer_unlock l).0.waiting_writers
  pub writer_unlock_signals :
      (l : Lock) (w : ℕ) → Tracks l w → 0 < w → has_signal (c.writer_unlock l).1 ≡ true
  pub writer_unlock_broadcasts :
      (l : Lock) → l.waiting_writers ≡ 0 → has_broadcast (c.writer_unlock l).1 ≡ true
