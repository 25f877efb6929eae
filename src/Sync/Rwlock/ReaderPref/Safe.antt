-- ===== src/Sync/Rwlock/ReaderPref/Safe.antt =====
-- rwlock-reader-pref.cpp: exclusion, no lost wake-up, and when a reader waits.
use os_modules.Prelude.{ℕ, ◌<◌, ◌≡◌, ◌⊎◌, ◌↔◌, refl, inl, true, arith}
use os_modules.Prelude.Int.{pos}
use os_modules.Sync.Threads.{count, count_find, count_pos}
use os_modules.Sync.Rwlock.Code.{Lock}
use os_modules.Sync.Rwlock.Laws.{Laws, has_signal}
use os_modules.Sync.Rwlock.System.{reading, writing, System, Reach}
use os_modules.Sync.Rwlock.Tally.{is_reading, is_writing}
use os_modules.Sync.Rwlock.Invariant.{Counts}
use os_modules.Sync.Rwlock.Safety
use os_modules.Sync.Rwlock.Safety.{can_go, is_waiting}
use os_modules.Sync.Rwlock.ReaderPref.{
  initialize, reader_waits, reader_enters, reader_unlock, writer_waits, writer_enters,
  writer_unlock, reader_pref,
}

-- This version counts no waiting writers.
abbrev pub Tracks : Lock → ℕ → Type 0
Tracks l w = l.waiting_writers ≡ 0

signal_at_zero :
    (l : Lock) → (reader_unlock l).0.resource_cnt ≡ pos 0 → has_signal (reader_unlock l).1 ≡ true
unfolding reader_unlock
signal_at_zero l e = rw e

pub laws : Laws reader_pref Tracks
unfolding initialize reader_waits reader_enters reader_unlock writer_waits writer_enters
    writer_unlock
laws = record {
  init_count = λ l. refl;
  init_tracks = λ l e. e;
  tracks_same = λ l l' w e t. ground arith;
  tracks_bound = λ l w t. omega arith;
  reader_waits_true = λ l e. inl (ground arith);
  reader_waits_false = λ l w t e. (λ z. ground arith, t);
  reader_enters_count = λ l k e. ground arith;
  reader_enters_same = λ l. refl;
  reader_unlock_count = λ l k e. ground arith;
  reader_unlock_same = λ l. refl;
  reader_unlock_wakes = signal_at_zero;
  writer_calls_count = λ l. refl;
  writer_calls_tracks = λ l w t. t;
  writer_calls_grows = λ l. omega arith;
  writer_waits_true = λ l e z. ground arith;
  writer_waits_false = λ l e. ground arith;
  writer_enters_count = λ l. refl;
  writer_enters_tracks = λ l w t. t;
  writer_unlock_count = λ l. refl;
  writer_unlock_same = λ l. refl;
  writer_unlock_signals = λ l w t h. refl;
  writer_unlock_broadcasts = λ l e. refl;
}

module _ {n : ℕ} {s : System} (r : Reach reader_pref n s) where
  -- Reader preference: in every reachable state resource_cnt is the number of threads that read and no
  -- thread writes, or it is -1, one thread writes and none reads.
  pub reader_pref-Counts :
      Counts s.lock.resource_cnt (count is_reading n s.pc) (count is_writing n s.pc)
  reader_pref-Counts = (Safety.Reach-Inv laws n r).counts

  -- Reader preference: in every reachable state a thread that writes is alone; no other thread reads or
  -- writes.
  pub reader_pref_exclusive :
      (i j : ℕ) → i < n → j < n → s.pc i ≡ writing → (s.pc j ≡ reading) ⊎ (s.pc j ≡ writing) → i ≡ j
  reader_pref_exclusive = Safety.exclusive laws n r

  -- Reader preference: in every reachable state in which a thread waits, asleep or woken, some thread reads,
  -- writes or has been woken, so that the waiting threads are not left asleep.
  pub reader_pref_no_lost_wakeup :
      (i : ℕ) → i < n → is_waiting (s.pc i) ≡ true → (j : ℕ) × (j < n) × (can_go (s.pc j) ≡ true)
  reader_pref_no_lost_wakeup = Safety.no_lost_wakeup laws n r

  -- Reader preference: in every reachable state a reader has to wait exactly if a thread writes.
  pub reader_pref_waits_iff :
      (reader_waits s.lock ≡ true) ↔ ((j : ℕ) × (j < n) × (s.pc j ≡ writing))
  unfolding reader_waits
  reader_pref_waits_iff = (to, from)
    where
      to : reader_waits s.lock ≡ true → (j : ℕ) × (j < n) × (s.pc j ≡ writing)
      to e =
          let (j, lt, w) = count_find is_writing n s.pc (ground (arith, reader_pref-Counts)) in
          (j, lt, ground arith)

      from : (j : ℕ) × (j < n) × (s.pc j ≡ writing) → reader_waits s.lock ≡ true
      from h = ground (arith, reader_pref-Counts, count_pos is_writing n s.pc h.0 h.1 (rw h.2))
