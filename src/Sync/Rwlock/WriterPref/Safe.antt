-- ===== src/Sync/Rwlock/WriterPref/Safe.antt =====
-- rwlock-writer-pref.cpp: exclusion, no lost wake-up, and when a reader waits.
use os_modules.Prelude.{ℕ, ◌<◌, ◌≡◌, ◌⊎◌, ◌↔◌, refl, true, false, arith, Bool, dec_lt}
use os_modules.Prelude.Int.{pos}
use os_modules.Sync.Threads.{count, count_find, count_pos}
use os_modules.Sync.Rwlock.Code.{Lock}
use os_modules.Sync.Rwlock.Laws.{Laws, has_signal, has_broadcast}
use os_modules.Sync.Rwlock.System.{Pc, asleep_writer, woken_writer, reading, writing, System, Reach}
use os_modules.Sync.Rwlock.Tally.{is_reading, is_writing, sleeps_to_write, woken_to_write}
use os_modules.Sync.Rwlock.Invariant.{Counts, Inv}
use os_modules.Sync.Rwlock.Safety
use os_modules.Sync.Rwlock.Safety.{can_go, is_waiting}
use os_modules.Sync.Rwlock.WriterPref.{
  initialize, reader_waits, reader_enters, reader_unlock, writer_waits, writer_enters,
  writer_unlock, writer_calls, writer_pref,
}

-- The counter is the number of writers that wait.
abbrev pub Tracks : Lock → ℕ → Type 0
Tracks l w = l.waiting_writers ≡ w

signal_at_zero :
    (l : Lock) → (reader_unlock l).0.resource_cnt ≡ pos 0 → has_signal (reader_unlock l).1 ≡ true
unfolding reader_unlock
signal_at_zero l e = rw e

signals : (l : Lock) (w : ℕ) → l.waiting_writers ≡ w → 0 < w → has_signal (writer_unlock l).1 ≡ true
unfolding writer_unlock
signals l w t h = ground arith

broadcasts : (l : Lock) → l.waiting_writers ≡ 0 → has_broadcast (writer_unlock l).1 ≡ true
unfolding writer_unlock
broadcasts l e = rw e

pub laws : Laws writer_pref Tracks
unfolding initialize reader_waits reader_enters reader_unlock writer_calls writer_waits
    writer_enters writer_unlock
laws = record {
  init_count = λ l. refl;
  init_tracks = λ l e. e;
  tracks_same = λ l l' w e t. omega arith;
  tracks_bound = λ l w t. omega arith;
  reader_waits_true = λ l e. ground arith;
  reader_waits_false = λ l w t e. (λ z. ground arith, ground arith);
  reader_enters_count = λ l k e. ground arith;
  reader_enters_same = λ l. refl;
  reader_unlock_count = λ l k e. ground arith;
  reader_unlock_same = λ l. refl;
  reader_unlock_wakes = signal_at_zero;
  writer_calls_count = λ l. refl;
  writer_calls_tracks = λ l w t. omega arith;
  writer_calls_grows = λ l. omega arith;
  writer_waits_true = λ l e z. ground arith;
  writer_waits_false = λ l e. ground arith;
  writer_enters_count = λ l. refl;
  writer_enters_tracks = λ l w t. omega arith;
  writer_unlock_count = λ l. refl;
  writer_unlock_same = λ l. refl;
  writer_unlock_signals = signals;
  writer_unlock_broadcasts = broadcasts;
}

abbrev pub writes_or_waits : Pc → Bool
writes_or_waits writing = true
writes_or_waits asleep_writer = true
writes_or_waits woken_writer = true
writes_or_waits _ = false

module _ {n : ℕ} {s : System} (r : Reach writer_pref n s) where
  -- Writer preference: in every reachable state resource_cnt is the number of threads that read and no
  -- thread writes, or it is -1, one thread writes and none reads.
  pub writer_pref-Counts :
      Counts s.lock.resource_cnt (count is_reading n s.pc) (count is_writing n s.pc)
  writer_pref-Counts = (Safety.Reach-Inv laws n r).counts

  -- Writer preference: in every reachable state a thread that writes is alone; no other thread reads or
  -- writes.
  pub writer_pref_exclusive :
      (i j : ℕ) → i < n → j < n → s.pc i ≡ writing → (s.pc j ≡ reading) ⊎ (s.pc j ≡ writing) → i ≡ j
  writer_pref_exclusive = Safety.exclusive laws n r

  -- Writer preference: in every reachable state in which a thread waits, asleep or woken, some thread reads,
  -- writes or has been woken, so that the waiting threads are not left asleep.
  pub writer_pref_no_lost_wakeup :
      (i : ℕ) → i < n → is_waiting (s.pc i) ≡ true → (j : ℕ) × (j < n) × (can_go (s.pc j) ≡ true)
  writer_pref_no_lost_wakeup = Safety.no_lost_wakeup laws n r

  found :
      (p : Pc → Bool)
      → ((q : Pc) → p q ≡ true → writes_or_waits q ≡ true)
      → 0 < count p n s.pc
      → (j : ℕ) × (j < n) × (writes_or_waits (s.pc j) ≡ true)
  found p waits h = let (j, lt, e) = count_find p n s.pc h in (j, lt, waits (s.pc j) e)

  -- Writer preference: in every reachable state a reader has to wait exactly if a thread writes or
  -- waits to write, asleep or woken.
  pub writer_pref_waits_iff :
      (reader_waits s.lock ≡ true) ↔ ((j : ℕ) × (j < n) × (writes_or_waits (s.pc j) ≡ true))
  unfolding reader_waits
  writer_pref_waits_iff = (to, from)
    where
      inv : Inv laws n s.lock s.pc
      inv = Safety.Reach-Inv laws n r

      to : reader_waits s.lock ≡ true → (j : ℕ) × (j < n) × (writes_or_waits (s.pc j) ≡ true)
      to e = elim (dec_lt 0 (count is_writing n s.pc)) [
        | yes h ↦ found is_writing (λ q e. ground arith) h
        | no no_writer ↦ elim (dec_lt 0 (count sleeps_to_write n s.pc)) [
          | yes h ↦ found sleeps_to_write (λ q e. ground arith) h
          | no none_asleep ↦
              found woken_to_write (λ q e. ground arith) (ground (arith, inv.counts, inv.tracks))
        ]
      ]

      from : (j : ℕ) × (j < n) × (writes_or_waits (s.pc j) ≡ true) → reader_waits s.lock ≡ true
      from h = by_pc (s.pc h.0) refl h.2
        where
          by_pc : (q : Pc) → s.pc h.0 ≡ q → writes_or_waits q ≡ true → reader_waits s.lock ≡ true
          by_pc writing at e =
              ground (arith, inv.counts, count_pos is_writing n s.pc h.0 h.1 (rw at))
          by_pc asleep_writer at e =
              ground (arith, inv.tracks, count_pos sleeps_to_write n s.pc h.0 h.1 (rw at))
          by_pc woken_writer at e =
              ground (arith, inv.tracks, count_pos woken_to_write n s.pc h.0 h.1 (rw at))
          by_pc _ at e = absurd (cc)
