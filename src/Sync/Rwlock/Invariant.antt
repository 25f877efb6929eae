-- ===== src/Sync/Rwlock/Invariant.antt =====
-- How resource_cnt and the counter of waiting writers go with the threads, and who may sleep; kept
-- by every step of a version of the lock that satisfies `Laws`.
use os_modules.Prelude.{
  ℕ, suc, ◌+◌, ◌≤◌, ◌<◌, ◌≡◌, ◌≢◌, ◌⊎◌, refl, ◌∙◌, ap, inl, inr, some, true, false, arith, dec_lt,
}
use os_modules.Prelude.Int.{ℤ, pos, negsuc}
use os_modules.Prelude.Array.{Array, update}
use os_modules.Sync.Threads.{bit, count}
use os_modules.Sync.Rwlock.Code.{Lock, Code}
use os_modules.Sync.Rwlock.Laws.{Laws}
use os_modules.Sync.Rwlock.System.{
  Pc, idle, asleep_reader, woken_reader, reading, asleep_writer, woken_writer, writing, System,
  at_reader_test, at_writer_test,
}
use os_modules.Sync.Rwlock.Tally.{
  is_reading, is_writing, sleeps_to_read, sleeps_to_write, woken_to_write, Moved, move, Effect,
}

-- `k` threads read and `w` write.
abbrev pub Counts : ℤ → (k w : ℕ) → Type 0
Counts z k w = ((w ≡ 0) × (z ≡ pos k)) ⊎ ((w ≡ 1) × (k ≡ 0) × (z ≡ negsuc 0))

module _ {c : Code} {Tracks : Lock → ℕ → Type 0} (laws : Laws c Tracks) (n : ℕ) where
  pub record Inv (l : Lock) (pc : Array Pc) : Type 0 where
    pub counts : Counts l.resource_cnt (count is_reading n pc) (count is_writing n pc)
    pub tracks : Tracks l (count sleeps_to_write n pc + count woken_to_write n pc)
    pub readers :
        0 < count sleeps_to_read n pc → (l.resource_cnt ≡ negsuc 0) ⊎ (0 < l.waiting_writers)
    pub writers :
        0 < count sleeps_to_write n pc → (l.resource_cnt ≢ pos 0) ⊎ (0 < count woken_to_write n pc)

  -- `tracks` for another count of the same threads.
  tracks_at : {l : Lock} {w w' : ℕ} → w ≡ w' → Tracks l w → Tracks l w'
  tracks_at {l} e t = rw (← e) t

  -- While a thread reads, resource_cnt is the number of readers.
  reading_count :
      (s : System)
      → Inv s.lock s.pc
      → 0 < count is_reading n s.pc
      → s.lock.resource_cnt ≡ pos (count is_reading n s.pc)
  reading_count s inv some_reader = ground (arith, inv.counts)

  -- The lock at the test in WriterLock; the thread counts as waiting from here on.
  record Came (w : ℕ) (p : Pc) (l l' : Lock) : Type 0 where
    same : l'.resource_cnt ≡ l.resource_cnt
    tracks : (w' : ℕ) → w' + bit (woken_to_write p) ≡ w + 1 → Tracks l' w'
    grows : l.waiting_writers ≤ l'.waiting_writers

  came :
      (w : ℕ) (p : Pc) (l : Lock) {l' : Lock}
      → Tracks l w
      → at_writer_test c p l ≡ some l'
      → Came w p l l'
  came w idle l {l'} t e =
      let at : c.writer_calls l ≡ l' = cc in
      rw (← at) (record {
        same = laws.writer_calls_count l;
        tracks = λ w' h. tracks_at (omega arith) (laws.writer_calls_tracks l w t);
        grows = laws.writer_calls_grows l;
      })
  came w woken_writer l {l'} t e =
      let at : l ≡ l' = cc in
      rw (← at)
        (record { same = refl; tracks = λ w' h. tracks_at (omega arith) t; grows = omega arith })
  came w _ l t e = absurd (cc)

  module _ (s : System) (inv : Inv s.lock s.pc) (i : ℕ) (lt : i < n) where
    abbrev waiting : ℕ
    waiting = count sleeps_to_write n s.pc + count woken_to_write n s.pc

    pub sleep_reader :
        (p : Pc)
        → s.pc i ≡ p
        → at_reader_test p ≡ true
        → c.reader_waits s.lock ≡ true
        → Inv s.lock (update s.pc i asleep_reader)
    sleep_reader p at test waits =
        let m : Moved n p asleep_reader s.pc (update s.pc i asleep_reader) =
          move n s.pc i asleep_reader lt at in
        record {
          counts = ground (arith, inv.counts);
          tracks = tracks_at (ground arith) inv.tracks;
          readers = λ _. laws.reader_waits_true s.lock waits;
          writers = λ h. ground (arith, inv.writers);
        }

    pub enter_reader :
        (p : Pc)
        → s.pc i ≡ p
        → at_reader_test p ≡ true
        → c.reader_waits s.lock ≡ false
        → Inv (c.reader_enters s.lock) (update s.pc i reading)
    enter_reader p at test waits =
        let m : Moved n p reading s.pc (update s.pc i reading) = move n s.pc i reading lt at in
        let (no_writer, none_wait) = laws.reader_waits_false s.lock _ inv.tracks waits in
        record {
          counts =
              ground (arith, inv.counts, laws.reader_enters_count s.lock (count is_reading n s.pc));
          tracks =
              laws.tracks_same s.lock _ _ (laws.reader_enters_same s.lock)
                (tracks_at (ground arith) inv.tracks);
          readers = λ h. ground (arith, inv.readers);
          writers = λ h. inl λ e.
              ground (arith, inv.counts, laws.reader_enters_count s.lock (count is_reading n s.pc));
        }

    pub leave_reader :
        {pc' : Array Pc}
        → s.pc i ≡ reading
        → Effect n (c.reader_unlock s.lock).1 (update s.pc i idle) pc'
        → Inv (c.reader_unlock s.lock).0 pc'
    leave_reader {pc'} at e =
        let m : Moved n reading idle s.pc (update s.pc i idle) = move n s.pc i idle lt at in
        let k : ℕ = count is_reading n pc' in
        let before : s.lock.resource_cnt ≡ pos (suc k) =
          reading_count s inv (omega arith) ∙ ap pos (omega arith) in
        let after : (c.reader_unlock s.lock).0.resource_cnt ≡ pos k =
          laws.reader_unlock_count s.lock k before in
        record {
          counts = inl (ground (arith, inv.counts), after);
          tracks =
              laws.tracks_same s.lock _ _ (laws.reader_unlock_same s.lock)
                (tracks_at (ground arith) inv.tracks);
          readers = λ h. ground (arith, inv.readers, laws.reader_unlock_same s.lock);
          writers = λ h. elim (dec_lt 0 k) [
            | yes others ↦ inl λ z. ground arith
            | no last ↦
                let zero_left : pos k ≡ pos 0 = ap pos (omega arith) in
                inr
                  (ground (arith, e.signals (laws.reader_unlock_wakes s.lock (after ∙ zero_left))))
          ];
        }

    pub sleep_writer :
        (p : Pc) {l : Lock}
        → s.pc i ≡ p
        → at_writer_test c p s.lock ≡ some l
        → c.writer_waits l ≡ true
        → Inv l (update s.pc i asleep_writer)
    sleep_writer p {l} at test waits =
        let m : Moved n p asleep_writer s.pc (update s.pc i asleep_writer) =
          move n s.pc i asleep_writer lt at in
        let at_test : Came waiting p s.lock l = came waiting p s.lock inv.tracks test in
        record {
          counts = ground (arith, inv.counts, at_test.same);
          tracks = at_test.tracks _ (ground arith);
          readers = λ h. ground (arith, inv.readers, at_test.same, at_test.grows);
          writers = λ _. inl (laws.writer_waits_true l waits);
        }

    pub enter_writer :
        (p : Pc) {l : Lock}
        → s.pc i ≡ p
        → at_writer_test c p s.lock ≡ some l
        → c.writer_waits l ≡ false
        → Inv (c.writer_enters l) (update s.pc i writing)
    enter_writer p {l} at test waits =
        let m : Moved n p writing s.pc (update s.pc i writing) = move n s.pc i writing lt at in
        let at_test : Came waiting p s.lock l = came waiting p s.lock inv.tracks test in
        let none_in : l.resource_cnt ≡ pos 0 = laws.writer_waits_false l waits in
        let taken : (c.writer_enters l).resource_cnt ≡ negsuc 0 = laws.writer_enters_count l in
        record {
          counts = inr (
            ground (arith, inv.counts, at_test.same),
            ground (arith, inv.counts, at_test.same),
            taken,
          );
          tracks = laws.writer_enters_tracks l _ (at_test.tracks _ (ground arith));
          readers = λ _. inl taken;
          writers = λ _. inl λ z. cc;
        }

    pub leave_writer :
        {pc' : Array Pc}
        → s.pc i ≡ writing
        → Effect n (c.writer_unlock s.lock).1 (update s.pc i idle) pc'
        → Inv (c.writer_unlock s.lock).0 pc'
    leave_writer {pc'} at e =
        let m : Moved n writing idle s.pc (update s.pc i idle) = move n s.pc i idle lt at in
        record {
          counts = inl (
            ground (arith, inv.counts),
            laws.writer_unlock_count s.lock ∙ ap pos (ground (arith, inv.counts)),
          );
          tracks =
              laws.tracks_same s.lock _ _ (laws.writer_unlock_same s.lock)
                (tracks_at (ground arith) inv.tracks);
          readers = λ h. elim (dec_lt 0 s.lock.waiting_writers) [
            | yes some_wait ↦ inr (rw (← laws.writer_unlock_same s.lock) some_wait)
            | no none_wait ↦
                absurd
                  (omega (arith, e.broadcasts (laws.writer_unlock_broadcasts s.lock (omega arith))))
          ];
          writers = λ h. inr (
              ground (
                arith,
                e.signals (laws.writer_unlock_signals s.lock waiting inv.tracks (omega arith)),
              ));
        }

    pub wake_one_reader : s.pc i ≡ asleep_reader → Inv s.lock (update s.pc i woken_reader)
    wake_one_reader at =
        let m : Moved n asleep_reader woken_reader s.pc (update s.pc i woken_reader) =
          move n s.pc i woken_reader lt at in
        record {
          counts = ground (arith, inv.counts);
          tracks = tracks_at (ground arith) inv.tracks;
          readers = λ h. inv.readers (ground arith);
          writers = λ h. ground (arith, inv.writers);
        }

    pub wake_one_writer : s.pc i ≡ asleep_writer → Inv s.lock (update s.pc i woken_writer)
    wake_one_writer at =
        let m : Moved n asleep_writer woken_writer s.pc (update s.pc i woken_writer) =
          move n s.pc i woken_writer lt at in
        record {
          counts = ground (arith, inv.counts);
          tracks = tracks_at (ground arith) inv.tracks;
          readers = λ h. inv.readers (ground arith);
          writers = λ h. inr (ground arith);
        }
