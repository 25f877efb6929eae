-- ===== src/Sync/Rwlock/Tally.antt =====
-- How many threads read, write and wait, and what moving or waking threads changes.
use os_modules.Prelude.{
  ℕ, ◌+◌, ◌≤◌, ◌<◌, ◌≡◌, ◌≢◌, ◌⊎◌, refl, inl, inr, Bool, true, false, List, ◌∷◌, arith,
}
use os_modules.Prelude.Array.{Array, update}
use os_modules.Sync.Threads.{bit, count, count-update, count_zero, count_map}
use os_modules.Sync.Rwlock.Code.{Wake, signal_write, broadcast_read}
use os_modules.Sync.Rwlock.System.{
  Pc, asleep_reader, reading, asleep_writer, woken_writer, writing, wake_reader, Woken, done,
  broadcast, signal_one, signal_none,
}
use os_modules.Sync.Rwlock.Laws.{has_signal, has_broadcast}

abbrev pub is_reading : Pc → Bool
is_reading reading = true
is_reading _ = false

abbrev pub is_writing : Pc → Bool
is_writing writing = true
is_writing _ = false

abbrev pub sleeps_to_read : Pc → Bool
sleeps_to_read asleep_reader = true
sleeps_to_read _ = false

abbrev pub sleeps_to_write : Pc → Bool
sleeps_to_write asleep_writer = true
sleeps_to_write _ = false

abbrev pub woken_to_write : Pc → Bool
woken_to_write woken_writer = true
woken_to_write _ = false

module _ (n : ℕ) where
  -- Thread `i` goes to `q`; the other threads stay.
  pub record Moved (p q : Pc) (pc pc' : Array Pc) : Type 0 where
    pub readers :
        count is_reading n pc' + bit (is_reading p) ≡ count is_reading n pc + bit (is_reading q)
    pub writers :
        count is_writing n pc' + bit (is_writing p) ≡ count is_writing n pc + bit (is_writing q)
    pub asleep_r :
        count sleeps_to_read n pc' + bit (sleeps_to_read p)
        ≡ count sleeps_to_read n pc + bit (sleeps_to_read q)
    pub asleep_w :
        count sleeps_to_write n pc' + bit (sleeps_to_write p)
        ≡ count sleeps_to_write n pc + bit (sleeps_to_write q)
    pub woken_w :
        count woken_to_write n pc' + bit (woken_to_write p)
        ≡ count woken_to_write n pc + bit (woken_to_write q)

  pub move :
      (pc : Array Pc) (i : ℕ) {p : Pc} (q : Pc) → i < n → pc i ≡ p → Moved p q pc (update pc i q)
  move pc i q lt e = record {
    readers = rw (← e) (count-update is_reading n pc i q lt);
    writers = rw (← e) (count-update is_writing n pc i q lt);
    asleep_r = rw (← e) (count-update sleeps_to_read n pc i q lt);
    asleep_w = rw (← e) (count-update sleeps_to_write n pc i q lt);
    woken_w = rw (← e) (count-update woken_to_write n pc i q lt);
  }

  -- What the wake-up calls `ws` change.
  pub record Effect (ws : List Wake) (pc pc' : Array Pc) : Type 0 where
    pub readers : count is_reading n pc' ≡ count is_reading n pc
    pub writers : count is_writing n pc' ≡ count is_writing n pc
    pub asleep_r : count sleeps_to_read n pc' ≤ count sleeps_to_read n pc
    pub asleep_w : count sleeps_to_write n pc' ≤ count sleeps_to_write n pc
    pub woken_w : count woken_to_write n pc ≤ count woken_to_write n pc'
    pub waiting :
        count sleeps_to_write n pc' + count woken_to_write n pc'
        ≡ count sleeps_to_write n pc + count woken_to_write n pc
    pub broadcasts : has_broadcast ws ≡ true → count sleeps_to_read n pc' ≡ 0
    pub signals :
        has_signal ws ≡ true → (count sleeps_to_write n pc' ≡ 0) ⊎ (0 < count woken_to_write n pc')

  module _ {ws : List Wake} {pc pc' : Array Pc} where
    after_broadcast : Effect ws (λ i. wake_reader (pc i)) pc' → Effect (broadcast_read ∷ ws) pc pc'
    after_broadcast e = record {
      readers = omega (arith, e.readers, count_map is_reading n pc wake_reader (λ a. ground arith));
      writers = omega (arith, e.writers, count_map is_writing n pc wake_reader (λ a. ground arith));
      asleep_r = omega (arith, e.asleep_r, none_asleep);
      asleep_w = omega (arith, e.asleep_w, asleep_same);
      woken_w = omega (arith, e.woken_w, woken_same);
      waiting = omega (arith, e.waiting, asleep_same, woken_same);
      broadcasts = λ _. omega (arith, e.asleep_r, none_asleep);
      signals = λ h. e.signals h;
    }
      where
        none_asleep : count sleeps_to_read n (λ i. wake_reader (pc i)) ≡ 0
        none_asleep = count_zero sleeps_to_read n _ (λ i lt. ground arith)

        asleep_same : count sleeps_to_write n (λ i. wake_reader (pc i)) ≡ count sleeps_to_write n pc
        asleep_same = count_map sleeps_to_write n pc wake_reader (λ a. ground arith)

        woken_same : count woken_to_write n (λ i. wake_reader (pc i)) ≡ count woken_to_write n pc
        woken_same = count_map woken_to_write n pc wake_reader (λ a. ground arith)

    after_signal :
        (i : ℕ)
        → i < n
        → pc i ≡ asleep_writer
        → Effect ws (update pc i woken_writer) pc'
        → Effect (signal_write ∷ ws) pc pc'
    after_signal i lt at e =
        let m : Moved asleep_writer woken_writer pc (update pc i woken_writer) =
          move pc i woken_writer lt at in
        record {
          readers = omega arith;
          writers = omega arith;
          asleep_r = omega arith;
          asleep_w = omega arith;
          woken_w = omega arith;
          waiting = omega arith;
          broadcasts = e.broadcasts;
          signals = λ _. inr (omega arith);
        }

    after_no_signal :
        ((i : ℕ) → i < n → pc i ≢ asleep_writer)
        → Effect ws pc pc'
        → Effect (signal_write ∷ ws) pc pc'
    after_no_signal none e = record {
      readers = e.readers;
      writers = e.writers;
      asleep_r = e.asleep_r;
      asleep_w = e.asleep_w;
      woken_w = e.woken_w;
      waiting = e.waiting;
      broadcasts = e.broadcasts;
      signals = λ _. inl (omega (arith, e.asleep_w, none_asleep));
    }
      where
        none_asleep : count sleeps_to_write n pc ≡ 0
        none_asleep = count_zero sleeps_to_write n pc (λ i lt. ground (arith, none i lt))

  pub Woken-Effect : {ws : List Wake} {pc pc' : Array Pc} → Woken n ws pc pc' → Effect ws pc pc'
  Woken-Effect done = record {
    readers = refl;
    writers = refl;
    asleep_r = omega arith;
    asleep_w = omega arith;
    woken_w = omega arith;
    waiting = refl;
    broadcasts = λ h. cc;
    signals = λ h. cc;
  }
  Woken-Effect (broadcast w) = after_broadcast (Woken-Effect w)
  Woken-Effect (signal_one i lt e w) = after_signal i lt e (Woken-Effect w)
  Woken-Effect (signal_none none w) = after_no_signal none (Woken-Effect w)
