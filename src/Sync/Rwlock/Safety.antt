-- ===== src/Sync/Rwlock/Safety.antt =====
-- What holds in every reachable state of a version of the lock that satisfies `Laws`.
use os_modules.Prelude.{
  ℕ, ◌+◌, ◌<◌, ◌≡◌, ◌≢◌, ◌⊎◌, refl, inl, inr, Bool, true, false, List, [], ◌∷◌, arith, dec_lt, ap,
  sym, ◌∙◌, Bool-cases,
}
use os_modules.Prelude.Int.{pos}
use os_modules.Prelude.Array.{Array, update}
use os_modules.Sync.Threads.{count, count_pos, count_zero, count_find, count_unique}
use os_modules.Sync.Rwlock.Code.{Lock, Code, Wake, signal_write, broadcast_read}
use os_modules.Sync.Rwlock.Laws.{Laws}
use os_modules.Sync.Rwlock.System.{
  Pc, idle, asleep_reader, woken_reader, reading, asleep_writer, woken_writer, writing, wake_reader,
  Woken, done, broadcast, signal_one, signal_none, System, Step, reader_sleeps, reader_goes_in,
  reader_leaves, writer_sleeps, writer_goes_in, writer_leaves, spurious_reader, spurious_writer,
  Reach, begin, next, start,
}
use os_modules.Sync.Rwlock.Tally.{
  is_reading, is_writing, sleeps_to_read, sleeps_to_write, woken_to_write, Woken-Effect,
}
use os_modules.Sync.Rwlock.Invariant.{
  Inv, sleep_reader, enter_reader, leave_reader, sleep_writer, enter_writer, leave_writer,
  wake_one_reader, wake_one_writer,
}

-- A thread that is in, or has been woken, and so has a step to make by itself.
abbrev pub can_go : Pc → Bool
can_go reading = true
can_go writing = true
can_go woken_reader = true
can_go woken_writer = true
can_go _ = false

abbrev pub is_waiting : Pc → Bool
is_waiting asleep_reader = true
is_waiting asleep_writer = true
is_waiting woken_reader = true
is_waiting woken_writer = true
is_waiting _ = false

-- Wake-up calls can be carried out in any state.
pub wakes : (n : ℕ) (ws : List Wake) (pc : Array Pc) → (pc' : Array Pc) × Woken n ws pc pc'
wakes n [] pc = (pc, done)
wakes n (broadcast_read ∷ ws) pc =
    let (pc', w) = wakes n ws (λ i. wake_reader (pc i)) in (pc', broadcast w)
wakes n (signal_write ∷ ws) pc = elim (dec_lt 0 (count sleeps_to_write n pc)) [
  | yes some_asleep ↦
      let (i, lt, e) = count_find sleeps_to_write n pc some_asleep in
      let (pc', w) = wakes n ws (update pc i woken_writer) in
      (pc', signal_one i lt (ground arith) w)
  | no none_asleep ↦
      let (pc', w) = wakes n ws pc in
      (pc', signal_none (λ i lt e. none_asleep (count_pos sleeps_to_write n pc i lt (rw e))) w)
]

module _ {c : Code} {Tracks : Lock → ℕ → Type 0} (laws : Laws c Tracks) (n : ℕ) where
  pub Step-Inv : {s t : System} → Step c n s t → Inv laws n s.lock s.pc → Inv laws n t.lock t.pc
  Step-Inv {s} (reader_sleeps i lt test waits) inv =
      sleep_reader laws n s inv i lt (s.pc i) refl test waits
  Step-Inv {s} (reader_goes_in i lt test waits) inv =
      enter_reader laws n s inv i lt (s.pc i) refl test waits
  Step-Inv {s} (reader_leaves i lt at w) inv = leave_reader laws n s inv i lt at (Woken-Effect n w)
  Step-Inv {s} (writer_sleeps i lt test waits) inv =
      sleep_writer laws n s inv i lt (s.pc i) refl test waits
  Step-Inv {s} (writer_goes_in i lt test waits) inv =
      enter_writer laws n s inv i lt (s.pc i) refl test waits
  Step-Inv {s} (writer_leaves i lt at w) inv = leave_writer laws n s inv i lt at (Woken-Effect n w)
  Step-Inv {s} (spurious_reader i lt at) inv = wake_one_reader laws n s inv i lt at
  Step-Inv {s} (spurious_writer i lt at) inv = wake_one_writer laws n s inv i lt at

  start-Inv : Inv laws n (start c).lock (start c).pc
  start-Inv = record {
    counts =
        inl (
          idle_count is_writing refl,
          laws.init_count _ ∙ ap pos (sym (idle_count is_reading refl)),
        );
    tracks =
        rw (idle_count sleeps_to_write refl, idle_count woken_to_write refl)
          (laws.init_tracks _ refl);
    readers = λ h. absurd (omega (arith, idle_count sleeps_to_read refl));
    writers = λ h. absurd (omega (arith, idle_count sleeps_to_write refl));
  }
    where
      idle_count : (p : Pc → Bool) → p idle ≡ false → count p n (λ _. idle) ≡ 0
      idle_count p e = count_zero p n _ (λ i lt. e)

  pub Reach-Inv : {s : System} → Reach c n s → Inv laws n s.lock s.pc
  Reach-Inv begin = start-Inv
  Reach-Inv (next r st) = Step-Inv st (Reach-Inv r)

  module _ {s : System} (r : Reach c n s) where
    -- A thread that writes is alone: no other thread reads or writes.
    pub exclusive :
        (i j : ℕ)
        → i < n
        → j < n
        → s.pc i ≡ writing
        → (s.pc j ≡ reading) ⊎ (s.pc j ≡ writing)
        → i ≡ j
    exclusive i j hi hj wi (inl rj) = absurd (
        ground (
          arith,
          (Reach-Inv r).counts,
          count_pos is_writing n s.pc i hi (rw wi),
          count_pos is_reading n s.pc j hj (rw rj),
        ))
    exclusive i j hi hj wi (inr wj) =
        count_unique is_writing n s.pc (ground (arith, (Reach-Inv r).counts)) i j hi hj (rw wi)
          (rw wj)

    abbrev Goes : Type 0
    Goes = (j : ℕ) × (j < n) × (can_go (s.pc j) ≡ true)

    found : (p : Pc → Bool) → ((q : Pc) → p q ≡ true → can_go q ≡ true) → 0 < count p n s.pc → Goes
    found p goes h = let (j, lt, e) = count_find p n s.pc h in (j, lt, goes (s.pc j) e)

    -- While resource_cnt is not 0, some thread is in.
    in_goes : s.lock.resource_cnt ≢ pos 0 → Goes
    in_goes nz = elim (dec_lt 0 (count is_writing n s.pc)) [
      | yes some_writer ↦ found is_writing (λ q e. ground arith) some_writer
      | no no_writer ↦ found is_reading (λ q e. ground arith) (ground (arith, (Reach-Inv r).counts))
    ]

    -- While a writer waits, some thread is in or woken.
    writer_goes : 0 < count sleeps_to_write n s.pc + count woken_to_write n s.pc → Goes
    writer_goes h = elim (dec_lt 0 (count woken_to_write n s.pc)) [
      | yes some_woken ↦ found woken_to_write (λ q e. ground arith) some_woken
      | no none_woken ↦ elim ((Reach-Inv r).writers (omega arith)) [
        | inl nz ↦ in_goes nz
        | inr some_woken ↦ absurd (omega arith)
      ]
    ]

    reader_goes : 0 < count sleeps_to_read n s.pc → Goes
    reader_goes h = elim ((Reach-Inv r).readers h) [
      | inl writes ↦ in_goes (λ z. cc)
      | inr some_wait ↦ writer_goes (omega (arith, laws.tracks_bound s.lock _ (Reach-Inv r).tracks))
    ]

    -- If a thread waits, some thread is in or has been woken: no wake-up is lost.
    pub no_lost_wakeup : (i : ℕ) → i < n → is_waiting (s.pc i) ≡ true → Goes
    no_lost_wakeup i lt e = waits_goes (s.pc i) refl e
      where
        waits_goes : (q : Pc) → s.pc i ≡ q → is_waiting q ≡ true → Goes
        waits_goes idle at e = absurd (cc)
        waits_goes asleep_reader at e = reader_goes (count_pos sleeps_to_read n s.pc i lt (rw at))
        waits_goes woken_reader at e = (i, lt, rw at)
        waits_goes reading at e = (i, lt, rw at)
        waits_goes asleep_writer at e =
            writer_goes (omega (arith, count_pos sleeps_to_write n s.pc i lt (rw at)))
        waits_goes woken_writer at e = (i, lt, rw at)
        waits_goes writing at e = (i, lt, rw at)

-- A thread that is in or woken has a step.
module _ (c : Code) (n : ℕ) (s : System) where
  pub Step-can_go : (i : ℕ) → i < n → can_go (s.pc i) ≡ true → (t : System) × Step c n s t
  Step-can_go i lt e = go (s.pc i) refl e
    where
      go : (q : Pc) → s.pc i ≡ q → can_go q ≡ true → (t : System) × Step c n s t
      go reading at e =
          let (pc', w) = wakes n (c.reader_unlock s.lock).1 (update s.pc i idle) in
          (_, reader_leaves i lt at w)
      go writing at e =
          let (pc', w) = wakes n (c.writer_unlock s.lock).1 (update s.pc i idle) in
          (_, writer_leaves i lt at w)
      go woken_reader at e = elim (Bool-cases (c.reader_waits s.lock)) [
        | inl waits ↦ (_, reader_sleeps i lt (rw at) waits)
        | inr free ↦ (_, reader_goes_in i lt (rw at) free)
      ]
      go woken_writer at e = elim (Bool-cases (c.writer_waits s.lock)) [
        | inl waits ↦ (_, writer_sleeps i lt (rw at) waits)
        | inr free ↦ (_, writer_goes_in i lt (rw at) free)
      ]
      go _ at e = absurd (cc)
