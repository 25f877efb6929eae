-- ===== src/Sync/Rwlock/Trial/Woken.antt =====
-- test-reader-pref.cpp, test-writer-pref.cpp: a thread of a test that can go on, goes on.
use mathlib.Core.Path.{subst}
use os_modules.Prelude.{
  ℕ, ◌<◌, ◌≡◌, ◌≢◌, ◌⊎◌, refl, ap, ◌∙◌, inl, inr, Bool-cases, true, some, List, ℕ_discrete, arith,
}
use os_modules.Prelude.Array.{Array, update, update_self, update_ne}
use os_modules.Sync.Rwlock.Code.{Lock, Wake, Code}
use os_modules.Sync.Rwlock.Safety.{wakes, can_go, is_waiting}
use os_modules.Sync.Rwlock.System.{
  Pc, idle, asleep_reader, woken_reader, reading, asleep_writer, woken_writer, writing, Woken,
  reader_sleeps, reader_goes_in, reader_leaves, writer_sleeps, writer_goes_in, writer_leaves,
  at_reader_test, at_writer_test,
}
use os_modules.Sync.Rwlock.Trial.{
  Role, reader, writer, Stage, outside, inside, acquired, released, finished, Trial, holds, Does,
  stays, waits, enters, leaves, num_threads, role_of, GoesOn, calls_lock, notes_acquire,
  notes_release,
}
use os_modules.Sync.Rwlock.Trial.Calls.{
  WokenOne, Woken-WokenOne, idle-WokenOne, idle-outside, woken-Does,
}
use os_modules.Sync.Rwlock.Trial.Fits.{Fits}

module _ (c : Code) (r w : ℕ) (s : Trial) where
  abbrev n : ℕ
  n = num_threads c r w

  abbrev at : ℕ → Role
  at = role_of c r w

  -- Thread `j` moves, and no other.
  one-Does :
      (j : ℕ) (q : Pc) (st' : Stage)
      → Does (at j) (s.lock.pc j) q (s.stage j) st'
      → (i : ℕ) → i < n
      → Does (at i) (s.lock.pc i) (update s.lock.pc j q i) (s.stage i) (update s.stage j st' i)
  one-Does j q st' does i lt = elim (ℕ_discrete j i) [
    | yes e ↦
        subst
          (λ i.
            Does (at i) (s.lock.pc i) (update s.lock.pc j q i) (s.stage i) (update s.stage j st' i))
          e (rw (update_self s.lock.pc j q, update_self s.stage j st') does)
    | no ne ↦ stays (update_ne s.lock.pc j i q ne) (update_ne s.stage j i st' ne)
  ]

  abbrev Goes : Type 0
  Goes = GoesOn c r w s

  reader-Goes :
      (j k : ℕ)
      → j < n
      → at j ≡ reader k
      → s.stage j ≡ outside
      → at_reader_test (s.lock.pc j) ≡ true
      → Goes
  reader-Goes j k lt e st test = elim (Bool-cases (c.reader_waits s.lock.lock)) [
    | inl wait ↦ (
      _,
      calls_lock _ _ (reader_sleeps j lt test wait)
          (one-Does j asleep_reader outside (waits (rw e refl) st refl)),
      refl,
    )
    | inr free ↦ (
      _,
      calls_lock _ _ (reader_goes_in j lt test free)
          (one-Does j reading inside (enters (rw e refl) st refl)),
      refl,
    )
  ]

  writer-Goes :
      (j k : ℕ) (p : Pc)
      → j < n
      → at j ≡ writer k
      → s.stage j ≡ outside
      → s.lock.pc j ≡ p
      → (p ≡ idle) ⊎ (p ≡ woken_writer)
      → Goes
  writer-Goes j k p lt e st here awake =
      let (l, test) = tested p here awake in
      elim (Bool-cases (c.writer_waits l)) [
        | inl wait ↦ (
          _,
          calls_lock _ _ (writer_sleeps j lt test wait)
              (one-Does j asleep_writer outside (waits (rw e refl) st refl)),
          refl,
        )
        | inr free ↦ (
          _,
          calls_lock _ _ (writer_goes_in j lt test free)
              (one-Does j writing inside (enters (rw e refl) st refl)),
          refl,
        )
      ]
    where
      tested :
          (p : Pc)
          → s.lock.pc j ≡ p
          → (p ≡ idle) ⊎ (p ≡ woken_writer)
          → (l : Lock) × (at_writer_test c (s.lock.pc j) s.lock.lock ≡ some l)
      tested p here (inl e) = (c.writer_calls s.lock.lock, rw (here, e) refl)
      tested p here (inr e) = (s.lock.lock, rw (here, e) refl)

  -- Thread `j` gives the lock back.
  leave-Does :
      (j : ℕ) {ws : List Wake} {pc' : Array Pc}
      → s.lock.pc j ≡ holds (at j)
      → s.stage j ≡ released
      → ((i : ℕ) → i < n → Fits (at i) (s.lock.pc i) (s.stage i))
      → Woken n ws (update s.lock.pc j idle) pc'
      → (i : ℕ) → i < n
      → Does (at i) (s.lock.pc i) (pc' i) (s.stage i) (update s.stage j finished i)
  leave-Does j {pc' = pc'} held st fits wk i lt = elim (ℕ_discrete j i) [
    | yes e ↦
        subst (λ i. Does (at i) (s.lock.pc i) (pc' i) (s.stage i) (update s.stage j finished i)) e
          (leaves held
            (idle-WokenOne (pc' j) (
              subst (λ p. WokenOne p (pc' j)) (update_self s.lock.pc j idle) (Woken-WokenOne wk j)))
            st (update_self s.stage j finished))
    | no ne ↦ rw (update_ne s.stage j i finished ne) (
        woken-Does (at i) (s.lock.pc i) (pc' i) (s.stage i) (fits i lt)
          (subst (λ p. WokenOne p (pc' i)) (update_ne s.lock.pc j i idle ne) (Woken-WokenOne wk i)))
  ]

  module _ (fits : (i : ℕ) → i < n → Fits (at i) (s.lock.pc i) (s.stage i)) where
    leaver-Goes : (j : ℕ) → j < n → s.stage j ≡ released → Goes
    leaver-Goes j lt st = leaving (at j) refl (subst (Fits (at j) (s.lock.pc j)) st (fits j lt))
      where
        leaving : (ro : Role) → at j ≡ ro → s.lock.pc j ≡ holds (at j) → Goes
        leaving (reader k) e held =
            let (pc', wk) = wakes n (c.reader_unlock s.lock.lock).1 (update s.lock.pc j idle) in
            (
              _,
              calls_lock _ _ (reader_leaves j lt (held ∙ ap holds e) wk)
                  (leave-Does j held st fits wk),
              refl,
            )
        leaving (writer k) e held =
            let (pc', wk) = wakes n (c.writer_unlock s.lock.lock).1 (update s.lock.pc j idle) in
            (
              _,
              calls_lock _ _ (writer_leaves j lt (held ∙ ap holds e) wk)
                  (leave-Does j held st fits wk),
              refl,
            )

    -- A thread at the test of its function.
    outside-Goes :
        (j : ℕ)
        → j < n
        → s.stage j ≡ outside
        → (s.lock.pc j ≡ idle) ⊎ (s.lock.pc j ≡ woken_reader) ⊎ (s.lock.pc j ≡ woken_writer)
        → Goes
    outside-Goes j lt st awake =
        tests (at j) refl (subst (Fits (at j) (s.lock.pc j)) st (fits j lt))
      where
        tests : (ro : Role) → at j ≡ ro → Fits ro (s.lock.pc j) outside → Goes
        tests (reader k) e f = reader-Goes j k lt e st (ground (arith, awake))
        tests (writer k) e f = writer-Goes j k (s.lock.pc j) lt e st refl (ground (arith, awake))

    -- A thread that is in or woken can go on.
    pub can_go-Goes : (j : ℕ) → j < n → can_go (s.lock.pc j) ≡ true → Goes
    can_go-Goes j lt go = at_stage (s.stage j) refl (fits j lt)
      where
        at_stage : (st : Stage) → s.stage j ≡ st → Fits (at j) (s.lock.pc j) (s.stage j) → Goes
        at_stage outside e f =
            outside-Goes j lt e (awake (at j) (subst (Fits (at j) (s.lock.pc j)) e f))
          where
            awake :
                (ro : Role)
                → Fits ro (s.lock.pc j) outside
                → (s.lock.pc j ≡ idle) ⊎ (s.lock.pc j ≡ woken_reader) ⊎ (s.lock.pc j ≡ woken_writer)
            awake (reader k) f = ground (arith, go)
            awake (writer k) f = ground (arith, go)
        at_stage inside e f = (_, notes_acquire j lt e, refl)
        at_stage acquired e f = (_, notes_release j lt e, refl)
        at_stage released e f = leaver-Goes j lt e
        at_stage finished e f = absurd (ground (arith, go, subst (Fits (at j) (s.lock.pc j)) e f))

    -- When a thread is not at its end, some thread can go on, if a thread that waits has one that is in or woken.
    pub unfinished-Goes :
        (i : ℕ)
        → i < n
        → s.stage i ≢ finished
        → (is_waiting (s.lock.pc i) ≡ true → (j : ℕ) × (j < n) × (can_go (s.lock.pc j) ≡ true))
        → Goes
    unfinished-Goes i lt more awaited = at_pc (s.lock.pc i) refl
      where
        at_pc : (p : Pc) → s.lock.pc i ≡ p → Goes
        at_pc idle e =
            outside-Goes i lt (idle-outside (at i) (s.lock.pc i) (s.stage i) (fits i lt) e more)
              (inl e)
        at_pc asleep_reader e = let (j, lt', go) = awaited (rw e refl) in can_go-Goes j lt' go
        at_pc asleep_writer e = let (j, lt', go) = awaited (rw e refl) in can_go-Goes j lt' go
        at_pc _ e = can_go-Goes i lt (rw e refl)
