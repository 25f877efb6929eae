-- ===== src/Sync/Rwlock/Trial.antt =====
-- pthreads-sync-code/rwlock/test-reader-pref.cpp and test-writer-pref.cpp: readers and writers that note when they
-- take the lock and when they give it back, and main, which looks at the times.
pub mod Verdict
pub mod Fits
pub mod Notes
pub mod Calls
pub mod Alone
pub mod Woken
pub mod Ends
mod Tests
use os_modules.Prelude.{ℕ, ◌+◌, ◌-◌, ◌*◌, ◌<◌, ◌≡◌, Bool, true, false, ltb, if◌then◌else◌}
use os_modules.Prelude.Array.{Array, update}
use os_modules.Sync.Rwlock.Code.{Code}
use os_modules.Sync.Rwlock.System.{
  Pc, idle, asleep_reader, woken_reader, reading, asleep_writer, woken_writer, writing, System,
  Step, is_own_step, start,
}

-- The function of a thread, with its threadNUmber.
pub data Role : Type 0 where
  reader writer : (number : ℕ) → Role

-- Thread `i` in the order in which main creates them: readers, writers, and as many readers again.
unfoldable pub role : (read_num_threads write_num_threads i : ℕ) → Role
role r w i = if ltb i r then reader i else if ltb i (r + w) then writer (i - r) else reader (i - w)

-- Before the return of ReaderLock or WriterLock; before the first and before the second time is noted; before the
-- return of ReaderUnlock or WriterUnlock; behind it.
pub data Stage : Type 0 where
  outside inside acquired released finished : Stage

pub record Times : Type 0 where
  pub idx : ℕ
  pub reader_acquire_time : Array ℕ
  pub reader_release_time : Array ℕ
  pub writer_acquire_time : Array ℕ
  pub writer_release_time : Array ℕ

-- What stands between pthread_spin_lock and pthread_spin_unlock, before and behind usleep.
unfoldable pub note_acquire : Role → Times → Times
unfolding update
note_acquire (reader k) t = record t {
  reader_acquire_time = update t.reader_acquire_time k t.idx;
  idx = t.idx + 1;
}
note_acquire (writer k) t = record t {
  writer_acquire_time = update t.writer_acquire_time k t.idx;
  idx = t.idx + 1;
}

unfoldable pub note_release : Role → Times → Times
unfolding update
note_release (reader k) t = record t {
  reader_release_time = update t.reader_release_time k t.idx;
  idx = t.idx + 1;
}
note_release (writer k) t = record t {
  writer_release_time = update t.writer_release_time k t.idx;
  idx = t.idx + 1;
}

pub record Trial : Type 0 where
  pub lock : System
  pub stage : Array Stage
  pub times : Times

-- Where the lock has a thread that holds it.
abbrev pub holds : Role → Pc
holds (reader k) = reading
holds (writer k) = writing

-- Whether the thread has called its function to take the lock, and it has not returned.
abbrev pub in_call : Role → Pc → Bool
in_call (reader k) asleep_reader = true
in_call (reader k) woken_reader = true
in_call (writer k) asleep_writer = true
in_call (writer k) woken_writer = true
in_call _ _ = false

-- What a step of the lock may be for a thread: nothing, a wait or the end of one, the return of the function that takes
-- the lock, or of the one that gives it back.
pub data Does (r : Role) (p p' : Pc) (st st' : Stage) : Type 0 where
  stays : p' ≡ p → st' ≡ st → Does r p p' st st'
  waits : in_call r p' ≡ true → st ≡ outside → st' ≡ outside → Does r p p' st st'
  enters : p' ≡ holds r → st ≡ outside → st' ≡ inside → Does r p p' st st'
  leaves : p ≡ holds r → p' ≡ idle → st ≡ released → st' ≡ finished → Does r p p' st st'

module _ (c : Code) (read_num_threads write_num_threads : ℕ) where
  abbrev pub num_threads : ℕ
  num_threads = 2 * read_num_threads + write_num_threads

  abbrev pub role_of : ℕ → Role
  role_of = role read_num_threads write_num_threads

  pub data TrialStep (s : Trial) : Trial → Type 0 where
    calls_lock :
        (lock' : System) (stage' : Array Stage)
        → Step c num_threads s.lock lock'
        → ((i : ℕ)
            → i < num_threads
            → Does (role_of i) (s.lock.pc i) (lock'.pc i) (s.stage i) (stage' i))
        → TrialStep s (record s { lock = lock'; stage = stage' })
    notes_acquire :
        (i : ℕ)
        → i < num_threads
        → s.stage i ≡ inside
        → TrialStep s (record s {
          stage = update s.stage i acquired;
          times = note_acquire (role_of i) s.times;
        })
    notes_release :
        (i : ℕ)
        → i < num_threads
        → s.stage i ≡ acquired
        → TrialStep s (record s {
          stage = update s.stage i released;
          times = note_release (role_of i) s.times;
        })

  abbrev pub is_own_trial_step : {s t : Trial} → TrialStep s t → Bool
  is_own_trial_step (calls_lock lock' stage' step does) = is_own_step c step
  is_own_trial_step _ = true

  -- Some thread goes on, in the test or in the lock, and not by a spurious wake-up.
  abbrev pub GoesOn : Trial → Type 0
  GoesOn s = (t : Trial) × (step : TrialStep s t) × (is_own_trial_step step ≡ true)

  -- `times` are the arrays that new has not set.
  unfoldable pub trial_start : (times : Times) → Trial
  trial_start times = record {
    lock = start c;
    stage = λ i. outside;
    times = record times { idx = 0 };
  }

  pub data TrialReach (times : Times) : Trial → Type 0 where
    at_start : TrialReach times (trial_start times)
    goes_on : {s t : Trial} → TrialReach times s → TrialStep s t → TrialReach times t
