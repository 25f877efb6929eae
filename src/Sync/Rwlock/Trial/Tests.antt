-- ===== src/Sync/Rwlock/Trial/Tests.antt =====
-- Runs of the tests with one writer between two readers: the writer takes the lock first.
use os_modules.Prelude.{ℕ, ◌<◌, ◌≡◌, ◌≢◌, ◌⊎◌, refl, ℕ_discrete, arith}
use os_modules.Prelude.Array.{update, update_ne}
use os_modules.Sync.Rwlock.System.{writing, start, writer_goes_in}
use os_modules.Sync.Rwlock.Code.{Code}
use os_modules.Sync.Rwlock.ReaderPref
use os_modules.Sync.Rwlock.ReaderPref.{reader_pref}
use os_modules.Sync.Rwlock.WriterPref
use os_modules.Sync.Rwlock.WriterPref.{writer_pref}
use os_modules.Sync.Rwlock.Trial.{
  role, outside, inside, acquired, Times, note_acquire, Trial, stays, enters, num_threads, GoesOn,
  calls_lock, notes_acquire, trial_start, TrialReach, at_start, goes_on, Does,
}
use os_modules.Sync.Rwlock.Trial.Verdict.{
  readers_first, writer_not_alone, max_from, min_from, max_element, min_element, reader_verdict,
  writer_verdict,
}
use os_modules.Sync.Rwlock.Trial.Ends.{AllFinished, reader_test_lem, writer_test_lem}

abbrev no_times : Times
no_times = record {
  idx = 0;
  reader_acquire_time = λ k. 0;
  reader_release_time = λ k. 0;
  writer_acquire_time = λ k. 0;
  writer_release_time = λ k. 0;
}

-- Thread 1 has the lock.
abbrev taken : Code → Trial
taken c = record (trial_start c 1 1 no_times) {
  lock = record {
    lock = c.writer_enters (c.writer_calls (start c).lock);
    pc = update (start c).pc 1 writing;
  };
  stage = update (λ i. outside) 1 inside;
}

-- It has noted the time.
abbrev noted : Code → Trial
noted c = record (taken c) {
  stage = update (taken c).stage 1 acquired;
  times = note_acquire (role 1 1 1) (taken c).times;
}

noted-Does :
    (c : Code) (i : ℕ)
    → i < num_threads c 1 1
    → Does
        (role 1 1 i)
        ((start c).pc i)
        (update (start c).pc 1 writing i)
        outside
        (update (λ i. outside) 1 inside i)
unfolding role update
noted-Does c i lt = elim (ℕ_discrete 1 i) [
  | yes e ↦ rw (← e) (enters refl refl refl)
  | no ne ↦ stays (update_ne (start c).pc 1 i writing ne) (update_ne (λ i. outside) 1 i inside ne)
]

reader_noted : TrialReach reader_pref 1 1 no_times (noted reader_pref)
unfolding trial_start ReaderPref.writer_waits ReaderPref.initialize update
reader_noted =
    goes_on
      (goes_on at_start
        (calls_lock _ _ (writer_goes_in 1 (omega arith) refl refl) (noted-Does reader_pref)))
      (notes_acquire 1 (omega arith) refl)

writer_noted : TrialReach writer_pref 1 1 no_times (noted writer_pref)
unfolding trial_start WriterPref.writer_waits WriterPref.writer_calls WriterPref.initialize update
writer_noted =
    goes_on
      (goes_on at_start
        (calls_lock _ _ (writer_goes_in 1 (omega arith) refl refl) (noted-Does writer_pref)))
      (notes_acquire 1 (omega arith) refl)

reader_test_lem_example :
    (AllFinished 3 (noted reader_pref).stage
      × (reader_verdict 1 1 (noted reader_pref).times ≢ writer_not_alone))
    ⊎ GoesOn reader_pref 1 1 (noted reader_pref)
reader_test_lem_example = reader_test_lem reader_noted

writer_test_lem_example :
    (AllFinished 3 (noted writer_pref).stage
      × (writer_verdict 1 1 (noted writer_pref).times ≢ writer_not_alone))
    ⊎ GoesOn writer_pref 1 1 (noted writer_pref)
writer_test_lem_example = writer_test_lem writer_noted

-- The times when the writer has the lock first, and then the readers together.
abbrev writer_before : Times
writer_before = record {
  idx = 6;
  reader_acquire_time = update (λ k. 2) 1 3;
  reader_release_time = update (λ k. 4) 1 5;
  writer_acquire_time = λ k. 0;
  writer_release_time = λ k. 1;
}

-- The test of reader preference fails when a writer is the first to come to the lock, which the lock allows.
reader_test_timing : reader_verdict 1 1 writer_before ≡ readers_first
unfolding reader_verdict max_element min_element max_from min_from update
reader_test_timing = refl
