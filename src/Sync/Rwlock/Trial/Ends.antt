-- ===== src/Sync/Rwlock/Trial/Ends.antt =====
-- test-reader-pref.cpp, test-writer-pref.cpp: a test goes on to its end, and what it says there.
use os_modules.Prelude.{ℕ, zero, suc, ◌<◌, ◌≡◌, ◌≢◌, ◌⊎◌, refl, inl, inr, true, ℕ_discrete, arith}
use os_modules.Prelude.Array.{Array}
use os_modules.Sync.Rwlock.Code.{Lock, Code}
use os_modules.Sync.Rwlock.Laws.{Laws}
use os_modules.Sync.Rwlock.Safety
use os_modules.Sync.Rwlock.ReaderPref.{reader_pref}
use os_modules.Sync.Rwlock.ReaderPref.Safe as Reader
use os_modules.Sync.Rwlock.WriterPref.{writer_pref}
use os_modules.Sync.Rwlock.WriterPref.Safe as Writer
use os_modules.Sync.Rwlock.Trial.{
  Stage, outside, inside, acquired, released, finished, Times, Trial, num_threads, GoesOn,
  TrialReach,
}
use os_modules.Sync.Rwlock.Trial.Alone.{TrialReach-Reach, TrialReach-Fits, finished-alone}
use os_modules.Sync.Rwlock.Trial.Woken.{unfinished-Goes}
use os_modules.Sync.Rwlock.Trial.Verdict.{
  writer_not_alone, writers_alone, last_check, reader_verdict, writer_verdict,
}

-- Behind the joins of main.
abbrev pub AllFinished : (n : ℕ) → Array Stage → Type 0
AllFinished n stage = (i : ℕ) → i < n → stage i ≡ finished

finished-cases : (st : Stage) → (st ≡ finished) ⊎ (st ≢ finished)
finished-cases finished = inl refl
finished-cases outside = inr λ e. cc
finished-cases inside = inr λ e. cc
finished-cases acquired = inr λ e. cc
finished-cases released = inr λ e. cc

all_or_unfinished :
    (n : ℕ) (stage : Array Stage) → AllFinished n stage ⊎ ((i : ℕ) × (i < n) × (stage i ≢ finished))
all_or_unfinished zero stage = inl λ i lt. absurd (omega arith)
all_or_unfinished (suc n) stage = elim (finished-cases (stage n)) [
  | inr ne ↦ inr (n, omega arith, ne)
  | inl e ↦ elim (all_or_unfinished n stage) [
    | inr h ↦ inr (h.0, omega (arith, h.1), h.2)
    | inl all ↦
        inl λ i lt. elim (ℕ_discrete i n) [ yes last ↦ rw last e | no below ↦ all i (omega arith) ]
  ]
]

-- What a test says when the writers are alone.
reader_verdict-alone :
    (r w : ℕ) (t : Times) → writers_alone w t ≡ true → reader_verdict r w t ≢ writer_not_alone
unfolding reader_verdict last_check
reader_verdict-alone r w t e = λ h. ground arith

writer_verdict-alone :
    (r w : ℕ) (t : Times) → writers_alone w t ≡ true → writer_verdict r w t ≢ writer_not_alone
unfolding writer_verdict last_check
writer_verdict-alone r w t e = λ h. ground arith

module _ {c : Code} {Tracks : Lock → ℕ → Type 0} (laws : Laws c Tracks) {r w : ℕ}
    {times : Times} where
  ends :
      {s : Trial}
      → TrialReach c r w times s
      → (AllFinished (num_threads c r w) s.stage × (writers_alone w s.times ≡ true))
        ⊎ GoesOn c r w s
  ends {s} so_far = elim (all_or_unfinished (num_threads c r w) s.stage) [
    | inl all ↦ inl (all, finished-alone c r w laws so_far all)
    | inr (i, lt, ne) ↦ inr (
        unfinished-Goes c r w s (TrialReach-Fits c r w laws so_far) i lt ne
          (Safety.no_lost_wakeup laws (num_threads c r w) (TrialReach-Reach c r w so_far) i lt))
  ]

-- The test of reader preference, with any numbers of readers and writers: in every reachable state some thread can
-- go on, and not only by a spurious wake-up, or all are at their end and the test does not find a writer that was not alone.
pub reader_test_lem :
    {r w : ℕ} {times : Times} {s : Trial}
    → TrialReach reader_pref r w times s
    → (AllFinished (num_threads reader_pref r w) s.stage
        × (reader_verdict r w s.times ≢ writer_not_alone))
      ⊎ GoesOn reader_pref r w s
reader_test_lem {r} {w} {s = s} so_far = elim (ends Reader.laws so_far) [
  | inl (all, alone) ↦ inl (all, reader_verdict-alone r w s.times alone)
  | inr go ↦ inr go
]

-- The test of writer preference, with any numbers of readers and writers: in every reachable state some thread can go
-- on, and not only by a spurious wake-up, or all are at their end and the test does not find a writer that was not
-- alone.
pub writer_test_lem :
    {r w : ℕ} {times : Times} {s : Trial}
    → TrialReach writer_pref r w times s
    → (AllFinished (num_threads writer_pref r w) s.stage
        × (writer_verdict r w s.times ≢ writer_not_alone))
      ⊎ GoesOn writer_pref r w s
writer_test_lem {r} {w} {s = s} so_far = elim (ends Writer.laws so_far) [
  | inl (all, alone) ↦ inl (all, writer_verdict-alone r w s.times alone)
  | inr go ↦ inr go
]
