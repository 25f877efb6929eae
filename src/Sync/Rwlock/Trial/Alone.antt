-- ===== src/Sync/Rwlock/Trial/Alone.antt =====
-- test-reader-pref.cpp, test-writer-pref.cpp: a writer notes its two times with no other between them.
use mathlib.Core.Path.{subst}
use os_modules.Prelude.{ℕ, ◌+◌, ◌<◌, ◌≡◌, ◌≢◌, ◌⊎◌, refl, sym, ap, ◌∙◌, inl, inr, true, arith}
use os_modules.Prelude.Array.{update, update_at}
use os_modules.Sync.Rwlock.Code.{Lock, Code}
use os_modules.Sync.Rwlock.Laws.{Laws}
use os_modules.Sync.Rwlock.Safety
use os_modules.Sync.Rwlock.System.{Pc, reading, writing, System, Reach, begin, next}
use os_modules.Sync.Rwlock.Trial.{
  Role, reader, writer, role, Stage, inside, acquired, released, finished, Times, note_acquire,
  note_release, Trial, holds, num_threads, role_of, TrialStep, calls_lock, notes_acquire,
  notes_release, trial_start, TrialReach, at_start, goes_on,
}
use os_modules.Sync.Rwlock.Trial.Fits.{Fits, NotedBoth, Does-Fits, Does-acquired, Does-NotedBoth}
use os_modules.Sync.Rwlock.Trial.Notes.{
  Untouched, note_acquire-Untouched, note_release-Untouched, note_acquire-writer,
  note_release-writer,
}
use os_modules.Sync.Rwlock.Trial.Verdict.{writers_alone, last_check-alone}

role-writer : (r w i k : ℕ) → role r w i ≡ writer k → i ≡ r + k
unfolding role
role-writer r w i k e = ground arith

module _ (c : Code) (r w : ℕ) where
  abbrev n : ℕ
  n = num_threads c r w

  abbrev at : ℕ → Role
  at = role_of c r w

  -- A writer that has noted one time has noted the last one, and one that has noted two has noted them in a row.
  record Inv (s : Trial) : Type 0 where
    fits : (i : ℕ) → i < n → Fits (at i) (s.lock.pc i) (s.stage i)
    between :
        (i k : ℕ)
        → i < n
        → at i ≡ writer k
        → s.stage i ≡ acquired
        → s.times.idx ≡ s.times.writer_acquire_time k + 1
    behind :
        (i k : ℕ)
        → i < n
        → at i ≡ writer k
        → NotedBoth (s.stage i)
        → s.times.writer_release_time k ≡ s.times.writer_acquire_time k + 1

  -- Two threads are no writers of one number.
  other-writer : (i j k : ℕ) → i ≢ j → at i ≡ writer k → at j ≢ writer k
  other-writer i j k ne e e' = ne (omega (arith, role-writer r w i k e, role-writer r w j k e'))

  holds-in : (ro : Role) (p : Pc) → p ≡ holds ro → (p ≡ reading) ⊎ (p ≡ writing)
  holds-in (reader k) p e = inl e
  holds-in (writer k) p e = inr e

  -- No other thread holds the lock while a writer does.
  Exclusive : System → Type 0
  Exclusive s =
      (i j : ℕ) → i < n → j < n → s.pc i ≡ writing → (s.pc j ≡ reading) ⊎ (s.pc j ≡ writing) → i ≡ j

  module _ (s : Trial) (excl : Exclusive s.lock) (inv : Inv s) where
    -- While a writer has noted one time, no other thread is about to note one.
    alone :
        (i j k : ℕ)
        → i < n
        → j < n
        → at i ≡ writer k
        → s.stage i ≡ acquired
        → s.lock.pc j ≡ holds (at j)
        → i ≡ j
    unfolding Exclusive
    alone i j k li lj e st pj =
        excl i j li lj (subst (Fits (at i) (s.lock.pc i)) st (inv.fits i li) ∙ ap holds e)
          (holds-in (at j) (s.lock.pc j) pj)

    -- The threads behind a note by thread `j`.
    noted-Fits :
        (j : ℕ) (st : Stage)
        → (s.lock.pc j ≡ holds (at j) → Fits (at j) (s.lock.pc j) st)
        → s.lock.pc j ≡ holds (at j)
        → (i : ℕ) → i < n
        → Fits (at i) (s.lock.pc i) (update s.stage j st i)
    noted-Fits j st new held i li =
        update_at (Fits (at i) (s.lock.pc i)) s.stage j i
          (λ e. subst (λ j. Fits (at j) (s.lock.pc j) st) e (new held)) (λ ne. inv.fits i li)

    -- The two times of another thread that has noted both.
    still-behind :
        (i j k : ℕ) (t : Times)
        → i < n
        → j ≢ i
        → at i ≡ writer k
        → Untouched (at j) s.times t
        → NotedBoth (s.stage i)
        → t.writer_release_time k ≡ t.writer_acquire_time k + 1
    still-behind i j k t li ne e un h =
        let other : at j ≢ writer k = other-writer i j k (λ same. ne (sym same)) e in
        un.release k other ∙ (inv.behind i k li e h ∙ ap (λ m. m + 1) (sym (un.acquire k other)))

    note_acquire-Inv :
        (j : ℕ)
        → j < n
        → s.stage j ≡ inside
        → Inv (record s { stage = update s.stage j acquired; times = note_acquire (at j) s.times })
    note_acquire-Inv j lj st =
        let held : s.lock.pc j ≡ holds (at j) =
          subst (Fits (at j) (s.lock.pc j)) st (inv.fits j lj) in
        let un : Untouched (at j) s.times (note_acquire (at j) s.times) =
          note_acquire-Untouched (at j) s.times in
        let t' = note_acquire (at j) s.times in
        record {
          fits = noted-Fits j acquired (λ h. h) held;
          between = λ i k li e.
              update_at (λ st. st ≡ acquired → t'.idx ≡ t'.writer_acquire_time k + 1) s.stage j i
                (λ same h. rw (ap at same ∙ e) (note_acquire-writer k s.times))
                (λ ne h. absurd (ne (sym (alone i j k li lj e h held))));
          behind = λ i k li e.
              update_at
                (λ st. NotedBoth st → t'.writer_release_time k ≡ t'.writer_acquire_time k + 1)
                s.stage j i (λ same h. ground arith) (λ ne. still-behind i j k t' li ne e un);
        }

    note_release-Inv :
        (j : ℕ)
        → j < n
        → s.stage j ≡ acquired
        → Inv (record s { stage = update s.stage j released; times = note_release (at j) s.times })
    note_release-Inv j lj st =
        let held : s.lock.pc j ≡ holds (at j) =
          subst (Fits (at j) (s.lock.pc j)) st (inv.fits j lj) in
        let un : Untouched (at j) s.times (note_release (at j) s.times) =
          note_release-Untouched (at j) s.times in
        let t' = note_release (at j) s.times in
        record {
          fits = noted-Fits j released (λ h. h) held;
          between = λ i k li e.
              update_at (λ st. st ≡ acquired → t'.idx ≡ t'.writer_acquire_time k + 1) s.stage j i
                (λ same h. absurd cc) (λ ne h. absurd (ne (sym (alone i j k li lj e h held))));
          behind = λ i k li e.
              update_at
                (λ st. NotedBoth st → t'.writer_release_time k ≡ t'.writer_acquire_time k + 1)
                s.stage j i
                (λ same h.
                  let mine : at j ≡ writer k = ap at same ∙ e in
                  rw mine (note_release-writer k s.times (inv.between j k lj mine st)))
                (λ ne. still-behind i j k t' li ne e un);
        }

    TrialStep-Inv : {t : Trial} → TrialStep c r w s t → Inv t
    TrialStep-Inv (calls_lock lock' stage' step does) = record {
      fits = λ i li. Does-Fits (does i li) (inv.fits i li);
      between = λ i k li e h. inv.between i k li e (Does-acquired (does i li) h);
      behind = λ i k li e h. inv.behind i k li e (Does-NotedBoth (does i li) h);
    }
    TrialStep-Inv (notes_acquire i li st) = note_acquire-Inv i li st
    TrialStep-Inv (notes_release i li st) = note_release-Inv i li st

  trial_start-Inv : (times : Times) → Inv (trial_start c r w times)
  unfolding trial_start
  trial_start-Inv times = record {
    fits = λ i li. inl refl;
    between = λ i k li e h. absurd cc;
    behind = λ i k li e h. ground arith;
  }

  pub TrialReach-Reach : {times : Times} {s : Trial} → TrialReach c r w times s → Reach c n s.lock
  unfolding trial_start
  TrialReach-Reach at_start = begin
  TrialReach-Reach (goes_on so_far (calls_lock lock' stage' step does)) =
      next (TrialReach-Reach so_far) step
  TrialReach-Reach (goes_on so_far (notes_acquire i li st)) = TrialReach-Reach so_far
  TrialReach-Reach (goes_on so_far (notes_release i li st)) = TrialReach-Reach so_far

  module _ {Tracks : Lock → ℕ → Type 0} (laws : Laws c Tracks) {times : Times} where
    TrialReach-Inv : {s : Trial} → TrialReach c r w times s → Inv s
    unfolding Exclusive
    TrialReach-Inv at_start = trial_start-Inv times
    TrialReach-Inv (goes_on {s} so_far step) =
        TrialStep-Inv s (Safety.exclusive laws n (TrialReach-Reach so_far)) (TrialReach-Inv so_far)
          step

    -- Behind the joins the check of the writers does not fail.
    pub finished-alone :
        {s : Trial}
        → TrialReach c r w times s
        → ((i : ℕ) → i < n → s.stage i ≡ finished)
        → writers_alone w s.times ≡ true
    unfolding role
    finished-alone {s} so_far all = last_check-alone w s.times λ k lt.
        let is_writer : at (r + k) ≡ writer k = ground arith in
        (TrialReach-Inv so_far).behind (r + k) k (omega arith) is_writer
          (inr (all (r + k) (omega arith)))

    pub TrialReach-Fits :
        {s : Trial}
        → TrialReach c r w times s
        → (i : ℕ) → i < n
        → Fits (at i) (s.lock.pc i) (s.stage i)
    TrialReach-Fits so_far = (TrialReach-Inv so_far).fits
