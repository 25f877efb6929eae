-- ===== src/Sync/Rwlock/Trial/Notes.antt =====
-- test-reader-pref.cpp, test-writer-pref.cpp: the times that a thread notes.
use os_modules.Prelude.{ℕ, ◌+◌, ◌≡◌, ◌≢◌, refl, sym, ap, ◌∙◌}
use os_modules.Prelude.Array.{update_self, update_ne}
use os_modules.Sync.Rwlock.Trial.{Role, reader, writer, Times, note_acquire, note_release}

-- The times of thread `i` are not touched by a note of another thread.
pub record Untouched (ro : Role) (t t' : Times) : Type 0 where
  pub acquire : (k : ℕ) → ro ≢ writer k → t'.writer_acquire_time k ≡ t.writer_acquire_time k
  pub release : (k : ℕ) → ro ≢ writer k → t'.writer_release_time k ≡ t.writer_release_time k

pub note_acquire-Untouched : (ro : Role) (t : Times) → Untouched ro t (note_acquire ro t)
unfolding note_acquire
note_acquire-Untouched (reader j) t = record { acquire = λ k ne. refl; release = λ k ne. refl }
note_acquire-Untouched (writer j) t = record {
  acquire = λ k ne. update_ne t.writer_acquire_time j k t.idx (λ e. ne (ap writer e));
  release = λ k ne. refl;
}

pub note_release-Untouched : (ro : Role) (t : Times) → Untouched ro t (note_release ro t)
unfolding note_release
note_release-Untouched (reader j) t = record { acquire = λ k ne. refl; release = λ k ne. refl }
note_release-Untouched (writer j) t = record {
  acquire = λ k ne. refl;
  release = λ k ne. update_ne t.writer_release_time j k t.idx (λ e. ne (ap writer e));
}

-- A writer notes the time it takes the lock.
pub note_acquire-writer :
    (k : ℕ) (t : Times)
    → (note_acquire (writer k) t).idx ≡ (note_acquire (writer k) t).writer_acquire_time k + 1
unfolding note_acquire
note_acquire-writer k t = ap (λ m. m + 1) (sym (update_self t.writer_acquire_time k t.idx))

-- A writer notes the time it gives the lock back.
pub note_release-writer :
    (k : ℕ) (t : Times)
    → t.idx ≡ t.writer_acquire_time k + 1
    → (note_release (writer k) t).writer_release_time k
      ≡ (note_release (writer k) t).writer_acquire_time k + 1
unfolding note_release
note_release-writer k t e = update_self t.writer_release_time k t.idx ∙ e
