-- ===== src/Sync/Rwlock/Trial/Verdict.antt =====
-- test-reader-pref.cpp, test-writer-pref.cpp: the checks of main.
use os_modules.Prelude.{
  ℕ, zero, suc, ◌+◌, ◌-◌, ◌*◌, ◌<◌, ◌≡◌, refl, Bool, true, ◌&&◌, ltb, ◌==◌, if◌then◌else◌, arith,
}
use os_modules.Prelude.Array.{Array}
use os_modules.Sync.Rwlock.Trial.{Times}

unfoldable pub max_from : (a : Array ℕ) → (n k best : ℕ) → ℕ
max_from a zero k best = best
max_from a (suc n) k best = max_from a n (k + 1) (if ltb best (a k) then a k else best)

unfoldable pub min_from : (a : Array ℕ) → (n k best : ℕ) → ℕ
min_from a zero k best = best
min_from a (suc n) k best = min_from a n (k + 1) (if ltb (a k) best then a k else best)

-- *max_element(a + first, a + first + n)
unfoldable pub max_element : (a : Array ℕ) → (first n : ℕ) → ℕ
unfolding max_from
max_element a first n = max_from a (n - 1) (first + 1) (a first)

-- *min_element(a + first, a + first + n)
unfoldable pub min_element : (a : Array ℕ) → (first n : ℕ) → ℕ
unfolding min_from
min_element a first n = min_from a (n - 1) (first + 1) (a first)

-- What main prints.
pub data Verdict : Type 0 where
  passed reader_should_not_wait readers_first reader_beside_writer writer_not_alone : Verdict

-- The last loop: whether each of the first `n` writers has noted two times in a row.
unfoldable pub writers_alone : (n : ℕ) → Times → Bool
writers_alone zero t = true
writers_alone (suc n) t =
    writers_alone n t && (t.writer_release_time n == t.writer_acquire_time n + 1)

unfoldable pub last_check : (write_num_threads : ℕ) → Times → Verdict
unfolding writers_alone
last_check w t = if writers_alone w t then passed else writer_not_alone

-- main of test-reader-pref.cpp
unfoldable pub reader_verdict : (read_num_threads write_num_threads : ℕ) → Times → Verdict
unfolding max_element min_element last_check
reader_verdict r w t =
    if ltb 0 r
      && ltb (min_element t.reader_release_time 0 (2 * r))
          (max_element t.reader_acquire_time 0 (2 * r))
    then reader_should_not_wait
    else if ltb 0 r
        && ltb 0 w
        && ltb (min_element t.writer_acquire_time 0 w) (max_element t.reader_release_time 0 (2 * r))
    then readers_first
    else last_check w t

-- main of test-writer-pref.cpp, which looks at the readers created behind the writers
unfoldable pub writer_verdict : (read_num_threads write_num_threads : ℕ) → Times → Verdict
unfolding max_element min_element last_check
writer_verdict r w t =
    if ltb 0 r
      && ltb (min_element t.reader_release_time r r) (max_element t.reader_acquire_time r r)
    then reader_should_not_wait
    else if ltb 0 r
        && ltb 0 w
        && ltb (min_element t.reader_acquire_time r r) (max_element t.writer_release_time 0 w)
    then reader_beside_writer
    else last_check w t

-- The check of the writers does not fail when all of them have noted two times in a row.
pub last_check-alone :
    (n : ℕ) (t : Times)
    → ((k : ℕ) → k < n → t.writer_release_time k ≡ t.writer_acquire_time k + 1)
    → writers_alone n t ≡ true
unfolding writers_alone
last_check-alone zero t alone = refl
last_check-alone (suc n) t alone =
    ground (arith, last_check-alone n t (λ k lt. alone k (omega arith)), alone n (omega arith))
