-- ===== src/Sync/Rwlock/WriterPref/Tests.antt =====
-- rwlock-writer-pref.cpp: a schedule of two threads, of which the first writes and the second wants to read.
use os_modules.Prelude.{ℕ, ◌<◌, ◌≡◌, refl, inr, true, arith}
use os_modules.Prelude.Array.{update}
use os_modules.Sync.Rwlock.System.{
  asleep_reader, writing, System, writer_goes_in, reader_sleeps, Reach, begin, next, start,
}
use os_modules.Sync.Rwlock.Safety.{can_go}
use os_modules.Sync.Rwlock.WriterPref.{
  initialize, reader_waits, writer_waits, writer_enters, writer_calls, writer_pref,
}
use os_modules.Sync.Rwlock.WriterPref.Safe.{writer_pref_exclusive, writer_pref_no_lost_wakeup}

one_writes : System
unfolding writer_enters writer_calls initialize
one_writes = record {
  lock = writer_enters (writer_calls (start writer_pref).lock);
  pc = update (start writer_pref).pc 0 writing;
}

one_writes-Reach : Reach writer_pref 2 one_writes
unfolding one_writes writer_waits
one_writes-Reach = next begin (writer_goes_in 0 (omega arith) refl refl)

one_waits : System
unfolding one_writes
one_waits = record one_writes { pc = update one_writes.pc 1 asleep_reader }

one_waits-Reach : Reach writer_pref 2 one_waits
unfolding one_waits reader_waits update
one_waits-Reach = next one_writes-Reach (reader_sleeps 1 (omega arith) refl refl)

zero_writes : one_waits.pc 0 ≡ writing
unfolding one_waits update
zero_writes = refl

writer_pref_exclusive_example : ◌≡◌ {A = ℕ} 0 0
writer_pref_exclusive_example =
    writer_pref_exclusive one_waits-Reach 0 0 (omega arith) (omega arith) zero_writes
      (inr zero_writes)

one_sleeps : one_waits.pc 1 ≡ asleep_reader
unfolding one_waits update
one_sleeps = refl

writer_pref_no_lost_wakeup_example : (j : ℕ) × (j < 2) × (can_go (one_waits.pc j) ≡ true)
writer_pref_no_lost_wakeup_example =
    writer_pref_no_lost_wakeup one_waits-Reach 1 (omega arith) (rw one_sleeps)
