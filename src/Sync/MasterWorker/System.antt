-- ===== src/Sync/MasterWorker/System.antt =====
-- master-worker.c: the threads, interleaved in any order. A thread that waits may wake at any time, which
-- covers the signals, whenever they are sent, and spurious wake-ups.
use os_modules.Prelude.{ℕ, ◌<◌, ◌≡◌, true, false, ltb}
use os_modules.Prelude.Array.{Array, update}
use os_modules.Sync.MasterWorker.{
  Shared, start_shared, master_waits, worker_waits, produce, consume,
}

-- Where a thread stands: at the test of its outer loop, behind it, in pthread_cond_wait, at the end.
pub data Pc : Type 0 where
  outside inside asleep finished : Pc

pub record System : Type 0 where
  pub shared : Shared
  pub master : Array Pc
  pub worker : Array Pc

module _ (total_items max_buf_size num_masters num_workers : ℕ) where
  pub data Step (s : System) : System → Type 0 where
    master_enters :
        (i : ℕ)
        → i < num_masters
        → s.master i ≡ outside
        → ltb s.shared.item_to_produce total_items ≡ true
        → Step s (record s { master = update s.master i inside })
    master_ends :
        (i : ℕ)
        → i < num_masters
        → s.master i ≡ outside
        → ltb s.shared.item_to_produce total_items ≡ false
        → Step s (record s { master = update s.master i finished })
    master_sleeps :
        (i : ℕ)
        → i < num_masters
        → s.master i ≡ inside
        → master_waits total_items max_buf_size s.shared ≡ true
        → Step s (record s { master = update s.master i asleep })
    master_wakes :
        (i : ℕ)
        → i < num_masters
        → s.master i ≡ asleep
        → Step s (record s { master = update s.master i inside })
    master_produces :
        (i : ℕ)
        → i < num_masters
        → s.master i ≡ inside
        → master_waits total_items max_buf_size s.shared ≡ false
        → Step s (record s {
          shared = produce total_items max_buf_size s.shared;
          master = update s.master i outside;
        })
    worker_enters :
        (i : ℕ)
        → i < num_workers
        → s.worker i ≡ outside
        → ltb s.shared.item_to_consume total_items ≡ true
        → Step s (record s { worker = update s.worker i inside })
    worker_ends :
        (i : ℕ)
        → i < num_workers
        → s.worker i ≡ outside
        → ltb s.shared.item_to_consume total_items ≡ false
        → Step s (record s { worker = update s.worker i finished })
    worker_sleeps :
        (i : ℕ)
        → i < num_workers
        → s.worker i ≡ inside
        → worker_waits total_items max_buf_size s.shared ≡ true
        → Step s (record s { worker = update s.worker i asleep })
    worker_wakes :
        (i : ℕ)
        → i < num_workers
        → s.worker i ≡ asleep
        → Step s (record s { worker = update s.worker i inside })
    worker_consumes :
        (i : ℕ)
        → i < num_workers
        → s.worker i ≡ inside
        → worker_waits total_items max_buf_size s.shared ≡ false
        → Step s (record s {
          shared = (consume total_items max_buf_size s.shared).1;
          worker = update s.worker i outside;
        })

  abbrev pub start : (junk : Array ℕ) → System
  start junk = record { shared = start_shared junk; master = λ _. outside; worker = λ _. outside }

  pub data Reach (junk : Array ℕ) : System → Type 0 where
    begin : Reach junk (start junk)
    next : {s t : System} → Reach junk s → Step s t → Reach junk t
