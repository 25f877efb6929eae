-- ===== src/Sync/MasterWorker/Signals.antt =====
-- master-worker.c: the threads with the signals they send. A thread that waits goes on only when it gets a signal, as
-- without spurious wake-ups; a signal behind the unlock is a step of its own.
use os_modules.Prelude.{ℕ, ◌<◌, ◌≡◌, ◌≢◌, true, false, ltb}
use os_modules.Prelude.Array.{Array, update}
use os_modules.Sync.MasterWorker.{
  Shared, start_shared, master_waits, worker_waits, produce, consume,
}

-- At the test of the outer loop, behind it, in pthread_cond_wait, at pthread_cond_signal, at the end.
pub data Point : Type 0 where
  at_loop in_loop waiting at_signal ended : Point

pub record SignalSystem : Type 0 where
  pub shared : Shared
  pub master : Array Point
  pub worker : Array Point

module _ (total_items max_buf_size num_masters num_workers : ℕ) where
  pub data SignalStep (s : SignalSystem) : SignalSystem → Type 0 where
    master_enters :
        (i : ℕ)
        → i < num_masters
        → s.master i ≡ at_loop
        → ltb s.shared.item_to_produce total_items ≡ true
        → SignalStep s (record s { master = update s.master i in_loop })
    master_ends :
        (i : ℕ)
        → i < num_masters
        → s.master i ≡ at_loop
        → ltb s.shared.item_to_produce total_items ≡ false
        → SignalStep s (record s { master = update s.master i ended })
    master_sleeps :
        (i : ℕ)
        → i < num_masters
        → s.master i ≡ in_loop
        → master_waits total_items max_buf_size s.shared ≡ true
        → SignalStep s (record s { master = update s.master i waiting })
    master_produces :
        (i : ℕ)
        → i < num_masters
        → s.master i ≡ in_loop
        → master_waits total_items max_buf_size s.shared ≡ false
        → SignalStep s (record s {
          shared = produce total_items max_buf_size s.shared;
          master = update s.master i at_signal;
        })
    master_signals :
        (i j : ℕ)
        → i < num_masters
        → j < num_workers
        → s.master i ≡ at_signal
        → s.worker j ≡ waiting
        → SignalStep s
            (record s { master = update s.master i at_loop; worker = update s.worker j in_loop })
    master_signals_none :
        (i : ℕ)
        → i < num_masters
        → s.master i ≡ at_signal
        → ((j : ℕ) → j < num_workers → s.worker j ≢ waiting)
        → SignalStep s (record s { master = update s.master i at_loop })
    worker_enters :
        (i : ℕ)
        → i < num_workers
        → s.worker i ≡ at_loop
        → ltb s.shared.item_to_consume total_items ≡ true
        → SignalStep s (record s { worker = update s.worker i in_loop })
    worker_ends :
        (i : ℕ)
        → i < num_workers
        → s.worker i ≡ at_loop
        → ltb s.shared.item_to_consume total_items ≡ false
        → SignalStep s (record s { worker = update s.worker i ended })
    worker_sleeps :
        (i : ℕ)
        → i < num_workers
        → s.worker i ≡ in_loop
        → worker_waits total_items max_buf_size s.shared ≡ true
        → SignalStep s (record s { worker = update s.worker i waiting })
    worker_consumes :
        (i : ℕ)
        → i < num_workers
        → s.worker i ≡ in_loop
        → worker_waits total_items max_buf_size s.shared ≡ false
        → SignalStep s (record s {
          shared = (consume total_items max_buf_size s.shared).1;
          worker = update s.worker i at_signal;
        })
    worker_signals :
        (i j : ℕ)
        → i < num_workers
        → j < num_masters
        → s.worker i ≡ at_signal
        → s.master j ≡ waiting
        → SignalStep s
            (record s { worker = update s.worker i at_loop; master = update s.master j in_loop })
    worker_signals_none :
        (i : ℕ)
        → i < num_workers
        → s.worker i ≡ at_signal
        → ((j : ℕ) → j < num_masters → s.master j ≢ waiting)
        → SignalStep s (record s { worker = update s.worker i at_loop })

  unfoldable pub signal_start : (junk : Array ℕ) → SignalSystem
  unfolding start_shared
  signal_start junk = record {
    shared = start_shared junk;
    master = λ i. at_loop;
    worker = λ i. at_loop;
  }

  pub data SignalReach (junk : Array ℕ) : SignalSystem → Type 0 where
    at_start : SignalReach junk (signal_start junk)
    goes_on : {s t : SignalSystem} → SignalReach junk s → SignalStep s t → SignalReach junk t
