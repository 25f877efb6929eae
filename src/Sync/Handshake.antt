-- ===== src/Sync/Handshake.antt =====
-- pthreads-sync-code/zemaphore/test-zem.c: main lets two threads print, one after the other, and waits for each. What
-- stands in zem_down between taking the lock and a wait, or the end, is one step, and so is zem_up.
pub mod Invariant
pub mod Moves
pub mod Threads
pub mod Order
pub mod Ends
mod Tests
use os_modules.Prelude.{
  ℕ, ◌+◌, ◌<◌, ◌≡◌, ◌≢◌, true, false, List, [], ◌∷◌, ◌++◌, ◌==◌, if◌then◌else◌,
}
use os_modules.Prelude.Array.{Array, update}
use os_modules.Sync.Zemaphore.{Zem, zem_init, zem_waits, zem_down, zem_up}

abbrev pub num_threads : ℕ
num_threads = 2

-- The lines of main, by the number of threads that have printed, and those of the threads, by the number that each is given.
pub data Line : Type 0 where
  from_main from_thread : ℕ → Line

-- Where main stands when it has waited for `k` threads: at printf, at zem_up, at the test in zem_down, waiting there;
-- and at the joins.
pub data MainPc : Type 0 where
  to_print to_up to_down in_wait : (k : ℕ) → MainPc
  at_join : MainPc

pub data ThreadPc : Type 0 where
  at_down asleep at_print at_up over : ThreadPc

pub record State : Type 0 where
  pub child : Zem
  pub parent : Zem
  pub main_pc : MainPc
  pub thread : Array ThreadPc
  pub printed : List Line

unfoldable pub start : State
start = record {
  child = zem_init 0;
  parent = zem_init 0;
  main_pc = to_print 0;
  thread = λ i. at_down;
  printed = [];
}

unfoldable pub main_prints : (k : ℕ) → State → State
main_prints k s = record s {
  main_pc = if k == num_threads then at_join else to_up k;
  printed = s.printed ++ (from_main k ∷ []);
}

-- pthread_cond_signal in zem_up(&child): one thread that waits goes on, if any does.
pub data Signal (t t' : Array ThreadPc) : Type 0 where
  to_one : (i : ℕ) → i < num_threads → t i ≡ asleep → t' ≡ update t i at_down → Signal t t'
  to_none : ((i : ℕ) → i < num_threads → t i ≢ asleep) → t' ≡ t → Signal t t'

unfoldable pub main_ups : (k : ℕ) → (thread : Array ThreadPc) → State → State
unfolding zem_up
main_ups k thread s = record s { child = zem_up s.child; main_pc = to_down k; thread = thread }

unfoldable pub main_downs : (k : ℕ) → State → State
unfolding zem_down
main_downs k s = record s { parent = zem_down s.parent; main_pc = to_print (k + 1) }

unfoldable pub thread_downs : (i : ℕ) → State → State
unfolding zem_down update
thread_downs i s = record s { child = zem_down s.child; thread = update s.thread i at_print }

unfoldable pub thread_prints : (i : ℕ) → State → State
unfolding update
thread_prints i s = record s {
  thread = update s.thread i at_up;
  printed = s.printed ++ (from_thread (i + 1) ∷ []);
}

-- The signal in zem_up(&parent); only main waits for this semaphore.
unfoldable pub wake_main : MainPc → MainPc
wake_main (in_wait k) = to_down k
wake_main p = p

unfoldable pub thread_ups : (i : ℕ) → State → State
unfolding zem_up update wake_main
thread_ups i s = record s {
  parent = zem_up s.parent;
  main_pc = wake_main s.main_pc;
  thread = update s.thread i over;
}

-- A step of a thread or of main that goes on.
pub data Act (s : State) : State → Type 0 where
  act_main_prints : (k : ℕ) → s.main_pc ≡ to_print k → Act s (main_prints k s)
  act_main_ups :
      (k : ℕ) (thread : Array ThreadPc)
      → s.main_pc ≡ to_up k
      → Signal s.thread thread
      → Act s (main_ups k thread s)
  act_main_downs :
      (k : ℕ) → s.main_pc ≡ to_down k → zem_waits s.parent ≡ false → Act s (main_downs k s)
  act_downs :
      (i : ℕ)
      → i < num_threads
      → s.thread i ≡ at_down
      → zem_waits s.child ≡ false
      → Act s (thread_downs i s)
  act_prints : (i : ℕ) → i < num_threads → s.thread i ≡ at_print → Act s (thread_prints i s)
  act_ups : (i : ℕ) → i < num_threads → s.thread i ≡ at_up → Act s (thread_ups i s)

-- Main or a thread begins to wait, or wakes up by itself.
pub data Idle (s : State) : State → Type 0 where
  main_sleeps :
      (k : ℕ)
      → s.main_pc ≡ to_down k
      → zem_waits s.parent ≡ true
      → Idle s (record s { main_pc = in_wait k })
  main_wakes : (k : ℕ) → s.main_pc ≡ in_wait k → Idle s (record s { main_pc = to_down k })
  sleeps :
      (i : ℕ)
      → i < num_threads
      → s.thread i ≡ at_down
      → zem_waits s.child ≡ true
      → Idle s (record s { thread = update s.thread i asleep })
  wakes :
      (i : ℕ)
      → i < num_threads
      → s.thread i ≡ asleep
      → Idle s (record s { thread = update s.thread i at_down })

-- Reachable after `n` steps of a thread or of main that goes on.
pub data Reach : (n : ℕ) → State → Type 0 where
  begin : Reach 0 start
  act : {n : ℕ} {s t : State} → Reach n s → Act s t → Reach (n + 1) t
  idle : {n : ℕ} {s t : State} → Reach n s → Idle s t → Reach n t
