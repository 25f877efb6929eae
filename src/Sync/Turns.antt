-- ===== src/Sync/Turns.antt =====
-- pthreads-sync-code/zemaphore/zemaphore_exercise.c: three threads that print in turn. The semaphores zero, first
-- and second are an array; what stands in zem_down between taking the lock and a wait, or the end, is one
-- step, and so is zem_up.
pub mod Invariant
pub mod Moves
pub mod Order
mod Tests
use os_modules.Prelude.{
  ℕ, ◌+◌, ◌<◌, ◌≡◌, Bool, true, false, List, [], ◌∷◌, ◌++◌, ◌==◌, if◌then◌else◌,
}
use os_modules.Prelude.Array.{Array, update}
use os_modules.Sync.Zemaphore.{Zem, zem_init, zem_waits, zem_down, zem_up}

abbrev pub num_threads : ℕ
num_threads = 3

abbrev pub num_iter : ℕ
num_iter = 10

-- At the test in zem_down, or at the test of the loop when the iterations are done; waiting in zem_down; at
-- printf; at zem_up.
pub data Pc : Type 0 where
  at_down asleep at_print at_up : Pc

pub record State : Type 0 where
  pub sems : Array Zem
  pub pc : Array Pc
  pub iterations : Array ℕ
  pub printed : List ℕ

-- The thread whose semaphore a thread takes up.
unfoldable pub successor : (thread_id : ℕ) → ℕ
successor thread_id = if thread_id == 0 then 1 else (if thread_id == 1 then 2 else 0)

-- A signal to a thread that waits; only this one waits for its semaphore.
unfoldable pub wake : Pc → Pc
wake at_down = at_down
wake asleep = at_down
wake at_print = at_print
wake at_up = at_up

unfoldable pub start : State
start = record {
  sems = λ k. zem_init (if k == 0 then 1 else 0);
  pc = λ _. at_down;
  iterations = λ _. 0;
  printed = [];
}

unfoldable pub downs : (thread_id : ℕ) → State → State
unfolding zem_down update
downs thread_id s = record s {
  sems = update s.sems thread_id (zem_down (s.sems thread_id));
  pc = update s.pc thread_id at_print;
}

unfoldable pub prints : (thread_id : ℕ) → State → State
unfolding update
prints thread_id s = record s {
  pc = update s.pc thread_id at_up;
  printed = s.printed ++ (thread_id ∷ []);
}

unfoldable pub ups : (thread_id : ℕ) → State → State
unfolding zem_up update successor wake
ups thread_id s =
    let next = successor thread_id in
    record s {
      sems = update s.sems next (zem_up (s.sems next));
      pc = update (update s.pc thread_id at_down) next (wake (s.pc next));
      iterations = update s.iterations thread_id (s.iterations thread_id + 1);
    }

unfoldable pub moves : (thread_id : ℕ) → (to : Pc) → State → State
unfolding update
moves thread_id to s = record s { pc = update s.pc thread_id to }

-- A step of a thread that goes on.
pub data Act (s : State) : State → Type 0 where
  act_down :
      (t : ℕ)
      → t < num_threads
      → s.pc t ≡ at_down
      → s.iterations t < num_iter
      → zem_waits (s.sems t) ≡ false
      → Act s (downs t s)
  act_print : (t : ℕ) → t < num_threads → s.pc t ≡ at_print → Act s (prints t s)
  act_up : (t : ℕ) → t < num_threads → s.pc t ≡ at_up → Act s (ups t s)

-- A thread begins to wait, or wakes up by itself.
pub data Idle (s : State) : State → Type 0 where
  sleeps :
      (t : ℕ)
      → t < num_threads
      → s.pc t ≡ at_down
      → s.iterations t < num_iter
      → zem_waits (s.sems t) ≡ true
      → Idle s (moves t asleep s)
  wakes : (t : ℕ) → t < num_threads → s.pc t ≡ asleep → Idle s (moves t at_down s)

-- Reachable after `n` steps of threads that go on.
pub data Reach : (n : ℕ) → State → Type 0 where
  begin : Reach 0 start
  act : {n : ℕ} {s t : State} → Reach n s → Act s t → Reach (n + 1) t
  idle : {n : ℕ} {s t : State} → Reach n s → Idle s t → Reach n t
