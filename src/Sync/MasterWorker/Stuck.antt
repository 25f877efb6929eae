-- ===== src/Sync/MasterWorker/Stuck.antt =====
-- master-worker.c: a worker that is never woken.
use mathlib.Core.Path.{subst}
use os_modules.Prelude.{ℕ, zero, suc, ◌+◌, ◌<◌, ◌≡◌, ◌≢◌, refl, ap, true, false, ltb, lt→ltb, arith}
use os_modules.Prelude.Array.{Array, update}
use os_modules.Prelude.Int.{pos, ◌+ℤ◌, ◌-ℤ◌}
use os_modules.Sync.MasterWorker.{
  Shared, start_shared, master_waits, worker_waits, produce, consume,
}
use os_modules.Sync.MasterWorker.Signals.{
  Point, at_loop, waiting, SignalSystem, SignalStep, master_enters, master_ends, master_produces,
  master_signals, worker_enters, worker_ends, worker_sleeps, worker_consumes, worker_signals_none,
  signal_start, SignalReach, at_start, goes_on,
}
use os_modules.Sync.MasterWorker.Over.{Over, no_step}

-- The only master does not wait.
not_waiting : (f : Array Point) → f 0 ≡ at_loop → (j : ℕ) → j < 1 → f j ≢ waiting
not_waiting f at j lt e = let zero : j ≡ 0 = omega arith in cc (ap f zero, at, e)

module _ (total_items max_buf_size : ℕ) (some_room : 0 < max_buf_size) (s : Shared) where
  has_room : s.curr_buf_size ≡ pos 0 → master_waits total_items max_buf_size s ≡ false
  unfolding master_waits
  has_room e = ground (arith, e, some_room)

  has_item :
      s.curr_buf_size ≡ pos 0
      → worker_waits total_items max_buf_size (produce total_items max_buf_size s) ≡ false
  unfolding worker_waits produce ◌+ℤ◌
  has_item e = ground (arith, e)

  has_none :
      s.curr_buf_size ≡ pos 0
      → s.item_to_consume < total_items
      → worker_waits total_items max_buf_size s ≡ true
  unfolding worker_waits
  has_none e more = ground (arith, e, more)

  consume-produce :
      s.curr_buf_size ≡ pos 0
      → (consume total_items max_buf_size (produce total_items max_buf_size s)).1.curr_buf_size
        ≡ pos 0
  unfolding consume produce ◌+ℤ◌ ◌-ℤ◌
  consume-produce e = ground (arith, e)

module _ (total_items max_buf_size : ℕ) (some_room : 0 < max_buf_size) (junk : Array ℕ) where
  abbrev Reached : SignalSystem → Type 0
  Reached = SignalReach total_items max_buf_size 1 2 junk

  -- `k` items are produced and consumed; worker 1 waits, and worker 0 is at `p`.
  record Round (k : ℕ) (p : Point) (s : SignalSystem) : Type 0 where
    produced : s.shared.item_to_produce ≡ k
    consumed : s.shared.item_to_consume ≡ k
    empty : s.shared.curr_buf_size ≡ pos 0
    master : s.master 0 ≡ at_loop
    worker : s.worker 0 ≡ p
    other : s.worker 1 ≡ waiting

  -- The master produces an item, its signal wakes worker 0, which consumes the item.
  next_item :
      (k : ℕ) (s : SignalSystem)
      → k < total_items
      → Reached s
      → Round k waiting s
      → (t : SignalSystem) × Reached t × Round (k + 1) at_loop t
  unfolding update produce consume
  next_item k s more r at =
      let more_left = lt→ltb k total_items more in
      let entered =
        goes_on r (master_enters 0 (omega arith) at.master (rw at.produced more_left)) in
      let produced = goes_on entered (
        master_produces 0 (omega arith) refl
          (has_room total_items max_buf_size some_room s.shared at.empty)) in
      let woken =
        goes_on produced (master_signals 0 0 (omega arith) (omega arith) refl at.worker) in
      let consumed = goes_on woken (
        worker_consumes 0 (omega arith) refl
          (has_item total_items max_buf_size some_room s.shared at.empty)) in
      let signalled =
        goes_on consumed (worker_signals_none 0 (omega arith) refl (not_waiting _ refl)) in
      (
        _,
        signalled,
        record {
          produced = ap (λ m. m + 1) at.produced;
          consumed = ap (λ m. m + 1) at.consumed;
          empty = consume-produce total_items max_buf_size some_room s.shared at.empty;
          master = refl;
          worker = refl;
          other = at.other;
        },
      )

  -- Worker 0 waits again, when items are left.
  waits_again :
      (k : ℕ) (s : SignalSystem)
      → k < total_items
      → Reached s
      → Round k at_loop s
      → (t : SignalSystem) × Reached t × Round k waiting t
  unfolding update
  waits_again k s more r at =
      let entered =
        goes_on r
          (worker_enters 0 (omega arith) at.worker (rw at.consumed (lt→ltb k total_items more))) in
      let asleep = goes_on entered (
        worker_sleeps 0 (omega arith) refl (
          has_none total_items max_buf_size some_room s.shared at.empty
            (omega (arith, at.consumed)))) in
      (
        _,
        asleep,
        record {
          produced = at.produced;
          consumed = at.consumed;
          empty = at.empty;
          master = at.master;
          worker = refl;
          other = at.other;
        },
      )

  -- All items, one after the other.
  all_items :
      (left k : ℕ) (s : SignalSystem)
      → k + suc left ≡ total_items
      → Reached s
      → Round k waiting s
      → (t : SignalSystem) × Reached t × Round total_items at_loop t
  all_items zero k s e r at =
      let (t, r', at') = next_item k s (omega arith) r at in
      let last : k + 1 ≡ total_items = omega arith in
      (t, r', subst (λ m. Round m at_loop t) last at')
  all_items (suc left) k s e r at =
      let (t, r', at') = next_item k s (omega arith) r at in
      let (u, r'', at'') = waits_again (k + 1) t (omega arith) r' at' in
      all_items left (k + 1) u (omega arith) r'' at''

  -- Both workers wait before the master begins.
  both_wait : 0 < total_items → (s : SignalSystem) × Reached s × Round 0 waiting s
  unfolding update signal_start start_shared worker_waits
  both_wait more =
      let some_left = lt→ltb 0 total_items more in
      let one_in = goes_on at_start (worker_enters 1 (omega arith) refl some_left) in
      let one_asleep = goes_on one_in (worker_sleeps 1 (omega arith) refl some_left) in
      let zero_in = goes_on one_asleep (worker_enters 0 (omega arith) refl some_left) in
      let zero_asleep = goes_on zero_in (worker_sleeps 0 (omega arith) refl some_left) in
      (
        _,
        zero_asleep,
        record {
          produced = refl;
          consumed = refl;
          empty = refl;
          master = refl;
          worker = refl;
          other = refl;
        },
      )

  ends :
      (s : SignalSystem)
      → Reached s
      → Round total_items at_loop s
      → (t : SignalSystem) × Reached t × Over t
  unfolding update
  ends s r at =
      let none_left : ltb total_items total_items ≡ false = ground arith in
      let master_over =
        goes_on r (master_ends 0 (omega arith) at.master (rw at.produced none_left)) in
      let over =
        goes_on master_over (worker_ends 0 (omega arith) at.worker (rw at.consumed none_left)) in
      (_, over, record { master = refl; worker = refl; other = at.other })

-- With one master, two workers, at least one item and one place: there is a run after which a worker waits in
-- pthread_cond_wait and no step is possible, so that without a spurious wake-up main waits for this worker for ever.
pub never_woken :
    (total_items max_buf_size : ℕ) (junk : Array ℕ)
    → 0 < total_items
    → 0 < max_buf_size
    → (s : SignalSystem) × SignalReach total_items max_buf_size 1 2 junk s
      × (s.worker 1 ≡ waiting)
      × ((t : SignalSystem) → ¬ (SignalStep total_items max_buf_size 1 2 s t))
never_woken zero max_buf_size junk more room = absurd (omega arith)
never_woken (suc m) max_buf_size junk more room =
    let (s, r, at) = both_wait (suc m) max_buf_size room junk more in
    let (t, r', at') = all_items (suc m) max_buf_size room junk m 0 s (omega arith) r at in
    let (u, r'', over) = ends (suc m) max_buf_size room junk t r' at' in
    (u, r'', over.other, λ v. no_step (suc m) max_buf_size u over)
