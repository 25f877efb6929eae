-- ===== src/Sync/MasterWorker/Tests.antt =====
-- master-worker.c: one item, a buffer of one place, two masters and a worker.
use os_modules.Prelude.{◌≡◌, refl, arith}
use os_modules.Prelude.Array.{update}
use os_modules.Prelude.Int.{pos, ◌+ℤ◌}
use os_modules.Sync.MasterWorker.{start_shared, master_waits, produce}
use os_modules.Sync.MasterWorker.System.{
  outside, inside, System, master_enters, master_produces, Reach, begin, next, start,
}
use os_modules.Sync.MasterWorker.Order.{Ordered, Reach-Ordered}
use os_modules.Sync.MasterWorker.Overshoot.{Within, Reach-Within}
use os_modules.Sync.MasterWorker.Signals.{waiting, SignalSystem, SignalStep, SignalReach}
use os_modules.Sync.MasterWorker.Stuck.{never_woken}

abbrev first_state : System
first_state = start 1 1 2 1 (λ _. 0)

abbrev both_in : System
both_in = record first_state { master = update (update first_state.master 0 inside) 1 inside }

both_in-Reach : Reach 1 1 2 1 (λ _. 0) both_in
unfolding start_shared update
both_in-Reach =
    next (next begin (master_enters 0 (omega arith) refl refl))
      (master_enters 1 (omega arith) refl refl)

abbrev one_produced : System
one_produced = record both_in {
  shared = produce 1 1 both_in.shared;
  master = update both_in.master 0 outside;
}

one_produced-Reach : Reach 1 1 2 1 (λ _. 0) one_produced
unfolding start_shared update master_waits
one_produced-Reach = next both_in-Reach (master_produces 0 (omega arith) refl refl)

Reach-Ordered_example : Ordered 1 1 one_produced.shared
Reach-Ordered_example = Reach-Ordered 1 1 (omega arith) 2 1 (λ _. 0) one_produced-Reach

abbrev two_produced : System
two_produced = record one_produced {
  shared = produce 1 1 one_produced.shared;
  master = update one_produced.master 1 outside;
}

-- The second master does not test again, and produces an item that there is no room for.
two_produced-Reach : Reach 1 1 2 1 (λ _. 0) two_produced
unfolding start_shared update master_waits produce ◌+ℤ◌
two_produced-Reach = next one_produced-Reach (master_produces 1 (omega arith) refl refl)

two_produced-size : two_produced.shared.curr_buf_size ≡ pos 2
unfolding start_shared produce ◌+ℤ◌
two_produced-size = refl

Reach-Within_example : Within 1 1 2 1 (λ _. 0) two_produced
Reach-Within_example = Reach-Within 1 1 2 1 (λ _. 0) two_produced-Reach

-- Three items and a buffer of two places.
never_woken_example :
    (s : SignalSystem) × SignalReach 3 2 1 2 (λ _. 0) s
    × (s.worker 1 ≡ waiting)
    × ((t : SignalSystem) → ¬ (SignalStep 3 2 1 2 s t))
never_woken_example = never_woken 3 2 (λ _. 0) (omega arith) (omega arith)
