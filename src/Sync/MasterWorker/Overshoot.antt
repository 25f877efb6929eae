-- ===== src/Sync/MasterWorker/Overshoot.antt =====
-- master-worker.c: how far the counters go beyond the number of items, since a thread that is behind the
-- test of its outer loop does not test again.
use os_modules.Prelude.{ℕ, ◌+◌, ◌≤◌, refl, Bool, true, false, arith, ltb→lt}
use os_modules.Prelude.Array.{Array, update}
use os_modules.Sync.Threads.{count, count_moved, count_zero, count_le}
use os_modules.Sync.MasterWorker.{start_shared, produce, consume}
use os_modules.Sync.MasterWorker.System.{
  Pc, outside, inside, asleep, finished, System, Step, master_enters, master_ends, master_sleeps,
  master_wakes, master_produces, worker_enters, worker_ends, worker_sleeps, worker_wakes,
  worker_consumes, Reach, begin, next,
}

-- A thread between the test of its outer loop and the end of the round.
abbrev pub is_in : Pc → Bool
is_in inside = true
is_in asleep = true
is_in _ = false

module _ (total_items max_buf_size num_masters num_workers : ℕ) (junk : Array ℕ) where
  -- Each thread in a round may still count one item.
  pub record Within (s : System) : Type 0 where
    pub produced :
        s.shared.item_to_produce + count is_in num_masters s.master ≤ total_items + num_masters
    pub consumed :
        s.shared.item_to_consume + count is_in num_workers s.worker ≤ total_items + num_workers

  Step-Within :
      {s t : System}
      → Step total_items max_buf_size num_masters num_workers s t
      → Within s
      → Within t
  unfolding produce consume
  Step-Within {s} (master_enters i lt at test) w = record {
    produced = omega (
      arith,
      ltb→lt s.shared.item_to_produce total_items test,
      count_le is_in num_masters (update s.master i inside),
    );
    consumed = w.consumed;
  }
  Step-Within {s} (master_ends i lt at test) w = record {
    produced =
        omega (arith, w.produced, count_moved is_in num_masters s.master i outside finished lt at);
    consumed = w.consumed;
  }
  Step-Within {s} (master_sleeps i lt at test) w = record {
    produced =
        omega (arith, w.produced, count_moved is_in num_masters s.master i inside asleep lt at);
    consumed = w.consumed;
  }
  Step-Within {s} (master_wakes i lt at) w = record {
    produced =
        omega (arith, w.produced, count_moved is_in num_masters s.master i asleep inside lt at);
    consumed = w.consumed;
  }
  Step-Within {s} (master_produces i lt at test) w = record {
    produced =
        omega (arith, w.produced, count_moved is_in num_masters s.master i inside outside lt at);
    consumed = w.consumed;
  }
  Step-Within {s} (worker_enters i lt at test) w = record {
    produced = w.produced;
    consumed = omega (
      arith,
      ltb→lt s.shared.item_to_consume total_items test,
      count_le is_in num_workers (update s.worker i inside),
    );
  }
  Step-Within {s} (worker_ends i lt at test) w = record {
    produced = w.produced;
    consumed =
        omega (arith, w.consumed, count_moved is_in num_workers s.worker i outside finished lt at);
  }
  Step-Within {s} (worker_sleeps i lt at test) w = record {
    produced = w.produced;
    consumed =
        omega (arith, w.consumed, count_moved is_in num_workers s.worker i inside asleep lt at);
  }
  Step-Within {s} (worker_wakes i lt at) w = record {
    produced = w.produced;
    consumed =
        omega (arith, w.consumed, count_moved is_in num_workers s.worker i asleep inside lt at);
  }
  Step-Within {s} (worker_consumes i lt at test) w = record {
    produced = w.produced;
    consumed =
        omega (arith, w.consumed, count_moved is_in num_workers s.worker i inside outside lt at);
  }

  -- In every reachable state the items produced and the masters in a round are together at most the
  -- number of items and the number of masters, and so for the items consumed and the workers.
  pub Reach-Within :
      {s : System} → Reach total_items max_buf_size num_masters num_workers junk s → Within s
  unfolding start_shared
  Reach-Within begin = record {
    produced = omega (arith, count_zero is_in num_masters (λ _. outside) (λ i lt. refl));
    consumed = omega (arith, count_zero is_in num_workers (λ _. outside) (λ i lt. refl));
  }
  Reach-Within (next r st) = Step-Within st (Reach-Within r)
