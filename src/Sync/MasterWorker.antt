-- ===== src/Sync/MasterWorker.antt =====
-- pthreads-sync-code/master-worker: masters that put the items 0, 1, 2, … into a circular buffer, and
-- workers that take them. What stands between pthread_mutex_lock and the wait or the unlock is one
-- function on the global variables.
pub mod System
pub mod Order
pub mod Overshoot
pub mod Signals
pub mod Over
pub mod Stuck
mod Tests
use os_modules.Prelude.{ℕ, ◌+◌, ◌%◌, Bool, ◌&&◌, ltb}
use os_modules.Prelude.Array.{Array, update}
use os_modules.Prelude.Int.{ℤ, pos, ◌+ℤ◌, ◌-ℤ◌, eqb_ℤ}

pub record Shared : Type 0 where
  pub item_to_produce : ℕ
  pub curr_buf_size : ℤ
  pub item_to_consume : ℕ
  pub buffer : Array ℕ
  pub add : ℕ
  pub rem : ℕ

-- What `main` sets; malloc leaves `junk` in the buffer.
unfoldable pub start_shared : (junk : Array ℕ) → Shared
start_shared junk = record {
  item_to_produce = 0;
  curr_buf_size = pos 0;
  item_to_consume = 0;
  buffer = junk;
  add = 0;
  rem = 0;
}

module _ (total_items max_buf_size : ℕ) where
  -- The tests of the inner loops.
  unfoldable pub master_waits : Shared → Bool
  master_waits s = eqb_ℤ s.curr_buf_size (pos max_buf_size) && ltb s.item_to_produce total_items

  unfoldable pub worker_waits : Shared → Bool
  worker_waits s = eqb_ℤ s.curr_buf_size (pos 0) && ltb s.item_to_consume total_items

  -- Behind the inner loop of `generate_requests_loop`.
  unfoldable pub produce : Shared → Shared
  unfolding update ◌+ℤ◌
  produce s = record s {
    buffer = update s.buffer s.add s.item_to_produce;
    add = (s.add + 1) % max_buf_size;
    item_to_produce = s.item_to_produce + 1;
    curr_buf_size = s.curr_buf_size +ℤ pos 1;
  }

  -- Behind the inner loop of `process_request_loop`: the item that is printed, and the rest.
  unfoldable pub consume : Shared → ℕ × Shared
  unfolding ◌-ℤ◌
  consume s = (
    s.buffer s.rem,
    record s {
      rem = (s.rem + 1) % max_buf_size;
      curr_buf_size = s.curr_buf_size -ℤ pos 1;
      item_to_consume = s.item_to_consume + 1;
    },
  )
