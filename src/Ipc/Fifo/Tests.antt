-- ===== src/Ipc/Fifo/Tests.antt =====
-- Three numbers are typed.
use os_modules.Prelude.{◌≡◌, some, [], ◌∷◌}
use os_modules.Prelude.Array.{Array}
use os_modules.Prelude.Result.{fault, out_of_bounds}
use os_modules.Prelude.Int.{ℤ, pos}
use os_modules.Ipc.Fifo.{fifo_run}
use os_modules.Ipc.Fifo.Delivery.{replicate, delivered, fifo_run-eq-delivered}

abbrev tens : Array ℤ
tens i = pos 10

fifo_run-eq-delivered_example : fifo_run (pos 3) tens ≡ (
  fault out_of_bounds,
  some (some (pos 3) ∷ some (pos 10) ∷ some (pos 10) ∷ some (pos 10) ∷ []),
)
unfolding delivered replicate
fifo_run-eq-delivered_example = fifo_run-eq-delivered (pos 3) tens
