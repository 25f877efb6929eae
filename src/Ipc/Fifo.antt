-- ===== src/Ipc/Fifo.antt =====
-- ipc-code/fifo_writer.c and fifo_reader.c: a writer that sends how many numbers come and then the numbers, and a reader
-- that prints what comes. A number goes through the fifo as a whole.
pub mod Delivery
mod Tests
use os_modules.Prelude.{
  ℕ, zero, suc, ◌+◌, ◌<◌, ◌≡◌, Option, none, some, List, [], ◌∷◌, ltb, if◌then◌else◌,
}
use os_modules.Prelude.Array.{Array}
use os_modules.Prelude.Result.{Result, ok, fault, out_of_bounds}
use os_modules.Prelude.Int.{ℤ, pos_part}

-- malloc(sizeof(int)): the numbers that `arr` has room for.
abbrev pub room : ℕ
room = 1

-- What is in the fifo when the writer has come to its end, or has stopped at a fault.
pub record Sent : Type 0 where
  pub fifo : List ℤ
  pub outcome : Result (Unit {0})

-- The loop of the writer from `i` on; `typed i` is the number that is typed for arr[i].
unfoldable pub send_numbers : (typed : Array ℤ) → (rounds i : ℕ) → Sent
send_numbers typed zero i = record { fifo = []; outcome = ok tt }
send_numbers typed (suc rounds) i =
    let rest = send_numbers typed rounds (i + 1) in
    if ltb i room
    then record { fifo = typed i ∷ rest.fifo; outcome = rest.outcome }
    else record { fifo = []; outcome = fault out_of_bounds }

unfoldable pub fifo_writer : (n : ℤ) → (typed : Array ℤ) → Sent
unfolding send_numbers
fifo_writer n typed =
    let sent = send_numbers typed (pos_part n) 0 in record sent { fifo = n ∷ sent.fifo }

-- The loop of the reader. At the end of what is sent, read returns 0 and `x` stays; `none` is an `x` that is not set.
unfoldable pub print_loop : (rounds : ℕ) → (x : Option ℤ) → (fifo : List ℤ) → List (Option ℤ)
print_loop zero x fifo = []
print_loop (suc rounds) x [] = x ∷ print_loop rounds x []
print_loop (suc rounds) x (y ∷ fifo) = some y ∷ print_loop rounds (some y) fifo

-- `none`: the number of rounds is not set.
unfoldable pub fifo_reader : (fifo : List ℤ) → Option (List (Option ℤ))
unfolding print_loop
fifo_reader [] = none
fifo_reader (n ∷ fifo) = some (some n ∷ print_loop (pos_part n) none fifo)

-- Both programs: how the writer ends, and what the reader prints.
unfoldable pub fifo_run : (n : ℤ) → (typed : Array ℤ) → Result (Unit {0}) × Option (List (Option ℤ))
unfolding fifo_writer fifo_reader
fifo_run n typed = let sent = fifo_writer n typed in (sent.outcome, fifo_reader sent.fifo)
