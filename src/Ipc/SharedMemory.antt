-- ===== src/Ipc/SharedMemory.antt =====
-- ipc-code/my_shm_posix_prod.c and my_shm_posix_cons.c: a producer that writes a string 1000 times into 512 places of
-- a shared memory, and a consumer that prints and frees the places whose numbers come through a fifo. A string
-- of 8 bytes is written or compared in one step.
pub mod Window
pub mod Steps
pub mod Delivery
mod Tests
use os_modules.Prelude.{ℕ, ◌+◌, ◌<◌, ◌≡◌, ◌≢◌, List, [], ◌∷◌, ◌++◌, ◌==◌, if◌then◌else◌}
use os_modules.Prelude.Array.{Array, update, fill}

-- The number of places of sizeof(free_str) bytes in SHM_SIZE bytes.
abbrev pub places : ℕ
places = 512

abbrev pub messages : ℕ
messages = 1000

-- What stands in a place; a new memory has zeros.
pub data Content : Type 0 where
  zeros free_str str : Content

-- At the test of the inner while, at the if behind it, and at the write to the fifo.
pub data ProducerPc : Type 0 where
  at_while at_if at_write : ProducerPc

pub data ConsumerPc : Type 0 where
  at_read at_printf at_sprintf : ConsumerPc

-- `ptr` is the memory; `cnt` and `itr` are local to each program.
pub record State : Type 0 where
  pub ptr : Array Content
  pub fifo : List ℕ
  pub producer : ProducerPc
  pub cnt : ℕ
  pub itr : ℕ
  pub consumer : ConsumerPc
  pub consumer_cnt : ℕ
  pub consumer_itr : ℕ
  pub printed : List (Content × ℕ)

-- The start of the loops: the producer has set all places, and the fifo is open at both ends.
unfoldable pub start : (consumer_itr : ℕ) → State
unfolding fill
start consumer_itr = record {
  ptr = fill (λ _. zeros) 0 places free_str;
  fifo = [];
  producer = at_while;
  cnt = 0;
  itr = 0;
  consumer = at_read;
  consumer_cnt = 0;
  consumer_itr = consumer_itr;
  printed = [];
}

-- The end of a round of the producer, and the start of the next one.
unfoldable pub next_round : State → State
next_round s =
    let cnt' = s.cnt + 1 in
    record s { producer = at_while; cnt = cnt'; itr = if cnt' == places then 0 else s.itr + 1 }

unfoldable pub write_str : State → State
unfolding update
write_str s = record s { ptr = update s.ptr s.itr str; producer = at_write }

unfoldable pub send : State → State
unfolding next_round
send s = next_round (record s { fifo = s.fifo ++ (s.itr ∷ []) })

unfoldable pub receive : (itr : ℕ) → (rest : List ℕ) → State → State
receive itr rest s = record s { fifo = rest; consumer = at_printf; consumer_itr = itr }

unfoldable pub print : State → State
print s = record s {
  consumer = at_sprintf;
  printed = s.printed ++ ((s.ptr s.consumer_itr, s.consumer_itr) ∷ []);
}

unfoldable pub free_place : State → State
unfolding update
free_place s = record s {
  ptr = update s.ptr s.consumer_itr free_str;
  consumer = at_read;
  consumer_cnt = s.consumer_cnt + 1;
}

-- A step of one of the programs. A round of the inner while that finds the place in use changes nothing.
pub data Step (s : State) : State → Type 0 where
  leaves_while :
      s.producer ≡ at_while
      → s.cnt < messages
      → s.ptr s.itr ≡ free_str
      → Step s (record s { producer = at_if })
  writes : s.producer ≡ at_if → s.ptr s.itr ≡ free_str → Step s (write_str s)
  skips : s.producer ≡ at_if → s.ptr s.itr ≢ free_str → Step s (next_round s)
  sends : s.producer ≡ at_write → Step s (send s)
  receives :
      (k : ℕ) (rest : List ℕ)
      → s.consumer ≡ at_read
      → s.consumer_cnt < messages
      → s.fifo ≡ k ∷ rest
      → Step s (receive k rest s)
  -- The producer has closed the fifo: read returns 0 and leaves `itr`.
  finds_end :
      s.consumer ≡ at_read
      → s.consumer_cnt < messages
      → s.fifo ≡ []
      → s.cnt ≡ messages
      → Step s (receive s.consumer_itr [] s)
  prints : s.consumer ≡ at_printf → Step s (print s)
  frees : s.consumer ≡ at_sprintf → Step s (free_place s)

-- Reachable after `n` steps.
pub data Reach (consumer_itr : ℕ) : (n : ℕ) → State → Type 0 where
  begin : Reach consumer_itr 0 (start consumer_itr)
  next : {n : ℕ} {s t : State} → Reach consumer_itr n s → Step s t → Reach consumer_itr (n + 1) t
