-- ===== src/Ipc/Pipes.antt =====
-- ipc-code/pipes_ex1.c: a parent that sends an array to its child through a pipe, and gets the product of the
-- numbers through another one.
pub mod Product
pub mod Short
pub mod Value
mod Tests
use os_modules.Prelude.{
  ℕ, zero, suc, ◌+◌, ◌*◌, ◌^◌, ◌≤◌, ◌<◌, ◌≡◌, ◌≢◌, Bool, ◌&&◌, Option, none, some, List, [], ◌∷◌,
  ◌++◌, ltb, if◌then◌else◌,
}
use os_modules.Prelude.Text.{length, take, drop}
use os_modules.Prelude.Int.{ℤ, pos, pos_part, neg_part, sub_ℕ}

-- PIPE_BUF / sizeof(int): a write of at most so many numbers is atomic.
abbrev pub pipe_buf : ℕ
pipe_buf = 1024

infixl 70 ◌*ℤ◌
unfoldable pub ◌*ℤ◌ : ℤ → ℤ → ℤ
a *ℤ b =
    sub_ℕ (pos_part a * pos_part b + neg_part a * neg_part b)
      (pos_part a * neg_part b + neg_part a * pos_part b)

-- Whether a `long long int` holds the number.
abbrev pub fits_long : ℤ → Bool
fits_long z = ltb (pos_part z) (2 ^ 63) && ltb (neg_part z) (2 ^ 63 + 1)

-- The loop of the child over `arr`, of which read has set the numbers given. `none` is the product when a place that is
-- not set is read, or the product overflows.
unfoldable pub prod_loop : (rounds : ℕ) → (prod : ℤ) → (arr : List ℤ) → Option ℤ
prod_loop zero prod arr = some prod
prod_loop (suc rounds) prod [] = none
prod_loop (suc rounds) prod (x ∷ arr) =
    let rest = prod_loop rounds (prod *ℤ x) arr in if fits_long (prod *ℤ x) then rest else none

-- At the write, at the read, at waitpid, at the end, and killed by a write to a pipe that nobody reads.
pub data ParentPc : Type 0 where
  to_write to_read to_wait over killed : ParentPc

pub data ChildPc : Type 0 where
  child_read child_write child_over : ChildPc

-- `left` is what the parent has still to write; `fd1` and `fd2` are what stands in the pipes.
pub record State : Type 0 where
  pub parent : ParentPc
  pub left : List ℤ
  pub fd1 : List ℤ
  pub child : ChildPc
  pub arr : List ℤ
  pub fd2 : List (Option ℤ)
  pub printed : List (Option ℤ)

-- Behind the fork, when the parent has read the numbers.
unfoldable pub start : (numbers : List ℤ) → State
start numbers = record {
  parent = to_write;
  left = numbers;
  fd1 = [];
  child = child_read;
  arr = [];
  fd2 = [];
  printed = [];
}

abbrev pub behind_write : (left : List ℤ) → ParentPc
behind_write [] = to_read
behind_write (x ∷ left) = to_write

-- The system takes the next `k` numbers of the write.
unfoldable pub write_part : (k : ℕ) → State → State
write_part k s = record s {
  parent = behind_write (drop k s.left);
  left = drop k s.left;
  fd1 = s.fd1 ++ take k s.left;
}

-- read(fd1[0], arr, n * sizeof(int)): no more than `n` numbers are sent.
unfoldable pub read_arr : State → State
read_arr s = record s { child = child_write; arr = s.fd1; fd1 = [] }

-- The loop of the child, its write, and its end.
unfoldable pub write_prod : (n : ℕ) → State → State
unfolding prod_loop
write_prod n s = record s { child = child_over; fd2 = prod_loop n (pos 1) s.arr ∷ [] }

unfoldable pub print_prod : (prod : Option ℤ) → (rest : List (Option ℤ)) → State → State
print_prod prod rest s = record s {
  parent = to_wait;
  fd2 = rest;
  printed = s.printed ++ (prod ∷ []);
}

-- A step of one of the processes, with `n` numbers. The system splits a write only when it is larger than PIPE_BUF.
pub data Step (n : ℕ) (s : State) : State → Type 0 where
  writes :
      (k : ℕ)
      → s.parent ≡ to_write
      → s.child ≢ child_over
      → 0 < k
      → k ≤ length s.left
      → (n ≤ pipe_buf → k ≡ length s.left)
      → Step n s (write_part k s)
  breaks : s.parent ≡ to_write → s.child ≡ child_over → Step n s (record s { parent = killed })
  reads : s.child ≡ child_read → s.fd1 ≢ [] → Step n s (read_arr s)
  multiplies : s.child ≡ child_write → Step n s (write_prod n s)
  prints :
      (prod : Option ℤ) (rest : List (Option ℤ))
      → s.parent ≡ to_read
      → s.fd2 ≡ prod ∷ rest
      → Step n s (print_prod prod rest s)
  waits : s.parent ≡ to_wait → s.child ≡ child_over → Step n s (record s { parent = over })

-- Reachable after `i` steps, from the numbers that are typed.
pub data Reach (numbers : List ℤ) : (i : ℕ) → State → Type 0 where
  begin : Reach numbers 0 (start numbers)
  next :
      {i : ℕ} {s t : State}
      → Reach numbers i s
      → Step (length numbers) s t
      → Reach numbers (i + 1) t
