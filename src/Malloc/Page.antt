-- ===== src/Malloc/Page.antt =====
-- The bookkeeping of one page of BLOCKS blocks, which alloc.c keeps once and ealloc.c once a page,
-- and the loop that both files search it by. The C arrays are functions of their index: `Run` and
-- `Valid` show that no index from BLOCKS on is reached.
pub mod Run
pub mod Fit
pub mod Valid
pub mod Owner
use os_modules.Prelude.{
  ℕ, zero, suc, ◌+◌, ◌-◌, Option, none, some, ◌&&◌, ◌==◌, ltb, leb, if◌then◌else◌,
}
use os_modules.Prelude.Array.{Array, update, fill}
use os_modules.Prelude.Int.{ℤ, pos, pos_part, leb_ℤ}

-- is_free holds 1 for a free block and 0 for a used one; alloc_blocks_len holds the length of the
-- allocation that starts at a block.
pub record Page : Type 0 where
  pub is_free : Array ℕ
  pub alloc_blocks_len : Array ℤ

abbrev pub page_size : ℕ
page_size = 4096

-- The inner loop, from block `j` with `left` blocks up to the end of the page.
unfoldable pub free_len : Array ℕ → (left j : ℕ) → ℕ
free_len f zero j = 0
free_len f (suc left) j = if f j == 1 then suc (free_len f left (j + 1)) else 0

-- The outer loop at block `i`. `none` stands for the index -1. After a free run the counter goes
-- on behind it (`i += len - 1`, then `i++`).
unfoldable pub scan :
    (blocks : ℕ) → Array ℕ → (req_blocks : ℤ) → (fuel i min_free_slot : ℕ) → Option ℕ → Option ℕ
scan blocks f req_blocks zero i min_free_slot free_start_idx = free_start_idx
scan blocks f req_blocks (suc fuel) i min_free_slot free_start_idx =
    let len = if f i == 1 then free_len f (blocks - i) i else 0 in
    let better = f i == 1 && (leb_ℤ req_blocks (pos len) && leb len min_free_slot) in
    let rest =
      scan blocks f req_blocks fuel (if f i == 1 then i + len else i + 1)
        (if better then len else min_free_slot) (if better then some i else free_start_idx) in
    if ltb i blocks then rest else free_start_idx

-- The whole search: `min_free_slot` starts at PAGESIZE, and `blocks` rounds are enough, since each
-- goes on by a block at least.
unfoldable pub best_fit : (blocks : ℕ) → Array ℕ → (req_blocks : ℤ) → Option ℕ
unfolding scan free_len
best_fit blocks f req_blocks = scan blocks f req_blocks blocks 0 page_size none

-- What an allocation of `req_blocks` blocks at `start` writes. A loop with no rounds, for a request
-- that is not positive, marks nothing.
unfoldable pub claim : Page → (start : ℕ) → (req_blocks : ℤ) → Page
unfolding fill update
claim p start req_blocks = record {
  is_free = fill p.is_free start (pos_part req_blocks) 0;
  alloc_blocks_len = update p.alloc_blocks_len start req_blocks;
}

-- What `dealloc` writes for the allocation at `idx`.
unfoldable pub release : Page → (idx : ℕ) → Page
unfolding fill update
release p idx = record {
  is_free = fill p.is_free idx (pos_part (p.alloc_blocks_len idx)) 1;
  alloc_blocks_len = update p.alloc_blocks_len idx (pos 0);
}

-- All of a page free.
unfoldable pub fresh : (blocks : ℕ) → Page → Page
unfolding fill
fresh blocks p = record {
  is_free = fill p.is_free 0 blocks 1;
  alloc_blocks_len = fill p.alloc_blocks_len 0 blocks (pos 0);
}
