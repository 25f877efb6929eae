-- ===== src/Malloc/Ealloc.antt =====
-- malloc-code/ealloc.c: an allocator over four pages, each mapped when it is first looked at.
pub mod Ready
pub mod Granted
pub mod Alloc
pub mod Find
pub mod Dealloc
pub mod Unclaimed
pub mod Calls
mod Tests
use os_modules.Prelude.{
  ℕ, zero, suc, ◌+◌, ◌-◌, ◌*◌, Option, none, some, ◌==◌, leb, if◌then◌else◌, ◌>>=◌,
}
use os_modules.Prelude.Array.{Array, update, fill}
use os_modules.Prelude.Int.{ℤ, pos, negsuc, ◌-ℤ◌, div_ℤ, mod_ℤ, eqb_ℤ, to_int}
use os_modules.Malloc.Page.{Page, best_fit, claim, release, fresh}

abbrev pub min_alloc : ℕ
min_alloc = 256

-- BLOCKS
abbrev pub blocks : ℕ
blocks = 16

-- PAGES
abbrev pub pages : ℕ
pages = 4

-- The global variables; `mmap_calls` counts the calls of mmap, and 0 is NULL.
pub record State : Type 0 where
  pub page : Array Page
  pub base_ptr : Array ℕ
  pub mmap_calls : ℕ

unfoldable pub fresh_pages : (left j : ℕ) → Array Page → Array Page
unfolding fresh update
fresh_pages zero j a = a
fresh_pages (suc left) j a = fresh_pages left (j + 1) (update a j (fresh blocks (a j)))

unfoldable pub init_alloc : State → State
unfolding fresh_pages fill
init_alloc s = record {
  page = fresh_pages pages 0 s.page;
  base_ptr = fill s.base_ptr 0 pages 0;
  mmap_calls = 0;
}

unfoldable pub get_free_start_idx : State → (page_number : ℕ) → (req_blocks : ℤ) → Option ℕ
unfolding best_fit
get_free_start_idx s page_number req_blocks =
    best_fit blocks (s.page page_number).is_free req_blocks

-- The address of each call's mapping.
module _ (mmap : ℕ → ℕ) where
  -- The page is mapped if it has not been.
  unfoldable pub demand : (page : ℕ) → State → State
  unfolding update
  demand page s =
      if s.base_ptr page == 0
      then record s {
        base_ptr = update s.base_ptr page (mmap s.mmap_calls);
        mmap_calls = s.mmap_calls + 1;
      }
      else s

-- A round of the loop over the pages: `rest` is what the later rounds return.
unfoldable pub place :
    Option ℕ → (req_blocks : ℤ) → (page : ℕ) → State → (rest : Option ℕ × State) → Option ℕ × State
unfolding claim update
place none req_blocks page s rest = rest
place (some start) req_blocks page s rest = (
  some (s.base_ptr page + start * min_alloc),
  record s { page = update s.page page (claim (s.page page) start req_blocks) },
)

module _ (mmap : ℕ → ℕ) where
  -- The loop over the pages from `page` on.
  unfoldable pub search_pages : (req_blocks : ℤ) → (left page : ℕ) → State → Option ℕ × State
  unfolding demand get_free_start_idx place
  search_pages req_blocks zero page s = (none, s)
  search_pages req_blocks (suc left) page s =
      let s₁ = demand mmap page s in
      place (get_free_start_idx s₁ page req_blocks) req_blocks page s₁
        (search_pages req_blocks left (page + 1) s₁)

  -- The result `none` is NULL.
  unfoldable pub alloc : (req_len : ℤ) → State → Option ℕ × State
  unfolding mod_ℤ div_ℤ search_pages
  alloc req_len s =
      if eqb_ℤ (mod_ℤ req_len min_alloc) (pos 0)
      then search_pages (div_ℤ req_len min_alloc) pages 0 s
      else (none, s)

unfoldable pub block_index : (ptr base : ℕ) → ℤ
unfolding to_int ◌-ℤ◌ div_ℤ
block_index ptr base = div_ℤ (to_int (pos ptr -ℤ pos base)) min_alloc

-- A round of the search for the page of a pointer.
unfoldable pub hit : (idx : ℤ) → (page : ℕ) → (rest : Option (ℕ × ℕ)) → Option (ℕ × ℕ)
hit (pos idx) page rest = if leb idx (blocks - 1) then some (page, idx) else rest
hit (negsuc idx) page rest = rest

unfoldable pub find_page : (ptr : ℕ) → Array ℕ → (left i : ℕ) → Option (ℕ × ℕ)
unfolding block_index hit
find_page ptr base zero i = none
find_page ptr base (suc left) i = hit (block_index ptr (base i)) i (find_page ptr base left (i + 1))

unfoldable pub free_at : ℕ × ℕ → State → State
unfolding release update
free_at (page, idx) s = record s { page = update s.page page (release (s.page page) idx) }

-- `none` is the access of row -1, for a pointer in no page, which C leaves undefined.
unfoldable pub dealloc : (ptr : ℕ) → State → Option State
unfolding find_page free_at
dealloc ptr s = find_page ptr s.base_ptr pages 0 >>= λ at. some (free_at at s)

-- `cleanup` does nothing.
unfoldable pub cleanup : State → State
cleanup s = s
