-- ===== src/Malloc/Alloc.antt =====
-- malloc-code/alloc.c: an allocator over one page of memory.
pub mod Granted
pub mod Safety
pub mod Calls
mod Tests
use os_modules.Prelude.{
  ℕ, ◌+◌, ◌*◌, Bool, true, false, Option, none, some, List, [], ◌∷◌, ltb, ◌==◌, if◌then◌else◌,
}
use os_modules.Prelude.Int.{ℤ, pos, negsuc, ◌-ℤ◌, div_ℤ, mod_ℤ, eqb_ℤ, to_int}
use os_modules.Malloc.Page.{Page, page_size, best_fit, claim, release, fresh}

abbrev pub min_alloc : ℕ
min_alloc = 8

-- BLOCKS
abbrev pub blocks : ℕ
blocks = 512

-- The file's global variables. A pointer is an address.
pub record State : Type 0 where
  pub page : Page
  pub base_ptr : ℕ

abbrev pub map_failed : ℕ
map_failed = 0xffff_ffff_ffff_ffff

-- `mapped` is what mmap returns.
unfoldable pub init_alloc : (mapped : ℕ) → State → ℤ × State
unfolding fresh
init_alloc mapped s =
    if mapped == map_failed
    then (pos 1, record s { base_ptr = mapped })
    else (pos 0, record { page = fresh blocks s.page; base_ptr = mapped })

-- `unmapped` is what munmap returns.
unfoldable pub cleanup : (unmapped : ℤ) → State → ℤ × State
cleanup unmapped s = (if eqb_ℤ unmapped (negsuc 0) then pos 1 else pos 0, s)

-- The rest of `alloc`, once the search has returned `start`.
unfoldable pub place : Option ℕ → (req_blocks : ℤ) → State → Option ℕ × State
unfolding claim
place none req_blocks s = (none, s)
place (some start) req_blocks s =
    (some (s.base_ptr + start * min_alloc), record s { page = claim s.page start req_blocks })

-- The result `none` is NULL.
unfoldable pub alloc : (req_len : ℤ) → State → Option ℕ × State
unfolding mod_ℤ div_ℤ best_fit place
alloc req_len s =
    if eqb_ℤ (mod_ℤ req_len min_alloc) (pos 0)
    then place (best_fit blocks s.page.is_free (div_ℤ req_len min_alloc)) (div_ℤ req_len min_alloc)
        s
    else (none, s)

-- The block that `dealloc` computes from a pointer.
unfoldable pub block_index : (ptr base : ℕ) → ℤ
unfolding to_int ◌-ℤ◌ div_ℤ
block_index ptr base = div_ℤ (to_int (pos ptr -ℤ pos base)) min_alloc

unfoldable pub free_at : ℤ → State → Option State
unfolding release
free_at (pos idx) s = if ltb idx blocks then some (record s { page = release s.page idx }) else none
free_at (negsuc idx) s = none

-- `none` is an access outside the arrays, which C leaves undefined.
unfoldable pub dealloc : (ptr : ℕ) → State → Option State
unfolding block_index free_at
dealloc ptr s = free_at (block_index ptr s.base_ptr) s
