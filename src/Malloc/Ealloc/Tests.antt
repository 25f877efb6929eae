-- ===== src/Malloc/Ealloc/Tests.antt =====
-- ealloc.c at concrete states.
use os_modules.Prelude.{
  ℕ, ◌+◌, ◌*◌, ◌≡◌, ◌≢◌, ◌⊎◌, refl, none, some, arith, ◌==◌, if◌then◌else◌, ◌<◌, List, [], ◌∷◌, ltb,
}
use mathlib.Core.Option.{get_or}
use os_modules.Prelude.Int.{pos, mod_ℤ}
use os_modules.Malloc.Page.{Page}
use os_modules.Malloc.Page.Valid.{Owns, blocks_at}
use os_modules.Malloc.Alloc.Calls.{Call, alloc_call, dealloc_call}
use os_modules.Malloc.Ealloc.Calls.{run_pages, run_pages_disjoint}
use os_modules.Malloc.Ealloc.{State, min_alloc, blocks, init_alloc, alloc, dealloc, free_at}
use os_modules.Malloc.Ealloc.Ready.{IsReady, init_alloc-IsReady}
use os_modules.Malloc.Ealloc.Granted.{Granted}
use os_modules.Malloc.Ealloc.Alloc.{request, IsFull, alloc-IsReady, alloc_pages_lem}
use os_modules.Malloc.Ealloc.Dealloc.{IsNear, SamePage, dealloc-alloc_pages, dealloc_wrong_page}

-- Mappings one behind the other.
abbrev mmap : ℕ → ℕ
mmap k = 0x10000000 + k * 4096

mmap-IsNear : IsNear mmap
mmap-IsNear = record {
  nonnull = λ j. omega arith;
  apart = λ i j hi hj ne. ground arith;
  near = λ i j hi hj. omega arith;
}

abbrev no_page : Page
no_page = record { is_free = λ _. 0; alloc_blocks_len = λ _. pos 0 }

abbrev blank : State
blank = record { page = λ _. no_page; base_ptr = λ _. 1; mmap_calls = 0 }

started : State
unfolding init_alloc
started = init_alloc blank

started-IsReady : IsReady mmap started
unfolding started
started-IsReady = init_alloc-IsReady blank

-- The whole of the first page.
first : State
unfolding alloc started
first = (alloc mmap (pos 4096) started).1

first_ptr : (alloc mmap (pos 4096) started).0 ≡ some 0x10000000
unfolding alloc started
first_ptr = refl

first-IsReady : IsReady mmap first
unfolding first
first-IsReady = alloc-IsReady mmap-IsNear.nonnull (pos 4096) started started-IsReady

-- The next block is on the second page.
second_ptr : (alloc mmap (pos 256) first).0 ≡ some 0x10001000
unfolding alloc first
second_ptr = refl

alloc_pages_lem_example :
    ((mod_ℤ (pos 256) min_alloc ≡ pos 0)
      × Granted mmap first.page (request (pos 256)) (alloc mmap (pos 256) first))
    ⊎ (((alloc mmap (pos 256) first).0 ≡ none)
        × ((mod_ℤ (pos 256) min_alloc ≢ pos 0) ⊎ IsFull first (request (pos 256))))
alloc_pages_lem_example = alloc_pages_lem mmap-IsNear.nonnull (pos 256) first first-IsReady

freed : State
unfolding free_at first
freed = free_at (0, 0) first

freed-first : dealloc 0x10000000 first ≡ some freed
unfolding dealloc first freed
freed-first = refl

dealloc-alloc_pages_example :
    (s : State) × (dealloc 0x10001000 (alloc mmap (pos 256) first).1 ≡ some s)
    × ((j : ℕ) → SamePage (first.page j) (s.page j))
dealloc-alloc_pages_example =
    dealloc-alloc_pages mmap-IsNear (pos 256) first first-IsReady second_ptr

-- The second page mapped 4 GiB above the first.
abbrev far : State
far = record {
  page = λ _. no_page;
  base_ptr = λ k. if k == 0 then 0x10000000 else 0x110000000;
  mmap_calls = 2;
}

dealloc_wrong_page_example : dealloc (0x110000000 + 3 * min_alloc) far ≡ some (free_at (0, 3) far)
dealloc_wrong_page_example = dealloc_wrong_page far 1 3 refl (omega arith)

-- The whole of the first page, a block of the second, and then the first page is given back.
abbrev calls : List Call
calls = alloc_call (pos 4096) ∷ alloc_call (pos 256) ∷ dealloc_call 0x10000000 ∷ []

after_calls : State
unfolding run_pages
after_calls = get_or (run_pages mmap calls started) blank

after_calls_run : run_pages mmap calls started ≡ some after_calls
unfolding run_pages started after_calls
after_calls_run = refl

Owns-second : Owns (after_calls.page 1) 0 0
unfolding after_calls started
Owns-second = let one : blocks_at (after_calls.page 1) 0 ≡ 1 = refl in omega (arith, one)

run_pages_disjoint_example :
    (after_calls.base_ptr 1 ≡ (if ltb 1 after_calls.mmap_calls then mmap 1 else 0))
    × ((t k : ℕ)
        → t < blocks
        → Owns (after_calls.page 1) t k
        → (1 < after_calls.mmap_calls)
          × (k < blocks)
          × ((after_calls.page 1).is_free k ≢ 1)
          × ((u : ℕ) → u < blocks → Owns (after_calls.page 1) u k → t ≡ u))
unfolding started
run_pages_disjoint_example =
    run_pages_disjoint mmap-IsNear.nonnull blank calls after_calls_run 1 (omega arith)
