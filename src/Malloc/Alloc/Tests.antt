-- ===== src/Malloc/Alloc/Tests.antt =====
-- alloc.c at concrete states.
use os_modules.Prelude.{ℕ, ◌<◌, ◌≡◌, ◌≢◌, ◌⊎◌, ◌↔◌, refl, none, some, List, [], ◌∷◌, arith}
use mathlib.Core.Option.{get_or}
use os_modules.Prelude.Int.{pos, negsuc, mod_ℤ}
use os_modules.Malloc.Page.{claim, release}
use os_modules.Malloc.Page.Valid.{IsValid, Owns, blocks_at}
use os_modules.Malloc.Alloc.{State, blocks, min_alloc, init_alloc, alloc, dealloc}
use os_modules.Malloc.Alloc.Granted.{Granted, alloc-Granted, NoRoom, alloc-null_iff, req}
use os_modules.Malloc.Alloc.Safety.{alloc-IsValid, dealloc-IsValid, dealloc-alloc}
use os_modules.Malloc.Alloc.Calls.{Call, alloc_call, dealloc_call, run, run_disjoint}

-- A page with every block free, at address 4096.
abbrev started : State
started = record {
  page = record { is_free = λ _. 1; alloc_blocks_len = λ _. pos 0 };
  base_ptr = 4096;
}

started-IsValid : IsValid blocks started.page
started-IsValid = record {
  fits = λ s h. omega arith;
  used = λ s k h o. absurd (omega arith);
  apart = λ s t k hs ht o q. absurd (omega arith);
  covered = λ k h u. absurd (u refl);
}

-- Two blocks are asked for.
two_blocks : (alloc (pos 16) started).0 ≡ some 4096
unfolding alloc
two_blocks = refl

second : State
unfolding alloc
second = (alloc (pos 16) started).1

-- The next request is placed behind the first.
next_block : (alloc (pos 8) second).0 ≡ some 4112
unfolding alloc second
next_block = refl

-- A length that is no multiple of 8 is refused; one that is negative is not.
odd_length : (alloc (pos 12) started).0 ≡ none
unfolding alloc
odd_length = refl

negative_length : (alloc (negsuc 7) started).0 ≡ some 4096
unfolding alloc
negative_length = refl

granted_two : alloc (pos 16) started ≡ (some 4096, second)
unfolding alloc second
granted_two = refl

alloc-Granted_example :
    (mod_ℤ (pos 16) min_alloc ≡ pos 0)
    × (g : Granted started (req (pos 16) started) 4096) × (second
        ≡ record started { page = claim started.page g.start (req (pos 16) started) })
alloc-Granted_example = alloc-Granted (pos 16) started granted_two

alloc-null_iff_example :
    ((alloc (pos 12) started).0 ≡ none)
    ↔ ((mod_ℤ (pos 12) min_alloc ≢ pos 0) ⊎ NoRoom (pos 12) started)
alloc-null_iff_example = alloc-null_iff (pos 12) started

alloc-IsValid_example : IsValid blocks (alloc (pos 16) started).1.page
alloc-IsValid_example = alloc-IsValid (pos 16) started started-IsValid

second-IsValid : IsValid blocks second.page
unfolding second
second-IsValid = alloc-IsValid (pos 16) started started-IsValid

third : State
unfolding alloc
third = (alloc (pos 8) second).1

granted_one : alloc (pos 8) second ≡ (some 4112, third)
unfolding alloc second third
granted_one = refl

freed : State
freed = record started { page = release second.page 0 }

freed-first : dealloc 4096 second ≡ some freed
unfolding dealloc second freed
freed-first = refl

dealloc-IsValid_example : IsValid blocks freed.page
dealloc-IsValid_example = dealloc-IsValid 4096 second second-IsValid freed-first

dealloc-alloc_example :
    (s : State) × (dealloc 4112 third ≡ some s)
    × (s.base_ptr ≡ second.base_ptr)
    × ((k : ℕ)
        → (s.page.is_free k ≡ second.page.is_free k)
          × (blocks_at s.page k ≡ blocks_at second.page k))
dealloc-alloc_example = dealloc-alloc (pos 8) second second-IsValid granted_one

abbrev empty : State
empty = record { page = record { is_free = λ _. 0; alloc_blocks_len = λ _. pos 0 }; base_ptr = 0 }

abbrev calls : List Call
calls = alloc_call (pos 16) ∷ alloc_call (pos 8) ∷ dealloc_call 4096 ∷ []

after_calls : State
unfolding run init_alloc
after_calls = get_or (run calls (init_alloc 4096 empty).1) empty

after_calls_run : run calls (init_alloc 4096 empty).1 ≡ some after_calls
unfolding run init_alloc after_calls
after_calls_run = refl

Owns-block : Owns after_calls.page 2 2
unfolding after_calls
Owns-block = omega arith

starts : (init_alloc 4096 empty).0 ≡ pos 0
unfolding init_alloc
starts = refl

run_disjoint_example :
    (2 < blocks)
    × (after_calls.page.is_free 2 ≢ 1)
    × ((u : ℕ) → u < blocks → Owns after_calls.page u 2 → ◌≡◌ {A = ℕ} 2 u)
run_disjoint_example =
    run_disjoint 4096 empty calls starts after_calls_run 2 2 (omega arith) Owns-block
