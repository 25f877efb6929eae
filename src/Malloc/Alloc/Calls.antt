-- ===== src/Malloc/Alloc/Calls.antt =====
-- Programs that call alloc.c: any sequence of calls keeps the page valid.
use os_modules.Prelude.{ℕ, ◌<◌, ◌≡◌, ◌≢◌, Option, some, List, [], ◌∷◌, arith, ◌>>=◌, >>=-eq-some}
use mathlib.Core.Path.{subst}
use os_modules.Prelude.Int.{ℤ, pos}
use os_modules.Malloc.Page.Valid.{IsValid, Owns}
use os_modules.Malloc.Alloc.{State, blocks, init_alloc, alloc, dealloc}
use os_modules.Malloc.Alloc.Safety.{init_alloc-IsValid, alloc-IsValid, dealloc-IsValid}

pub data Call : Type 0 where
  alloc_call : (req_len : ℤ) → Call
  dealloc_call : (ptr : ℕ) → Call

-- The calls in order; `none` once a call has left the arrays.
unfoldable pub run : List Call → State → Option State
unfolding alloc dealloc
run [] s = some s
run (alloc_call req_len ∷ calls) s = run calls (alloc req_len s).1
run (dealloc_call ptr ∷ calls) s = dealloc ptr s >>= λ s'. run calls s'

run-IsValid :
    (calls : List Call) (s : State) {s' : State}
    → IsValid blocks s.page
    → run calls s ≡ some s'
    → IsValid blocks s'.page
unfolding run
run-IsValid [] s {s'} v e = subst {A = State} (λ t. IsValid blocks t.page) {x = s} {y = s'} (cc) v
run-IsValid (alloc_call req_len ∷ calls) s v e =
    run-IsValid calls (alloc req_len s).1 (alloc-IsValid req_len s v) e
run-IsValid (dealloc_call ptr ∷ calls) s v e =
    let (s₁, step, rest) = >>=-eq-some (dealloc ptr s) (run calls) e in
    run-IsValid calls s₁ (dealloc-IsValid ptr s v step) rest

-- After `init_alloc` and any calls, with any pointers, no block belongs to two allocations, every
-- allocation lies on the page, and its blocks are marked as used.
pub run_disjoint :
    (mapped : ℕ) (s₀ : State) (calls : List Call) {s : State}
    → (init_alloc mapped s₀).0 ≡ pos 0
    → run calls (init_alloc mapped s₀).1 ≡ some s
    → (t k : ℕ) → t < blocks
    → Owns s.page t k
    → (k < blocks) × (s.page.is_free k ≢ 1) × ((u : ℕ) → u < blocks → Owns s.page u k → t ≡ u)
run_disjoint mapped s₀ calls {s} started e t k h o =
    (omega (arith, v.fits t h), v.used t k h o, λ u hu ou. v.apart t u k h hu o ou)
  where
    v : IsValid blocks s.page
    v = run-IsValid calls (init_alloc mapped s₀).1 (init_alloc-IsValid mapped s₀ started) e
