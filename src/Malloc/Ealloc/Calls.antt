-- ===== src/Malloc/Ealloc/Calls.antt =====
-- Programs that call ealloc.c: any sequence of calls keeps the pages valid and mapped in order.
use mathlib.Core.Path.{subst}
use os_modules.Prelude.{
  ℕ, ◌<◌, ◌≡◌, ◌≢◌, Option, some, [], ◌∷◌, List, arith, ◌>>=◌, >>=-eq-some, ltb, ltb→lt, ltb→le,
  if◌then◌else◌, Bool-cases, inl, inr, dec_lt,
}
use os_modules.Malloc.Page.Valid.{IsValid, Owns}
use os_modules.Malloc.Alloc.Calls.{Call, alloc_call, dealloc_call}
use os_modules.Malloc.Ealloc.{State, blocks, pages, init_alloc, alloc, dealloc}
use os_modules.Malloc.Ealloc.Ready.{IsNonnull, IsReady, init_alloc-IsReady}
use os_modules.Malloc.Ealloc.Alloc.{alloc-IsReady}
use os_modules.Malloc.Ealloc.Dealloc.{dealloc-IsReady}
use os_modules.Malloc.Ealloc.Unclaimed.{
  IsUnclaimed, init_alloc-IsUnclaimed, alloc-IsUnclaimed, dealloc-IsUnclaimed,
}

-- The calls in order; `none` once a call has left the arrays.
unfoldable pub run_pages : (mmap : ℕ → ℕ) → List Call → State → Option State
unfolding alloc dealloc
run_pages mmap [] s = some s
run_pages mmap (alloc_call req_len ∷ calls) s = run_pages mmap calls (alloc mmap req_len s).1
run_pages mmap (dealloc_call ptr ∷ calls) s = dealloc ptr s >>= λ s'. run_pages mmap calls s'

module _ {mmap : ℕ → ℕ} (nonnull : IsNonnull mmap) where
  run_pages-IsReady :
      (calls : List Call) (s : State) {s' : State}
      → IsReady mmap s
      → run_pages mmap calls s ≡ some s'
      → IsReady mmap s'
  unfolding run_pages
  run_pages-IsReady [] s {s'} r e = subst (IsReady mmap) {x = s} {y = s'} (cc) r
  run_pages-IsReady (alloc_call req_len ∷ calls) s r e =
      run_pages-IsReady calls (alloc mmap req_len s).1 (alloc-IsReady nonnull req_len s r) e
  run_pages-IsReady (dealloc_call ptr ∷ calls) s r e =
      let (s₁, step, rest) = >>=-eq-some (dealloc ptr s) (run_pages mmap calls) e in
      run_pages-IsReady calls s₁ (dealloc-IsReady ptr s r step) rest

  run_pages-IsUnclaimed :
      (calls : List Call) (s : State) {s' : State}
      → IsReady mmap s
      → IsUnclaimed s
      → run_pages mmap calls s ≡ some s'
      → IsUnclaimed s'
  unfolding run_pages
  run_pages-IsUnclaimed [] s {s'} r un e = subst IsUnclaimed {x = s} {y = s'} (cc) un
  run_pages-IsUnclaimed (alloc_call req_len ∷ calls) s r un e =
      run_pages-IsUnclaimed calls (alloc mmap req_len s).1 (alloc-IsReady nonnull req_len s r)
        (alloc-IsUnclaimed nonnull req_len s r un) e
  run_pages-IsUnclaimed (dealloc_call ptr ∷ calls) s r un e =
      let (s₁, step, rest) = >>=-eq-some (dealloc ptr s) (run_pages mmap calls) e in
      run_pages-IsUnclaimed calls s₁ (dealloc-IsReady ptr s r step)
        (dealloc-IsUnclaimed ptr s step un) rest

  -- After `init_alloc` and any calls, with any pointers, if mmap does not return NULL: the base pointers are those
  -- that mmap has returned, in order, and NULL behind them; every allocation stands on a page with such a base
  -- pointer and lies on it, its blocks are marked as used, and none of them belongs to another allocation.
  pub run_pages_disjoint :
      (s₀ : State) (calls : List Call) {s : State}
      → run_pages mmap calls (init_alloc s₀) ≡ some s
      → (j : ℕ) → j < pages
      → (s.base_ptr j ≡ (if ltb j s.mmap_calls then mmap j else 0))
        × ((t k : ℕ)
            → t < blocks
            → Owns (s.page j) t k
            → (j < s.mmap_calls)
              × (k < blocks)
              × ((s.page j).is_free k ≢ 1)
              × ((u : ℕ) → u < blocks → Owns (s.page j) u k → t ≡ u))
  run_pages_disjoint s₀ calls {s} e j on_page = (
    elim (Bool-cases (ltb j s.mmap_calls)) [
      | inl used ↦ rw used (r.mapped j (ltb→lt _ _ used))
      | inr new ↦ rw new (r.unmapped j (ltb→le _ _ new) on_page)
    ],
    λ t k h o. (
      claimed t k h o,
      omega (arith, v.fits t h),
      v.used t k h o,
      λ u hu ou. v.apart t u k h hu o ou,
    ),
  )
    where
      r : IsReady mmap s
      r = run_pages-IsReady calls (init_alloc s₀) (init_alloc-IsReady s₀) e

      un : IsUnclaimed s
      un =
          run_pages-IsUnclaimed calls (init_alloc s₀) (init_alloc-IsReady s₀)
            (init_alloc-IsUnclaimed s₀) e

      v : IsValid blocks (s.page j)
      v = r.valid j on_page

      claimed : (t k : ℕ) → t < blocks → Owns (s.page j) t k → j < s.mmap_calls
      claimed t k h o = elim (dec_lt j s.mmap_calls) [
        | yes used ↦ used
        | no new ↦ absurd (un j (omega arith) on_page t k h o)
      ]
