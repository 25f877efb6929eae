-- ===== src/Malloc/Ealloc/Unclaimed.antt =====
-- ealloc.c: a page that is not mapped has no allocations.
use mathlib.Core.Path.{subst}
use os_modules.Prelude.{
  ℕ, zero, suc, ◌+◌, ◌≤◌, ◌<◌, ◌≡◌, sym, Option, none, some, inl, inr, arith, >>=-eq-some,
  Bool-cases,
}
use os_modules.Prelude.Array.{update_at, update_ne, fill_in}
use os_modules.Prelude.Int.{ℤ, pos, div_ℤ, mod_ℤ, eqb_ℤ, eqb_ℤ→eq}
use os_modules.Malloc.Page.{Page, fresh, claim, release}
use os_modules.Malloc.Page.Valid.{Owns, blocks_at-release}
use os_modules.Malloc.Ealloc.{
  State, blocks, pages, min_alloc, init_alloc, demand, get_free_start_idx, place, search_pages,
  alloc, dealloc, find_page, free_at,
}
use os_modules.Malloc.Ealloc.Ready.{IsNonnull, IsReady, fresh_pages-all}
use os_modules.Malloc.Ealloc.Granted.{Outcome}
use os_modules.Malloc.Ealloc.Alloc.{request, alloc_aligned, alloc_refused}

-- No allocation starts on the page.
abbrev IsEmpty : Page → Type 0
IsEmpty p = (t k : ℕ) → t < blocks → ¬ (Owns p t k)

abbrev pub IsUnclaimed : State → Type 0
IsUnclaimed s = (j : ℕ) → s.mmap_calls ≤ j → j < pages → IsEmpty (s.page j)

fresh-IsEmpty : (p : Page) → IsEmpty (fresh blocks p)
unfolding fresh
fresh-IsEmpty p t k h o =
    ground (arith, fill_in p.alloc_blocks_len 0 blocks (pos 0) t (omega arith) h)

pub init_alloc-IsUnclaimed : (s : State) → IsUnclaimed (init_alloc s)
unfolding init_alloc
init_alloc-IsUnclaimed s j lo h =
    fresh_pages-all IsEmpty fresh-IsEmpty pages 0 s.page j (λ k lt. elim lt [ ]) h

module _ (mmap : ℕ → ℕ) where
  demand-calls : (page : ℕ) (s : State) → s.mmap_calls ≤ (demand mmap page s).mmap_calls
  unfolding demand
  demand-calls page s = ground arith

  place-calls :
      (found : Option ℕ) (req : ℤ) (page : ℕ) (s : State) (rest : Option ℕ × State)
      → s.mmap_calls ≤ rest.1.mmap_calls
      → s.mmap_calls ≤ (place found req page s rest).1.mmap_calls
  unfolding place
  place-calls none req page s rest h = h
  place-calls (some start) req page s rest h = omega arith

  search_pages-calls :
      (req : ℤ) (left page : ℕ) (s : State)
      → s.mmap_calls ≤ (search_pages mmap req left page s).1.mmap_calls
  unfolding search_pages
  search_pages-calls req zero page s = omega arith
  search_pages-calls req (suc left) page s =
      let s₁ : State = demand mmap page s in
      omega (
        arith,
        demand-calls page s,
        place-calls (get_free_start_idx s₁ page req) req page s₁
            (search_pages mmap req left (page + 1) s₁) (search_pages-calls req left (page + 1) s₁),
      )

  alloc-calls : (req_len : ℤ) (s : State) → s.mmap_calls ≤ (alloc mmap req_len s).1.mmap_calls
  unfolding alloc
  alloc-calls req_len s = elim (Bool-cases (eqb_ℤ (mod_ℤ req_len min_alloc) (pos 0))) [
    | inl even ↦ rw even (search_pages-calls (div_ℤ req_len min_alloc) pages 0 s)
    | inr odd ↦ rw odd (omega arith)
  ]

module _ {mmap : ℕ → ℕ} (nonnull : IsNonnull mmap) (req_len : ℤ) (s : State) where
  outcome-IsUnclaimed :
      (r : Option ℕ × State)
      → Outcome nonnull (request req_len) s.page r
      → s.mmap_calls ≤ r.1.mmap_calls
      → IsUnclaimed s
      → IsUnclaimed r.1
  outcome-IsUnclaimed r (inl g, ready) more un j lo h =
      rw
        (
          g.after,
          update_ne s.page g.page j (claim (s.page g.page) g.start (request req_len))
              (λ e. omega (arith, g.mapped)),
        )
        (un j (omega arith) h)
  outcome-IsUnclaimed r (inr n, ready) more un j lo h = rw n.same (un j (omega arith) h)

  pub alloc-IsUnclaimed : IsReady mmap s → IsUnclaimed s → IsUnclaimed (alloc mmap req_len s).1
  alloc-IsUnclaimed ready un = elim (Bool-cases (eqb_ℤ (mod_ℤ req_len min_alloc) (pos 0))) [
    | inl even ↦
        outcome-IsUnclaimed (alloc mmap req_len s)
          (alloc_aligned nonnull req_len s (eqb_ℤ→eq _ _ even) ready) (alloc-calls mmap req_len s)
          un
    | inr odd ↦ rw (alloc_refused nonnull req_len s odd) un
  ]

release-IsEmpty : (p : Page) (idx : ℕ) → IsEmpty p → IsEmpty (release p idx)
release-IsEmpty p idx empty t k h o = empty t k h (ground (arith, blocks_at-release p idx t))

free_at-IsUnclaimed : (at : ℕ × ℕ) (s : State) → IsUnclaimed s → IsUnclaimed (free_at at s)
unfolding free_at
free_at-IsUnclaimed (page, idx) s un j lo h =
    update_at IsEmpty s.page page j
      (λ at.
        release-IsEmpty (s.page page) idx (subst (λ j. IsEmpty (s.page j)) (sym at) (un j lo h)))
      (λ ne. un j lo h)

pub dealloc-IsUnclaimed :
    (ptr : ℕ) (s : State) {s' : State} → dealloc ptr s ≡ some s' → IsUnclaimed s → IsUnclaimed s'
unfolding dealloc
dealloc-IsUnclaimed ptr s {s'} e un =
    let (at, hits, after) = >>=-eq-some (find_page ptr s.base_ptr pages 0) _ e in
    subst IsUnclaimed {x = free_at at s} {y = s'} (cc) (free_at-IsUnclaimed at s un)
