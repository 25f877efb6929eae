-- ===== src/Malloc/Ealloc/Ready.antt =====
-- The invariant of ealloc.c: every page is valid, and the pages in use are mapped in order.
use os_modules.Prelude.{
  ℕ, zero, suc, ◌+◌, ◌≤◌, ◌<◌, ◌≡◌, ◌≢◌, refl, sym, ap, ◌∙◌, inl, inr, ◌==◌, arith, Bool-cases,
  ==→eq, ==→ne, dec_lt,
}
use os_modules.Prelude.Array.{Array, update_at, fill_in}
use os_modules.Malloc.Page.{Page, fresh}
use os_modules.Malloc.Page.Valid.{IsValid, fresh-IsValid}
use os_modules.Malloc.Ealloc.{State, blocks, pages, fresh_pages, init_alloc, demand}

-- What the code relies on of mmap: it never returns NULL, and no failure.
abbrev pub IsNonnull : (ℕ → ℕ) → Type 0
IsNonnull mmap = (j : ℕ) → mmap j ≢ 0

pub record IsReady (mmap : ℕ → ℕ) (s : State) : Type 0 where
  pub valid : (j : ℕ) → j < pages → IsValid blocks (s.page j)
  pub mapped : (j : ℕ) → j < s.mmap_calls → s.base_ptr j ≡ mmap j
  pub unmapped : (j : ℕ) → s.mmap_calls ≤ j → j < pages → s.base_ptr j ≡ 0

-- What `fresh` makes true of a page, fresh_pages makes true of all of them.
pub fresh_pages-all :
    (P : Page → Type 0)
    → ((p : Page) → P (fresh blocks p))
    → (left i : ℕ) (a : Array Page) (j : ℕ) → ((k : ℕ) → k < i → P (a k))
    → j < i + left
    → P (fresh_pages left i a j)
unfolding fresh_pages
fresh_pages-all P new zero i a j done h = done j (omega arith)
fresh_pages-all P new (suc left) i a j done h =
    fresh_pages-all P new left (i + 1) _ j
      (λ k lt. update_at P a i k (λ e. new (a i)) (λ ne. done k (omega arith))) (omega arith)

module _ {mmap : ℕ → ℕ} where
  -- `init_alloc` makes every page valid and leaves all of them unmapped.
  pub init_alloc-IsReady : (s : State) → IsReady mmap (init_alloc s)
  unfolding init_alloc
  init_alloc-IsReady s = record {
    valid = λ j h.
        fresh_pages-all (IsValid blocks) (fresh-IsValid blocks) pages 0 s.page j
          (λ k lt. elim lt [ ]) h;
    mapped = λ j h. elim h [ ];
    unmapped = λ j lo hi. fill_in s.base_ptr 0 pages 0 j (omega arith) hi;
  }

  next_page :
      (s : State) (page : ℕ)
      → IsNonnull mmap
      → IsReady mmap s
      → page ≤ s.mmap_calls
      → s.base_ptr page ≡ 0
      → page ≡ s.mmap_calls
  next_page s page nonnull ready le null = elim (dec_lt page s.mmap_calls) [
    | yes earlier ↦ absurd (nonnull page (sym (ready.mapped page earlier) ∙ null))
    | no here ↦ omega arith
  ]

  mapped_page :
      (s : State) (page : ℕ)
      → IsReady mmap s
      → page ≤ s.mmap_calls
      → page < pages
      → s.base_ptr page ≢ 0
      → page < s.mmap_calls
  mapped_page s page ready le lt mapped = elim (dec_lt page s.mmap_calls) [
    | yes earlier ↦ earlier
    | no here ↦ absurd (mapped (ready.unmapped page (omega arith) lt))
  ]

  -- `demand` at the next page or an earlier one.
  pub demand_lem :
      (s : State) (page : ℕ)
      → IsNonnull mmap
      → IsReady mmap s
      → page ≤ s.mmap_calls
      → page < pages
      → IsReady mmap (demand mmap page s)
        × (page < (demand mmap page s).mmap_calls)
        × ((demand mmap page s).page ≡ s.page)
  unfolding demand
  demand_lem s page nonnull ready le lt = elim (Bool-cases (s.base_ptr page == 0)) [
    | inl new ↦
        let at : page ≡ s.mmap_calls = next_page s page nonnull ready le (==→eq _ _ new) in
        rw new (
          record {
            valid = ready.valid;
            mapped = λ j h.
                update_at (λ b. b ≡ mmap j) s.base_ptr page j (λ e. ap mmap (omega arith))
                  (λ ne. ready.mapped j (omega arith));
            unmapped = λ j lo hi.
                update_at (λ b. b ≡ 0) s.base_ptr page j (λ e. absurd (omega arith))
                  (λ ne. ready.unmapped j (omega arith) hi);
          },
          omega arith,
          refl,
        )
    | inr old ↦ rw old (ready, mapped_page s page ready le lt (==→ne _ _ old), refl)
  ]
