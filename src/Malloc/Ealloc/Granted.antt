-- ===== src/Malloc/Ealloc/Granted.antt =====
-- What `alloc` of ealloc.c returns: the first page with room, and on it the best fit.
use os_modules.Prelude.{
  ℕ, zero, suc, ◌+◌, ◌*◌, ◌≤◌, ◌<◌, ◌≡◌, ◌⊎◌, refl, ap, inl, inr, Option, none, some, arith,
  Option-cases, dec_lt,
}
use mathlib.Core.Path.{subst}
use os_modules.Prelude.Array.{Array, update, update_at}
use os_modules.Prelude.Int.{ℤ, pos, ◌≤ℤ◌}
use os_modules.Malloc.Page.{Page, claim}
use os_modules.Malloc.Page.Run.{IsFreeInterval, IsRun}
use os_modules.Malloc.Page.Fit.{best_fit_least, best_fit_complete}
use os_modules.Malloc.Page.Valid.{IsValid, claim_run}
use os_modules.Malloc.Ealloc.{
  State, blocks, pages, min_alloc, demand, get_free_start_idx, place, search_pages,
}
use os_modules.Malloc.Ealloc.Ready.{IsNonnull, IsReady, demand_lem}

-- No interval of free blocks on the page holds the request.
abbrev pub NoRoom : Page → ℤ → Type 0
NoRoom p req = (a n : ℕ) → IsFreeInterval blocks p.is_free a n → 0 < n → ¬ (req ≤ℤ pos n)

module _ (mmap : ℕ → ℕ) (a : Array Page) (req : ℤ) where
  -- The result `r` of a search over the pages `a`, where it finds room: the first page with any, and
  -- the shortest run on it that is long enough.
  pub record Granted (r : Option ℕ × State) : Type 0 where
    pub page : ℕ
    pub start : ℕ
    pub len : ℕ
    pub on_page : page < pages
    pub address : r.0 ≡ some (mmap page + start * min_alloc)
    pub run : IsRun blocks (a page).is_free start len
    pub enough : req ≤ℤ pos len
    pub least : (t n : ℕ) → IsRun blocks (a page).is_free t n → req ≤ℤ pos n → len ≤ n
    pub earlier : (j : ℕ) → j < page → NoRoom (a j) req
    pub after : r.1.page ≡ update a page (claim (a page) start req)
    pub mapped : page < r.1.mmap_calls

  -- The result where it finds none.
  pub record Null (r : Option ℕ × State) : Type 0 where
    pub null : r.0 ≡ none
    pub full : (j : ℕ) → j < pages → NoRoom (a j) req
    pub same : r.1.page ≡ a

module _ {mmap : ℕ → ℕ} (nonnull : IsNonnull mmap) (req : ℤ) where
  -- A round that finds room on the page.
  place_here :
      (s : State) (page start : ℕ) (rest : Option ℕ × State)
      → IsReady mmap s
      → page < pages
      → page < s.mmap_calls
      → get_free_start_idx s page req ≡ some start
      → ((j : ℕ) → j < page → NoRoom (s.page j) req)
      → Granted mmap s.page req (place (some start) req page s rest)
        × IsReady mmap (place (some start) req page s rest).1
  unfolding place get_free_start_idx
  place_here s page start rest ready lt mapped found earlier =
      let (len, run, enough, least) =
        best_fit_least blocks (s.page page).is_free req (omega arith) found in
      (
        record {
          page = page;
          start = start;
          len = len;
          on_page = lt;
          address = ap (λ b. some (b + start * min_alloc)) (ready.mapped page mapped);
          run = run;
          enough = enough;
          least = least;
          earlier = earlier;
          after = refl;
          mapped = mapped;
        },
        record {
          valid = λ j h.
              update_at (IsValid blocks) s.page page j
                (λ e. claim_run (ready.valid page lt) req run enough) (λ ne. ready.valid j h);
          mapped = ready.mapped;
          unmapped = ready.unmapped;
        },
      )

  place-none : (s : State) (page : ℕ) (rest : Option ℕ × State) → place none req page s rest ≡ rest
  unfolding place
  place-none s page rest = refl

  full_page :
      (s : State) (page : ℕ) → get_free_start_idx s page req ≡ none → NoRoom (s.page page) req
  unfolding get_free_start_idx
  full_page s page full a n v p q =
      best_fit_complete blocks (s.page page).is_free req (omega arith) a n v p q full

  search_pages-zero : (page : ℕ) (s : State) → search_pages mmap req zero page s ≡ (none, s)
  unfolding search_pages
  search_pages-zero page s = refl

  abbrev pub Outcome : Array Page → Option ℕ × State → Type 0
  Outcome a r = (Granted mmap a req r ⊎ Null mmap a req r) × IsReady mmap r.1

  -- A round, from the state in which the page is mapped and from what the later rounds return.
  round :
      (s : State) (page : ℕ) (rest : Option ℕ × State)
      → IsReady mmap s
      → page < pages
      → page < s.mmap_calls
      → ((j : ℕ) → j < page → NoRoom (s.page j) req)
      → (((j : ℕ) → j < page + 1 → NoRoom (s.page j) req) → Outcome s.page rest)
      → Outcome s.page (place (get_free_start_idx s page req) req page s rest)
  round s page rest ready lt mapped earlier later =
      elim (Option-cases (get_free_start_idx s page req)) [
        | inr (start, found) ↦
            let (g, ready') = place_here s page start rest ready lt mapped found earlier in
            rw found (inl g, ready')
        | inl full ↦
            rw (full, place-none s page rest)
              (later λ j h. elim (dec_lt j page) [
                | yes before ↦ earlier j before
                | no here ↦ let at : page ≡ j = omega arith in rw (← at) (full_page s page full)
              ])
      ]

  search_pages-suc :
      (left page : ℕ) (s : State)
      → let s₁ = demand mmap page s in
        search_pages mmap req (suc left) page s
        ≡ place
            (get_free_start_idx s₁ page req)
            req
            page
            s₁
            (search_pages mmap req left (page + 1) s₁)
  unfolding search_pages
  search_pages-suc left page s = refl

  pub search_pages_lem :
      (left page : ℕ) (s : State)
      → page + left ≡ pages
      → IsReady mmap s
      → page ≤ s.mmap_calls
      → ((j : ℕ) → j < page → NoRoom (s.page j) req)
      → Outcome s.page (search_pages mmap req left page s)
  search_pages_lem zero page s total ready le earlier =
      rw (search_pages-zero page s)
        (inr (record { null = refl; full = λ j h. earlier j (omega arith); same = refl }), ready)
  search_pages_lem (suc left) page s total ready le earlier =
      let s₁ : State = demand mmap page s in
      let (ready₁, mapped, same) = demand_lem s page nonnull ready le (omega arith) in
      let earlier₁ : (j : ℕ) → j < page → NoRoom (s₁.page j) req = λ j h. rw same (earlier j h) in
      subst (λ a. Outcome a (search_pages mmap req (suc left) page s)) same
        (rw (search_pages-suc left page s) (
          round s₁ page (search_pages mmap req left (page + 1) s₁) ready₁ (omega arith) mapped
            earlier₁ (search_pages_lem left (page + 1) s₁ (omega arith) ready₁ (omega arith))))
