-- ===== src/Malloc/Alloc/Granted.antt =====
-- What `alloc` returns, and when it returns NULL.
use os_modules.Prelude.{
  ℕ, ◌+◌, ◌*◌, ◌≤◌, ◌<◌, ◌≡◌, ◌≢◌, ◌⊎◌, ◌↔◌, inl, inr, Option, none, some, false, arith, Bool-cases,
  Option-cases,
}
use os_modules.Prelude.Int.{ℤ, pos, div_ℤ, mod_ℤ, eqb_ℤ, eqb_ℤ→eq, eqb_ℤ→ne, ◌≤ℤ◌}
use os_modules.Malloc.Page.{best_fit, claim}
use os_modules.Malloc.Page.Run.{IsFreeInterval, IsRun}
use os_modules.Malloc.Page.Fit.{best_fit_least, best_fit_complete}
use os_modules.Malloc.Alloc.{State, blocks, min_alloc, alloc, place}

-- A pointer that `alloc` may return for `req_blocks` blocks: where it points, and that the shortest
-- run of free blocks that is long enough starts there.
pub record Granted (s : State) (req_blocks : ℤ) (ptr : ℕ) : Type 0 where
  pub start : ℕ
  pub address : ptr ≡ s.base_ptr + start * min_alloc
  pub len : ℕ
  pub run : IsRun blocks s.page.is_free start len
  pub enough : req_blocks ≤ℤ pos len
  pub least : (t n : ℕ) → IsRun blocks s.page.is_free t n → req_blocks ≤ℤ pos n → len ≤ n

module _ (req_len : ℤ) (s : State) where
  abbrev pub req : ℤ
  req = div_ℤ req_len min_alloc

  alloc_aligned :
      mod_ℤ req_len min_alloc ≡ pos 0
      → alloc req_len s ≡ place (best_fit blocks s.page.is_free req) req s
  unfolding alloc
  alloc_aligned e = rw e

  alloc_refused : (eqb_ℤ (mod_ℤ req_len min_alloc) (pos 0)) ≡ false → alloc req_len s ≡ (none, s)
  unfolding alloc
  alloc_refused e = rw e

  abbrev granted : ℕ → Option ℕ × State
  granted start =
      (some (s.base_ptr + start * min_alloc), record s { page = claim s.page start req })

  alloc_full :
      mod_ℤ req_len min_alloc ≡ pos 0
      → best_fit blocks s.page.is_free req ≡ none
      → alloc req_len s ≡ (none, s)
  unfolding place
  alloc_full even full = rw (alloc_aligned even, full)

  alloc_found :
      mod_ℤ req_len min_alloc ≡ pos 0
      → {start : ℕ} → best_fit blocks s.page.is_free req ≡ some start
      → alloc req_len s ≡ granted start
  unfolding place
  alloc_found even found = rw (alloc_aligned even, found)

  -- `alloc` returns a pointer only for a multiple of MINALLOC, and then to the shortest run of free
  -- blocks that is long enough; it records the allocation there and nothing else.
  pub alloc-Granted :
      {ptr : ℕ} {s' : State}
      → alloc req_len s ≡ (some ptr, s')
      → (mod_ℤ req_len min_alloc ≡ pos 0)
        × (g : Granted s req ptr) × (s' ≡ record s { page = claim s.page g.start req })
  alloc-Granted {ptr} {s'} e = elim (Bool-cases (eqb_ℤ (mod_ℤ req_len min_alloc) (pos 0))) [
    | inr odd ↦ absurd (cc (e, alloc_refused odd))
    | inl even ↦ elim (Option-cases (best_fit blocks s.page.is_free req)) [
      | inl full ↦ absurd (cc (e, alloc_full (eqb_ℤ→eq _ _ even) full))
      | inr (start, found) ↦
          let at : alloc req_len s ≡ granted start = alloc_found (eqb_ℤ→eq _ _ even) found in
          let (len, run, enough, least) =
            best_fit_least blocks s.page.is_free req (omega arith) found in
          (
            eqb_ℤ→eq _ _ even,
            record {
              start = start;
              address = cc;
              len = len;
              run = run;
              enough = enough;
              least = least;
            },
            cc,
          )
    ]
  ]

  pub alloc-cases :
      (alloc req_len s ≡ (none, s))
      ⊎ ((ptr : ℕ) × (s' : State) × (alloc req_len s ≡ (some ptr, s')))
  alloc-cases = elim (Bool-cases (eqb_ℤ (mod_ℤ req_len min_alloc) (pos 0))) [
    | inr odd ↦ inl (alloc_refused odd)
    | inl even ↦ elim (Option-cases (best_fit blocks s.page.is_free req)) [
      | inl full ↦ inl (alloc_full (eqb_ℤ→eq _ _ even) full)
      | inr (start, found) ↦ inr (_, _, alloc_found (eqb_ℤ→eq _ _ even) found)
    ]
  ]

  -- No interval of free blocks holds the request.
  abbrev pub NoRoom : Type 0
  NoRoom = (a n : ℕ) → IsFreeInterval blocks s.page.is_free a n → 0 < n → ¬ (req ≤ℤ pos n)

  no_case :
      (mod_ℤ req_len min_alloc ≢ pos 0) ⊎ NoRoom
      → mod_ℤ req_len min_alloc ≡ pos 0
      → {a n : ℕ} → IsFreeInterval blocks s.page.is_free a n
      → 0 < n
      → ¬ (req ≤ℤ pos n)
  no_case (inl odd) even v p = absurd (odd even)
  no_case (inr no_room) even v p = no_room _ _ v p

  -- `alloc` returns NULL exactly if the length is no multiple of MINALLOC, or no interval of free
  -- blocks holds the request.
  pub alloc-null_iff : ((alloc req_len s).0 ≡ none) ↔ ((mod_ℤ req_len min_alloc ≢ pos 0) ⊎ NoRoom)
  alloc-null_iff = (to, from)
    where
      to : (alloc req_len s).0 ≡ none → (mod_ℤ req_len min_alloc ≢ pos 0) ⊎ NoRoom
      to e = elim (Bool-cases (eqb_ℤ (mod_ℤ req_len min_alloc) (pos 0))) [
        | inr odd ↦ inl (eqb_ℤ→ne _ _ odd)
        | inl even ↦ elim (Option-cases (best_fit blocks s.page.is_free req)) [
          | inl full ↦
              inr λ a n v p q.
                best_fit_complete blocks s.page.is_free req (omega arith) a n v p q full
          | inr (start, found) ↦ absurd (cc (e, alloc_found (eqb_ℤ→eq _ _ even) found))
        ]
      ]

      from : (mod_ℤ req_len min_alloc ≢ pos 0) ⊎ NoRoom → (alloc req_len s).0 ≡ none
      from h = elim (Bool-cases (eqb_ℤ (mod_ℤ req_len min_alloc) (pos 0))) [
        | inr odd ↦ rw (alloc_refused odd)
        | inl even ↦ elim (Option-cases (best_fit blocks s.page.is_free req)) [
          | inl full ↦ rw (alloc_full (eqb_ℤ→eq _ _ even) full)
          | inr (start, found) ↦
              let (len, run, enough, _) =
                best_fit_least blocks s.page.is_free req (omega arith) found in
              absurd (no_case h (eqb_ℤ→eq _ _ even) run.interval run.nonempty enough)
        ]
      ]
