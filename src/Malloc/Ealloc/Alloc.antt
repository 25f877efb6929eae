-- ===== src/Malloc/Ealloc/Alloc.antt =====
-- `alloc` of ealloc.c as a whole.
use os_modules.Prelude.{
  ℕ, ◌<◌, ◌≡◌, ◌≢◌, ◌⊎◌, ◌↔◌, refl, ap, inl, inr, none, some, false, arith, Bool-cases,
  Option-cases,
}
use os_modules.Prelude.Int.{ℤ, pos, div_ℤ, mod_ℤ, eqb_ℤ, eqb_ℤ→eq, eqb_ℤ→ne}
use os_modules.Malloc.Ealloc.{State, pages, min_alloc, alloc}
use os_modules.Malloc.Ealloc.Ready.{IsNonnull, IsReady}
use os_modules.Malloc.Ealloc.Granted.{NoRoom, Granted, Outcome, search_pages_lem}

abbrev pub request : ℤ → ℤ
request req_len = div_ℤ req_len min_alloc

-- No page has an interval of free blocks that holds the request.
abbrev pub IsFull : State → ℤ → Type 0
IsFull s req = (j : ℕ) → j < pages → NoRoom (s.page j) req

module _ {mmap : ℕ → ℕ} (nonnull : IsNonnull mmap) (req_len : ℤ) (s : State) where
  pub alloc_aligned :
      mod_ℤ req_len min_alloc ≡ pos 0
      → IsReady mmap s
      → Outcome nonnull (request req_len) s.page (alloc mmap req_len s)
  unfolding alloc
  alloc_aligned even ready = rw even (
      search_pages_lem nonnull (request req_len) pages 0 s refl ready (omega arith)
        (λ j h. elim h [ ]))

  pub alloc_refused :
      eqb_ℤ (mod_ℤ req_len min_alloc) (pos 0) ≡ false → alloc mmap req_len s ≡ (none, s)
  unfolding alloc
  alloc_refused odd = rw odd

  -- `alloc` keeps the invariant, whatever it returns, if mmap does not return NULL.
  pub alloc-IsReady : IsReady mmap s → IsReady mmap (alloc mmap req_len s).1
  alloc-IsReady ready = elim (Bool-cases (eqb_ℤ (mod_ℤ req_len min_alloc) (pos 0))) [
    | inr odd ↦ rw (alloc_refused odd) ready
    | inl even ↦ (alloc_aligned (eqb_ℤ→eq _ _ even) ready).1
  ]

  -- A pointer that `alloc` returns, for a multiple of MINALLOC only, points to the shortest run of
  -- free blocks that is long enough, on the first page that has one; there the allocation is
  -- recorded, and no other page changes.
  pub alloc-Granted_pages :
      IsReady mmap s
      → {ptr : ℕ} → (alloc mmap req_len s).0 ≡ some ptr
      → (mod_ℤ req_len min_alloc ≡ pos 0)
        × Granted mmap s.page (request req_len) (alloc mmap req_len s)
  alloc-Granted_pages ready e = elim (Bool-cases (eqb_ℤ (mod_ℤ req_len min_alloc) (pos 0))) [
    | inr odd ↦ absurd (cc (e, ap (λ r. r.0) (alloc_refused odd)))
    | inl even ↦ elim (alloc_aligned (eqb_ℤ→eq _ _ even) ready).0 [
      | inl g ↦ (eqb_ℤ→eq _ _ even, g)
      | inr n ↦ absurd (cc (e, n.null))
    ]
  ]

  -- `alloc` returns NULL exactly if the length is no multiple of MINALLOC, or no page has an
  -- interval of free blocks that holds the request.
  pub alloc-null_pages_iff :
      IsReady mmap s
      → ((alloc mmap req_len s).0 ≡ none)
        ↔ ((mod_ℤ req_len min_alloc ≢ pos 0) ⊎ IsFull s (request req_len))
  alloc-null_pages_iff ready = (to, from)
    where
      to :
          (alloc mmap req_len s).0 ≡ none
          → (mod_ℤ req_len min_alloc ≢ pos 0) ⊎ IsFull s (request req_len)
      to e = elim (Bool-cases (eqb_ℤ (mod_ℤ req_len min_alloc) (pos 0))) [
        | inr odd ↦ inl (eqb_ℤ→ne _ _ odd)
        | inl even ↦ elim (alloc_aligned (eqb_ℤ→eq _ _ even) ready).0 [
          | inl g ↦ absurd (cc (e, g.address))
          | inr n ↦ inr n.full
        ]
      ]

      not_full :
          Granted mmap s.page (request req_len) (alloc mmap req_len s)
          → ¬ (IsFull s (request req_len))
      not_full g full = full g.page g.on_page g.start g.len g.run.interval g.run.nonempty g.enough

      from :
          (mod_ℤ req_len min_alloc ≢ pos 0) ⊎ IsFull s (request req_len)
          → (alloc mmap req_len s).0 ≡ none
      from h = elim (Bool-cases (eqb_ℤ (mod_ℤ req_len min_alloc) (pos 0))) [
        | inr odd ↦ rw (alloc_refused odd)
        | inl even ↦ elim (alloc_aligned (eqb_ℤ→eq _ _ even) ready).0 [
          | inr n ↦ n.null
          | inl g ↦ elim h [
            | inl odd ↦ absurd (odd (eqb_ℤ→eq _ _ even))
            | inr full ↦ absurd (not_full g full)
          ]
        ]
      ]

  -- `alloc` returns a pointer, and then the length is a multiple of MINALLOC, and the pointer is that of the
  -- shortest run of free blocks that is long enough, on the first page that has one, where the allocation is
  -- recorded and no other page changes; or it returns NULL, and then the length is no multiple of MINALLOC, or
  -- no page has an interval of free blocks that holds the request.
  pub alloc_pages_lem :
      IsReady mmap s
      → ((mod_ℤ req_len min_alloc ≡ pos 0)
          × Granted mmap s.page (request req_len) (alloc mmap req_len s))
        ⊎ (((alloc mmap req_len s).0 ≡ none)
            × ((mod_ℤ req_len min_alloc ≢ pos 0) ⊎ IsFull s (request req_len)))
  alloc_pages_lem ready = elim (Option-cases (alloc mmap req_len s).0) [
    | inl null ↦ inr (null, (alloc-null_pages_iff ready).0 null)
    | inr (ptr, e) ↦ inl (alloc-Granted_pages ready e)
  ]
