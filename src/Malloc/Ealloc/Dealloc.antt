-- ===== src/Malloc/Ealloc/Dealloc.antt =====
-- `dealloc` of ealloc.c: which page a pointer is taken to lie on.
use os_modules.Prelude.{
  ℕ, zero, suc, ◌+◌, ◌*◌, ◌^◌, ◌≤◌, ◌<◌, ◌≡◌, ◌≢◌, ◌⊎◌, refl, some, arith, ℕ_discrete, sym,
  >>=-eq-some,
}
use mathlib.Core.Path.{subst}
use os_modules.Prelude.Array.{Array, update, update_at, update_self, update_ne}
use os_modules.Prelude.Int.{ℤ, pos, ◌≤ℤ◌}
use os_modules.Malloc.Page.{Page, release, claim, page_size}
use os_modules.Malloc.Page.Valid.{IsValid, blocks_at, release-IsValid}
use os_modules.Malloc.Ealloc.{State, blocks, pages, min_alloc, find_page, free_at, dealloc, alloc}
use os_modules.Malloc.Ealloc.Ready.{IsNonnull, IsReady}
use os_modules.Malloc.Ealloc.Alloc.{request, alloc-IsReady, alloc-Granted_pages}
use os_modules.Malloc.Page.Run.{IsRun, run_inside, run_here, run_prefix}
use os_modules.Malloc.Page.Owner.{is_free-release-claim, blocks_at-release-claim}
use os_modules.Malloc.Ealloc.Find.{
  block_index_self, hit_other, hit_self, find_page-suc, find_page_bounds, block_index_alias,
}

-- What mmap promises of four mappings of a page (not NULL, no overlap), and that they lie within 1
-- GiB of one another, which `dealloc` relies on where it casts a difference to `int`.
pub record IsNear (mmap : ℕ → ℕ) : Type 0 where
  pub nonnull : IsNonnull mmap
  pub apart :
      (i j : ℕ)
      → i < pages
      → j < pages
      → i ≢ j
      → (mmap i + page_size ≤ mmap j) ⊎ (mmap j + page_size ≤ mmap i)
  pub near : (i j : ℕ) → i < pages → j < pages → mmap i ≤ mmap j + 2 ^ 30

-- Page `q` has the blocks of page `p`, free and used alike, and allocations of the same lengths.
abbrev pub SamePage : Page → Page → Type 0
SamePage p q = (k : ℕ) → (q.is_free k ≡ p.is_free k) × (blocks_at q k ≡ blocks_at p k)

page-free_at :
    (page start : ℕ) (s : State)
    → (free_at (page, start) s).page ≡ update s.page page (release (s.page page) start)
unfolding free_at
page-free_at page start s = refl

free_at_undoes :
    (a : Array Page) (s : State) (page start len : ℕ) (req : ℤ)
    → s.page ≡ update a page (claim (a page) start req)
    → IsValid blocks (a page)
    → IsRun blocks (a page).is_free start len
    → req ≤ℤ pos len
    → (j : ℕ) → SamePage (a j) ((free_at (page, start) s).page j)
free_at_undoes a s page start len req e v r enough j =
    rw (page-free_at, e)
      (update_at (SamePage (a j)) _ page j
        (λ at.
          rw (update_self, ← at)
            λ k. (
              is_free-release-claim v start req (run_inside r) (run_here r)
                  (run_prefix r req enough) k,
              blocks_at-release-claim v start req (run_inside r) (run_here r) k,
            ))
        (λ ne. rw (update_ne a page j (claim (a page) start req) ne) λ k. (refl, refl)))

free_at-IsReady :
    {mmap : ℕ → ℕ} (page start : ℕ) (s : State)
    → page < pages
    → start < blocks
    → IsReady mmap s
    → IsReady mmap (free_at (page, start) s)
unfolding free_at
free_at-IsReady page start s on_page inside ready = record {
  valid = λ j h.
      update_at (IsValid blocks) s.page page j
        (λ e. release-IsValid (ready.valid page on_page) start inside) (λ ne. ready.valid j h);
  mapped = ready.mapped;
  unmapped = ready.unmapped;
}

-- `dealloc` keeps the invariant, for any pointer that lies on one of the pages.
pub dealloc-IsReady :
    {mmap : ℕ → ℕ} (ptr : ℕ) (s : State) {s' : State}
    → IsReady mmap s
    → dealloc ptr s ≡ some s'
    → IsReady mmap s'
unfolding dealloc
dealloc-IsReady {mmap} ptr s {s'} ready e =
    let ((page, start), at, after) = >>=-eq-some (find_page ptr s.base_ptr pages 0) _ e in
    let (on_page, inside) = find_page_bounds ptr s.base_ptr pages 0 refl at in
    subst (IsReady mmap) {x = free_at (page, start) s} {y = s'} (cc)
      (free_at-IsReady page start s on_page inside ready)

module _ {mmap : ℕ → ℕ} (addresses : IsNear mmap) where
  -- The loop of `dealloc` stops at the page of the pointer, if the pages before it are mapped.
  find_page_lem :
      (base : Array ℕ) (left i page start : ℕ)
      → i + left ≡ pages
      → i ≤ page
      → page < pages
      → start < blocks
      → ((j : ℕ) → j ≤ page → base j ≡ mmap j)
      → find_page (mmap page + start * min_alloc) base left i ≡ some (page, start)
  find_page_lem base zero i page start total le lt h mapped = absurd (omega arith)
  find_page_lem base (suc left) i page start total le lt h mapped = elim (ℕ_discrete i page) [
    | yes here ↦
        rw (find_page-suc, mapped i le, here, block_index_self (mmap page) start h)
          (hit_self start page _ h)
    | no before ↦
        rw
          (
            find_page-suc,
            mapped i le,
            hit_other (mmap page) (mmap i) start i _
                (addresses.apart page i lt (omega arith) (λ e. before (sym e)))
                (addresses.near page i lt (omega arith)) (addresses.near i page (omega arith) lt) h,
          )
          (find_page_lem base left (i + 1) page start (omega arith) (omega arith) lt h mapped)
  ]

  dealloc_at :
      (s : State) (page start : ℕ)
      → IsReady mmap s
      → page < s.mmap_calls
      → page < pages
      → start < blocks
      → dealloc (mmap page + start * min_alloc) s ≡ some (free_at (page, start) s)
  unfolding dealloc
  dealloc_at s page start ready mapped lt h = rw (
      find_page_lem s.base_ptr pages 0 page start refl (omega arith) lt h
        (λ j le. ready.mapped j (omega arith)))

  -- `dealloc` of a pointer that `alloc` has just returned undoes that call: on every page every
  -- block is free or used as before, and every allocation has its length. The mappings do not
  -- overlap and lie within 1 GiB.
  pub dealloc-alloc_pages :
      (req_len : ℤ) (s : State) {ptr : ℕ}
      → IsReady mmap s
      → (alloc mmap req_len s).0 ≡ some ptr
      → (s' : State) × (dealloc ptr (alloc mmap req_len s).1 ≡ some s')
        × ((j : ℕ) → SamePage (s.page j) (s'.page j))
  dealloc-alloc_pages req_len s {ptr} ready e =
      let (_, g) = alloc-Granted_pages addresses.nonnull req_len s ready e in
      let s₁ : State = (alloc mmap req_len s).1 in
      let ptr_at : ptr ≡ mmap g.page + g.start * min_alloc = cc (e, g.address) in
      (
        free_at (g.page, g.start) s₁,
        rw ptr_at (
            dealloc_at s₁ g.page g.start (alloc-IsReady addresses.nonnull req_len s ready) g.mapped
              g.on_page (run_inside g.run)),
        free_at_undoes s.page s₁ g.page g.start g.len (request req_len) g.after
            (ready.valid g.page g.on_page) g.run g.enough,
      )

-- Where two pages are mapped a multiple of 4 GiB apart, the cast to `int` loses the difference:
-- `dealloc` of a pointer to a block of the second page frees what starts at that block of the first.
pub dealloc_wrong_page :
    (s : State) (gap start : ℕ)
    → s.base_ptr 1 ≡ s.base_ptr 0 + gap * 2 ^ 32
    → start < blocks
    → dealloc (s.base_ptr 1 + start * min_alloc) s ≡ some (free_at (0, start) s)
unfolding dealloc
dealloc_wrong_page s gap start e h = rw (
  find_page-suc,
  block_index_alias (s.base_ptr 1) (s.base_ptr 0) gap start e h,
  hit_self start 0 _ h,
)
