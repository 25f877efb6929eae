-- ===== src/Malloc/Alloc/Safety.antt =====
-- The invariant of alloc.c, that allocations never overlap, and what `dealloc` gives back.
use os_modules.Prelude.{
  ℕ, ◌+◌, ◌*◌, ◌≤◌, ◌<◌, ◌≡◌, ◌≢◌, ◌⊎◌, refl, none, some, inl, inr, true, false, arith, Bool-cases,
  ltb, ltb→lt, lt→ltb, ◌==◌,
}
use os_modules.Prelude.Int.{ℤ, pos, negsuc, pos_part}
use os_modules.Malloc.Page.{claim, release}
use os_modules.Malloc.Page.Run.{run_inside, run_here, run_prefix}
use os_modules.Malloc.Page.Valid.{
  IsValid, Owns, blocks_at, fresh-IsValid, claim_run, release-IsValid,
}
use os_modules.Malloc.Page.Owner.{
  claim_apart, claim_keeps, claim-Owns, blocks_at-release-claim, is_free-release-claim,
  release_keeps, release_frees, release_spares, release-release,
}
use os_modules.Malloc.Alloc.{
  State, blocks, min_alloc, map_failed, init_alloc, alloc, dealloc, free_at, block_index,
}
use os_modules.Malloc.Alloc.Granted.{alloc-Granted, alloc-cases, req}

-- `init_alloc` leaves the page valid, unless mmap fails.
pub init_alloc-IsValid :
    (mapped : ℕ) (s : State)
    → (init_alloc mapped s).0 ≡ pos 0
    → IsValid blocks (init_alloc mapped s).1.page
unfolding init_alloc
init_alloc-IsValid mapped s e = elim (Bool-cases (mapped == map_failed)) [
  | inl failed ↦ absurd (ground arith)
  | inr ok ↦ rw ok (fresh-IsValid blocks s.page)
]

-- `alloc` keeps the invariant, whatever it returns.
pub alloc-IsValid :
    (req_len : ℤ) (s : State) → IsValid blocks s.page → IsValid blocks (alloc req_len s).1.page
alloc-IsValid req_len s v = elim (alloc-cases req_len s) [
  | inl e ↦ rw e v
  | inr (ptr, s', e) ↦
      let (_, g, after) = alloc-Granted req_len s e in
      rw (e, after) (claim_run v (req req_len s) g.run g.enough)
]

free_at_in :
    (idx : ℕ) (s : State)
    → ltb idx blocks ≡ true
    → free_at (pos idx) s ≡ some (record s { page = release s.page idx })
unfolding free_at
free_at_in idx s e = rw e

free_at_outside : (idx : ℕ) (s : State) → ltb idx blocks ≡ false → free_at (pos idx) s ≡ none
unfolding free_at
free_at_outside idx s e = rw e

-- What `free_at` does where it stays inside the arrays.
free_at_inside :
    (idx : ℤ) (s : State) {s' : State}
    → free_at idx s ≡ some s'
    → (i : ℕ) × (idx ≡ pos i) × (i < blocks) × (s' ≡ record s { page = release s.page i })
unfolding free_at
free_at_inside (pos idx) s e = elim (Bool-cases (ltb idx blocks)) [
  | inl inside ↦ (idx, refl, ltb→lt _ _ inside, cc (e, free_at_in idx s inside))
  | inr outside ↦ absurd (cc (e, free_at_outside idx s outside))
]
free_at_inside (negsuc idx) s e = absurd (cc)

-- `dealloc` keeps the invariant, for any pointer at which it stays inside the arrays.
pub dealloc-IsValid :
    (ptr : ℕ) (s : State) {s' : State}
    → IsValid blocks s.page
    → dealloc ptr s ≡ some s'
    → IsValid blocks s'.page
unfolding dealloc
dealloc-IsValid ptr s v e =
    let (i, _, inside, after) = free_at_inside (block_index ptr s.base_ptr) s e in
    rw after (release-IsValid v i inside)

-- The blocks handed out belonged to no allocation, the new allocation owns them, and those made
-- before keep what they own.
pub alloc_disjoint :
    (req_len : ℤ) (s : State) {ptr : ℕ} {s' : State}
    → IsValid blocks s.page
    → alloc req_len s ≡ (some ptr, s')
    → (start : ℕ) × (ptr ≡ s.base_ptr + start * min_alloc)
      × (start + pos_part (req req_len s) ≤ blocks)
      × ((t k : ℕ)
          → t < blocks
          → Owns s.page t k
          → ((k < start) ⊎ (start + pos_part (req req_len s) ≤ k)) × Owns s'.page t k)
      × ((k : ℕ) → start ≤ k → k < start + pos_part (req req_len s) → Owns s'.page start k)
alloc_disjoint req_len s {s'} v e =
    let (_, g, after) = alloc-Granted req_len s e in
    let inside : g.start < blocks = run_inside g.run in
    let here : s.page.is_free g.start ≡ 1 = run_here g.run in
    (
      g.start,
      g.address,
      (run_prefix g.run (req req_len s) g.enough).fits,
      λ t k h o. (
        claim_apart v g.start (req req_len s) inside here
            (run_prefix g.run (req req_len s) g.enough) t k h o,
        rw after (claim_keeps v g.start (req req_len s) inside here t k o),
      ),
      λ k lo hi. rw after (claim-Owns v g.start (req req_len s) inside here k lo hi),
    )

block_index_lem :
    (base idx : ℕ) → idx < blocks → block_index (base + idx * min_alloc) base ≡ pos idx
unfolding block_index
block_index_lem base idx h = ground arith

dealloc_at :
    (s : State) (idx : ℕ)
    → idx < blocks
    → dealloc (s.base_ptr + idx * min_alloc) s ≡ some (record s { page = release s.page idx })
unfolding dealloc
dealloc_at s idx h = rw (block_index_lem s.base_ptr idx h) (free_at_in idx s (lt→ltb _ _ h))

-- `dealloc` of a pointer that `alloc` has just returned undoes that call: every block is free or
-- used as before, and every allocation has its length.
pub dealloc-alloc :
    (req_len : ℤ) (s : State) {ptr : ℕ} {s' : State}
    → IsValid blocks s.page
    → alloc req_len s ≡ (some ptr, s')
    → (s'' : State) × (dealloc ptr s' ≡ some s'')
      × (s''.base_ptr ≡ s.base_ptr)
      × ((k : ℕ)
          → (s''.page.is_free k ≡ s.page.is_free k) × (blocks_at s''.page k ≡ blocks_at s.page k))
dealloc-alloc req_len s {ptr} {s'} v e =
    let (_, g, after) = alloc-Granted req_len s e in
    let inside : g.start < blocks = run_inside g.run in
    let here : s.page.is_free g.start ≡ 1 = run_here g.run in
    let r : ℤ = req req_len s in
    (
      record s { page = release (claim s.page g.start r) g.start },
      rw (after, g.address)
          (dealloc_at (record s { page = claim s.page g.start r }) g.start inside),
      refl,
      λ k. (
        is_free-release-claim v g.start r inside here (run_prefix g.run (req req_len s) g.enough) k,
        blocks_at-release-claim v g.start r inside here k,
      ),
    )

-- `dealloc` of an allocation's pointer frees the blocks that it owns and no others, and every other
-- allocation keeps what it owns.
pub dealloc_lem :
    (s : State) (idx : ℕ)
    → idx < blocks
    → (s' : State) × (dealloc (s.base_ptr + idx * min_alloc) s ≡ some s')
      × ((k : ℕ) → Owns s.page idx k → s'.page.is_free k ≡ 1)
      × ((k : ℕ) → ¬ (Owns s.page idx k) → s'.page.is_free k ≡ s.page.is_free k)
      × ((t k : ℕ) → idx ≢ t → Owns s.page t k → Owns s'.page t k)
dealloc_lem s idx h = (
  record s { page = release s.page idx },
  dealloc_at s idx h,
  release_frees s.page idx,
  release_spares s.page idx,
  release_keeps s.page idx,
)

-- A second `dealloc` of the same pointer does nothing.
pub dealloc_twice :
    (s : State) (idx : ℕ)
    → idx < blocks
    → let ptr = s.base_ptr + idx * min_alloc in
      (s' s'' : State) × (dealloc ptr s ≡ some s')
      × (dealloc ptr s' ≡ some s'')
      × ((k : ℕ)
          → (s''.page.is_free k ≡ s'.page.is_free k) × (blocks_at s''.page k ≡ blocks_at s'.page k))
dealloc_twice s idx h = (
  record s { page = release s.page idx },
  record s { page = release (release s.page idx) idx },
  dealloc_at s idx h,
  dealloc_at (record s { page = release s.page idx }) idx h,
  release-release s.page idx,
)
