-- ===== src/Malloc/Page/Run.antt =====
-- Runs of free blocks, and that the inner loop of the search measures one.
use os_modules.Prelude.{
  ℕ, zero, suc, ◌+◌, ◌-◌, ◌≤◌, ◌<◌, ◌≡◌, ◌≢◌, ◌⊎◌, inl, inr, ◌==◌, arith, Bool-cases, ℕ_discrete,
  dec_lt, ==→eq, ==→ne,
}
use native.Mathlib.Nat.{add-zero}
use os_modules.Prelude.Array.{Array}
use os_modules.Prelude.Int.{ℤ, pos, pos_part, pos_part_le, ◌≤ℤ◌}
use os_modules.Malloc.Page.{free_len}

module _ (blocks : ℕ) (f : Array ℕ) where
  -- The `n` blocks from `a` on are on the page, and free.
  pub record IsFreeInterval (a n : ℕ) : Type 0 where
    pub fits : a + n ≤ blocks
    pub free : (k : ℕ) → a ≤ k → k < a + n → f k ≡ 1

  -- A longest interval of free blocks, with a used block or the page's end on each side.
  pub record IsRun (a n : ℕ) : Type 0 where
    pub nonempty : 0 < n
    pub interval : IsFreeInterval a n
    pub left : (k : ℕ) → suc k ≡ a → f k ≢ 1
    pub right : a + n < blocks → f (a + n) ≢ 1

  -- No free run crosses into block `i`.
  abbrev pub Edge : ℕ → Type 0
  Edge i = ((k : ℕ) → suc k ≡ i → f k ≢ 1) ⊎ (i < blocks → f i ≢ 1)

  record Counted (i left len : ℕ) : Type 0 where
    within : len ≤ left
    free : (k : ℕ) → i ≤ k → k < i + len → f k ≡ 1
    stop : len < left → f (i + len) ≢ 1

  Counted-suc :
      (left i len : ℕ) → f i ≡ 1 → Counted (i + 1) left len → Counted i (suc left) (suc len)
  Counted-suc left i len e c = record {
    within = omega arith;
    free = λ k lo hi. elim (ℕ_discrete k i) [
      | yes here ↦ rw here e
      | no past ↦ c.free k (omega arith) (omega arith)
    ];
    stop = λ h. let at : i + suc len ≡ i + 1 + len = omega arith in rw at (c.stop (omega arith));
  }

  free_len-Counted : (left i : ℕ) → Counted i left (free_len f left i)
  unfolding free_len
  free_len-Counted zero i = record {
    within = omega arith;
    free = λ k lo hi. absurd (omega arith);
    stop = λ h. absurd (omega arith);
  }
  free_len-Counted (suc left) i = elim (Bool-cases (f i == 1)) [
    | inl e ↦ rw e (Counted-suc left i _ (==→eq _ _ e) (free_len-Counted left (i + 1)))
    | inr e ↦ rw e (record {
      within = omega arith;
      free = λ k lo hi. absurd (omega arith);
      stop = λ h. rw add-zero (==→ne _ _ e);
    })
  ]

  free_len_pos : (left i : ℕ) → 0 < left → f i ≡ 1 → 0 < free_len f left i
  unfolding free_len
  free_len_pos zero i h e = h
  free_len_pos (suc left) i h e = ground arith

  pub interval_in_run :
      {i len a n : ℕ} → IsRun i len → IsFreeInterval a n → i ≤ a → a < i + len → a + n ≤ i + len
  interval_in_run {i} {len} {a} {n} r v lo hi = elim (dec_lt (i + len) (a + n)) [
    | yes over ↦
        absurd (r.right (omega (arith, v.fits)) (v.free (i + len) (omega arith) (omega arith)))
    | no inside ↦ omega arith
  ]

  pub same_run :
      {i len s n : ℕ} → IsRun i len → IsRun s n → i ≤ s → s < i + len → (s ≡ i) × (n ≡ len)
  same_run {i} {len} {s} {n} r q lo hi = elim (ℕ_discrete s i) [
    | yes here ↦ (
      here,
      omega (
        arith,
        interval_in_run r q.interval lo hi,
        interval_in_run q r.interval (omega arith) (omega (arith, q.nonempty)),
      ),
    )
    | no past ↦
        absurd (q.left (s - 1) (omega arith) (r.interval.free (s - 1) (omega arith) (omega arith)))
  ]

  pub free_len-IsRun : (i : ℕ) → i < blocks → Edge i → f i ≡ 1 → IsRun i (free_len f (blocks - i) i)
  free_len-IsRun i lt edge e = record {
    nonempty = free_len_pos (blocks - i) i (omega arith) e;
    interval = record { fits = omega (arith, c.within); free = c.free };
    left = ground (arith, edge);
    right = λ h. c.stop (omega arith);
  }
    where
      c : Counted i (blocks - i) (free_len f (blocks - i) i)
      c = free_len-Counted (blocks - i) i

  pub Edge-used : (i : ℕ) → f i ≢ 1 → Edge (i + 1)
  Edge-used i u = inl λ k e. let at : k ≡ i = omega arith in rw at u

module _ {blocks : ℕ} {f : Array ℕ} {start len : ℕ} (r : IsRun blocks f start len) where
  pub run_inside : start < blocks
  run_inside = omega (arith, r.interval.fits, r.nonempty)

  pub run_here : f start ≡ 1
  run_here = r.interval.free start (omega arith) (omega (arith, r.nonempty))

  -- The blocks at the start of a run that a request takes.
  pub run_prefix : (req : ℤ) → req ≤ℤ pos len → IsFreeInterval blocks f start (pos_part req)
  run_prefix req enough = record {
    fits = omega (arith, r.interval.fits, pos_part_le req len enough);
    free = λ k lo hi. r.interval.free k lo (omega (arith, pos_part_le req len enough));
  }
