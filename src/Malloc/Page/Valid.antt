-- ===== src/Malloc/Page/Valid.antt =====
-- When the two arrays of a page agree: the allocations that alloc_blocks_len records lie on the
-- page, do not overlap, and cover the used blocks.
use os_modules.Prelude.{
  ℕ, ◌+◌, ◌≤◌, ◌<◌, ◌≡◌, ◌≢◌, inl, inr, ◌==◌, ltb, leb, if◌then◌else◌, arith, ◌&&◌, dec_lt,
  Bool-cases,
}
use os_modules.Prelude.Array.{fill, fill_lem, fill_in}
use os_modules.Prelude.Int.{ℤ, pos, pos_part, ◌≤ℤ◌}
use os_modules.Malloc.Page.{Page, claim, release, fresh}
use os_modules.Malloc.Page.Run.{IsFreeInterval, IsRun, run_inside, run_here, run_prefix}

-- The number of blocks of the allocation that starts at `s`; 0 if none does.
abbrev pub blocks_at : Page → ℕ → ℕ
blocks_at p s = pos_part (p.alloc_blocks_len s)

-- Block `k` belongs to the allocation that starts at `s`.
abbrev pub Owns : Page → ℕ → ℕ → Type 0
Owns p s k = (s ≤ k) × (k < s + blocks_at p s)

pub record IsValid (blocks : ℕ) (p : Page) : Type 0 where
  pub fits : (s : ℕ) → s < blocks → s + blocks_at p s ≤ blocks
  pub used : (s k : ℕ) → s < blocks → Owns p s k → p.is_free k ≢ 1
  pub apart : (s t k : ℕ) → s < blocks → t < blocks → Owns p s k → Owns p t k → s ≡ t
  pub covered : (k : ℕ) → k < blocks → p.is_free k ≢ 1 → (s : ℕ) × Owns p s k

-- `init_alloc` makes a page valid, with every block free.
pub fresh-IsValid : (blocks : ℕ) (p : Page) → IsValid blocks (fresh blocks p)
unfolding fresh
fresh-IsValid blocks p = record {
  fits = λ s h. ground (arith, none_at s);
  used = λ s k h o. ground (arith, none_at s);
  apart = λ s t k hs ht o q. ground (arith, none_at s);
  covered = λ k h u. absurd (u (fill_in p.is_free 0 blocks 1 k (omega arith) (omega arith)));
}
  where
    none_at : (s : ℕ) → s < blocks → fill p.alloc_blocks_len 0 blocks (pos 0) s ≡ pos 0
    none_at s h = fill_in p.alloc_blocks_len 0 blocks (pos 0) s (omega arith) (omega arith)

pub blocks_at-claim :
    (p : Page) (start : ℕ) (req : ℤ) (s : ℕ)
    → blocks_at (claim p start req) s ≡ (if start == s then pos_part req else blocks_at p s)
unfolding claim
blocks_at-claim p start req s = ground arith

pub is_free-claim :
    (p : Page) (start : ℕ) (req : ℤ) (k : ℕ)
    → (claim p start req).is_free k
      ≡ (if leb start k && ltb k (start + pos_part req) then 0 else p.is_free k)
unfolding claim
is_free-claim p start req k = fill_lem p.is_free start (pos_part req) 0 k

pub blocks_at-release :
    (p : Page) (idx s : ℕ) → blocks_at (release p idx) s ≡ (if idx == s then 0 else blocks_at p s)
unfolding release
blocks_at-release p idx s = ground arith

pub is_free-release :
    (p : Page) (idx k : ℕ)
    → (release p idx).is_free k
      ≡ (if leb idx k && ltb k (idx + blocks_at p idx) then 1 else p.is_free k)
unfolding release
is_free-release p idx k = fill_lem p.is_free idx (blocks_at p idx) 1 k

module _ {blocks : ℕ} {p : Page} (v : IsValid blocks p) where
  -- A free block starts no allocation.
  pub none_at_free : {s : ℕ} → s < blocks → p.is_free s ≡ 1 → blocks_at p s ≡ 0
  none_at_free {s} h free = elim (dec_lt 0 (blocks_at p s)) [
    | yes some_blocks ↦ absurd (v.used s s h (omega arith) free)
    | no none ↦ omega arith
  ]

  -- Allocating blocks that are free keeps a page valid.
  pub claim-IsValid :
      (start : ℕ) (req : ℤ)
      → start < blocks
      → p.is_free start ≡ 1
      → IsFreeInterval blocks p.is_free start (pos_part req)
      → IsValid blocks (claim p start req)
  claim-IsValid start req inside here free = record {
    fits = λ s h. ground (arith, blocks_at-claim p start req s, v.fits s, free.fits);
    used = λ s k h o.
        ground (arith, blocks_at-claim p start req s, is_free-claim p start req k, v.used s k);
    apart = λ s t k hs ht o q. ground (
      arith,
      blocks_at-claim p start req s,
      blocks_at-claim p start req t,
      v.apart s t k,
      v.used s k,
      v.used t k,
      free.free k,
    );
    covered = λ k h u. elim (Bool-cases (leb start k && ltb k (start + pos_part req))) [
      | inl new ↦ (start, ground (arith, blocks_at-claim p start req start))
      | inr old ↦
          let (s, owns) = v.covered k h (ground (arith, is_free-claim p start req k)) in
          (s, ground (arith, blocks_at-claim p start req s, none_at_free inside here))
    ];
  }

  -- Freeing what starts at a block keeps a page valid, also where no allocation starts there.
  pub release-IsValid : (idx : ℕ) → idx < blocks → IsValid blocks (release p idx)
  release-IsValid idx inside = record {
    fits = λ s h. ground (arith, blocks_at-release p idx s, v.fits s);
    used = λ s k h o.
        ground
          (arith, blocks_at-release p idx s, is_free-release p idx k, v.used s k, v.apart idx s k);
    apart = λ s t k hs ht o q.
        ground (arith, blocks_at-release p idx s, blocks_at-release p idx t, v.apart s t k);
    covered = λ k h u.
        let (s, owns) = v.covered k h (ground (arith, is_free-release p idx k)) in
        (s, ground (arith, blocks_at-release p idx s, is_free-release p idx k));
  }

  -- So does an allocation at the start of a run that is long enough.
  pub claim_run :
      {start len : ℕ} (req : ℤ)
      → IsRun blocks p.is_free start len
      → req ≤ℤ pos len
      → IsValid blocks (claim p start req)
  claim_run {start} req r enough =
      claim-IsValid start req (run_inside r) (run_here r) (run_prefix r req enough)
