-- ===== src/Malloc/Page/Owner.antt =====
-- Which blocks an allocation owns, before and after one is made or freed.
use os_modules.Prelude.{ℕ, ◌+◌, ◌≤◌, ◌<◌, ◌≡◌, ◌≢◌, ◌⊎◌, inl, inr, arith, dec_lt}
use os_modules.Prelude.Int.{ℤ, pos_part}
use os_modules.Malloc.Page.{Page, claim, release}
use os_modules.Malloc.Page.Run.{IsFreeInterval}
use os_modules.Malloc.Page.Valid.{
  IsValid, Owns, blocks_at, none_at_free, blocks_at-claim, is_free-claim, blocks_at-release,
  is_free-release,
}

module _ {blocks : ℕ} {p : Page} (v : IsValid blocks p) where
  module _ (start : ℕ) (req : ℤ) (inside : start < blocks) (here : p.is_free start ≡ 1) where
    pub claim_apart :
        (free : IsFreeInterval blocks p.is_free start (pos_part req)) (t k : ℕ)
        → t < blocks
        → Owns p t k
        → (k < start) ⊎ (start + pos_part req ≤ k)
    claim_apart free t k h o = elim (dec_lt k start) [
      | yes before ↦ inl before
      | no behind ↦ elim (dec_lt k (start + pos_part req)) [
        | yes within ↦ absurd (v.used t k h o (free.free k (omega arith) within))
        | no after ↦ inr (omega arith)
      ]
    ]

    pub claim_keeps : (t k : ℕ) → Owns p t k → Owns (claim p start req) t k
    claim_keeps t k o = ground (arith, blocks_at-claim p start req t, none_at_free v inside here)

    pub claim-Owns :
        (k : ℕ) → start ≤ k → k < start + pos_part req → Owns (claim p start req) start k
    claim-Owns k lo hi = ground (arith, blocks_at-claim p start req start)

    pub blocks_at-release-claim :
        (t : ℕ) → blocks_at (release (claim p start req) start) t ≡ blocks_at p t
    blocks_at-release-claim t = ground (
      arith,
      blocks_at-release (claim p start req) start t,
      blocks_at-claim p start req t,
      none_at_free v inside here,
    )

    pub is_free-release-claim :
        (free : IsFreeInterval blocks p.is_free start (pos_part req)) (k : ℕ)
        → (release (claim p start req) start).is_free k ≡ p.is_free k
    is_free-release-claim free k = ground (
      arith,
      is_free-release (claim p start req) start k,
      is_free-claim p start req k,
      blocks_at-claim p start req start,
      free.free k,
    )

-- The blocks of the allocation at `idx` are free afterwards, the others as before.
pub release_frees : (p : Page) (idx k : ℕ) → Owns p idx k → (release p idx).is_free k ≡ 1
release_frees p idx k o = ground (arith, is_free-release p idx k)

pub release_spares :
    (p : Page) (idx k : ℕ) → ¬ (Owns p idx k) → (release p idx).is_free k ≡ p.is_free k
release_spares p idx k out = ground (arith, is_free-release p idx k, out)

pub release_keeps : (p : Page) (idx t k : ℕ) → idx ≢ t → Owns p t k → Owns (release p idx) t k
release_keeps p idx t k ne o = ground (arith, blocks_at-release p idx t)

-- Freeing the same allocation again changes nothing.
pub release-release :
    (p : Page) (idx k : ℕ)
    → ((release (release p idx) idx).is_free k ≡ (release p idx).is_free k)
      × (blocks_at (release (release p idx) idx) k ≡ blocks_at (release p idx) k)
release-release p idx k = ground (
  arith,
  is_free-release (release p idx) idx k,
  blocks_at-release p idx idx,
  blocks_at-release p idx k,
  blocks_at-release (release p idx) idx k,
)
