-- ===== src/Malloc/Page/Fit.antt =====
-- What the search finds: the smallest run of free blocks that is long enough, and `none` only if
-- no interval of free blocks is.
use os_modules.Prelude.{
  ℕ, zero, suc, ◌+◌, ◌-◌, ◌≤◌, ◌<◌, ◌≡◌, ◌≢◌, refl, inl, inr, Option, none, some, ◌&&◌, ◌==◌, ltb,
  leb, arith, Bool-cases, ℕ_discrete, dec_lt, ltb→lt, ltb→le, ==→eq, ==→ne,
}
use os_modules.Prelude.Array.{Array}
use os_modules.Prelude.Int.{ℤ, pos, leb_ℤ, ◌≤ℤ◌}
use os_modules.Malloc.Page.{free_len, scan, best_fit, page_size}
use os_modules.Malloc.Page.Run.{
  IsFreeInterval, IsRun, Edge, Edge-used, interval_in_run, same_run, free_len-IsRun,
}

module _ (blocks : ℕ) (f : Array ℕ) where
  -- What the loop has found when it comes to block `i`.
  module _ (req_blocks : ℤ) (small : blocks ≤ page_size) where
    record Found (i min_free_slot : ℕ) (free_start_idx : Option ℕ) : Type 0 where
      here :
          (s : ℕ)
          → free_start_idx ≡ some s
          → IsRun blocks f s min_free_slot × (req_blocks ≤ℤ pos min_free_slot)
      least : (s n : ℕ) → IsRun blocks f s n → s < i → req_blocks ≤ℤ pos n → min_free_slot ≤ n
      all :
          (a n : ℕ)
          → IsFreeInterval blocks f a n
          → 0 < n
          → a < i
          → req_blocks ≤ℤ pos n
          → free_start_idx ≢ none
      none_yet : free_start_idx ≡ none → min_free_slot ≡ page_size

    module _ {i m : ℕ} {b : Option ℕ} (found : Found i m b) where
      Found-used : f i ≢ 1 → Found (i + 1) m b
      Found-used u = record {
        here = found.here;
        least = λ s n r lt q. elim (ℕ_discrete s i) [
          | yes e ↦ absurd (u (r.interval.free i (omega arith) (omega (arith, r.nonempty))))
          | no ne ↦ found.least s n r (omega arith) q
        ];
        all = λ a n v p lt q. elim (ℕ_discrete a i) [
          | yes e ↦ absurd (u (v.free i (omega arith) (omega arith)))
          | no ne ↦ found.all a n v p (omega arith) q
        ];
        none_yet = found.none_yet;
      }

      module _ {len : ℕ} (r : IsRun blocks f i len) where
        Found-better : req_blocks ≤ℤ pos len → len ≤ m → Found (i + len) len (some i)
        Found-better fits le = record {
          here = λ s e. let at : s ≡ i = cc in rw at (r, fits);
          least = λ s n q lt k. elim (dec_lt s i) [
            | yes old ↦ omega (arith, found.least s n q old k)
            | no new ↦ omega (arith, (same_run blocks f r q (omega arith) lt).1)
          ];
          all = λ a n v p lt q. λ e. cc;
          none_yet = λ e. cc;
        }

        Found-worse : (req_blocks ≤ℤ pos len → m < len) → Found (i + len) m b
        Found-worse skip = record {
          here = found.here;
          least = λ s n q lt k. elim (dec_lt s i) [
            | yes old ↦ found.least s n q old k
            | no new ↦
                let same : (s ≡ i) × (n ≡ len) = same_run blocks f r q (omega arith) lt in
                omega (arith, skip (omega arith))
          ];
          all = λ a n v p lt q. elim (dec_lt a i) [
            | yes old ↦ found.all a n v p old q
            | no new ↦ λ e. omega (
              arith,
              interval_in_run blocks f r v (omega arith) lt,
              found.none_yet e,
              r.interval.fits,
              skip (omega (arith, interval_in_run blocks f r v (omega arith) lt)),
            )
          ];
          none_yet = found.none_yet;
        }

    -- The state in which the loop ends, at the end of the page.
    record Ended (free_start_idx : Option ℕ) : Type 0 where
      at : ℕ
      min_free_slot : ℕ
      behind : blocks ≤ at
      found : Found at min_free_slot free_start_idx

    scan-Ended :
        (fuel i m : ℕ) (b : Option ℕ)
        → blocks ≤ i + fuel
        → Edge blocks f i
        → Found i m b
        → Ended (scan blocks f req_blocks fuel i m b)
    unfolding scan
    scan-Ended zero i m b enough edge found = record {
      at = i;
      min_free_slot = m;
      behind = omega arith;
      found = found;
    }
    scan-Ended (suc fuel) i m b enough edge found = elim (Bool-cases (ltb i blocks)) [
      | inr over ↦
          rw over (record { at = i; min_free_slot = m; behind = ltb→le _ _ over; found = found })
      | inl inside ↦ rw inside (elim (Bool-cases (f i == 1)) [
        | inr used ↦ rw used (
            scan-Ended fuel (i + 1) m b (omega arith) (Edge-used blocks f i (==→ne _ _ used))
              (Found-used found (==→ne _ _ used)))
        | inl free ↦
            let r : IsRun blocks f i (free_len f (blocks - i) i) =
              free_len-IsRun blocks f i (ltb→lt _ _ inside) edge (==→eq _ _ free) in
            rw free
              (elim (Bool-cases (
                leb_ℤ req_blocks (pos (free_len f (blocks - i) i))
                && leb (free_len f (blocks - i) i) m)) [
                  | inl better ↦ rw better (
                      scan-Ended fuel _ _ _ (omega (arith, r.nonempty)) (inr r.right)
                        (Found-better found r (ground arith) (ground arith)))
                  | inr worse ↦ rw worse (
                      scan-Ended fuel _ m b (omega (arith, r.nonempty)) (inr r.right)
                        (Found-worse found r (λ q. ground arith)))
                ])
      ])
    ]

    best_fit-Ended : Ended (best_fit blocks f req_blocks)
    unfolding best_fit
    best_fit-Ended =
        scan-Ended blocks 0 page_size none (omega arith) (inl λ k e. absurd (omega arith)) record {
          here = λ s e. cc;
          least = λ s n r lt q. absurd (omega arith);
          all = λ a n v p lt q. absurd (omega arith);
          none_yet = λ e. refl;
        }

    -- A block that the search returns starts a run that is long enough, and no shorter run is.
    pub best_fit_least :
        {s : ℕ}
        → best_fit blocks f req_blocks ≡ some s
        → (len : ℕ) × IsRun blocks f s len
          × (req_blocks ≤ℤ pos len)
          × ((t n : ℕ) → IsRun blocks f t n → req_blocks ≤ℤ pos n → len ≤ n)
    best_fit_least {s} e = (
      min_free_slot,
      (found.here s e).0,
      (found.here s e).1,
      λ t n r q. found.least t n r (omega (arith, r.interval.fits, r.nonempty, behind)) q,
    )
      where
        open best_fit-Ended use {min_free_slot, behind, found}

    -- The search fails only if no interval of free blocks is long enough.
    pub best_fit_complete :
        (a n : ℕ)
        → IsFreeInterval blocks f a n
        → 0 < n
        → req_blocks ≤ℤ pos n
        → best_fit blocks f req_blocks ≢ none
    best_fit_complete a n v p q = found.all a n v p (omega (arith, v.fits, behind)) q
      where
        open best_fit-Ended use {behind, found}
