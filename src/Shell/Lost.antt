-- ===== src/Shell/Lost.antt =====
-- my_shell.c: the table of background processes when one of them has finished.
use os_modules.Prelude.{
  ℕ, zero, suc, ◌+◌, ◌≤◌, ◌<◌, ◌≡◌, ◌≢◌, refl, ap, ◌∙◌, true, false, ℕ_discrete, dec_lt, arith,
}
use os_modules.Prelude.Array.{update, update_ne}
use os_modules.Prelude.Int.{ℤ, pos, pos_part, ◌-ℤ◌, ltb_ℤ, eqb_ℤ}
use os_modules.Prelude.Result.{Result, ok, ◌>>=◌}
use os_modules.Shell.Os.{Os, Shell}
use os_modules.Shell.Procs.{reap_loop, reap_bg_procs}
use os_modules.Shell.Reap.{
  removed, kept, answer, reap_step-removed, reap_step-kept, reap_loop-round, reap_loop-stop,
}

module _ {World : Type 0} (os : Os World) (q : ℤ)
    (only : (p : ℤ) (w : World) → ltb_ℤ (pos 0) (os.waitpid_nohang p w).0 ≡ eqb_ℤ p q) where
  -- The loop leaves the table when no entry that it reads is `q`.
  reap_loop-idle :
      (fuel i : ℕ) (s : Shell World) (m : ℕ)
      → s.bg_procs_idx ≡ pos m
      → m < s.room
      → m < i + fuel
      → ((j : ℕ) → i ≤ j → j ≤ m → eqb_ℤ (s.bg_procs j) q ≡ false)
      → (i' : ℕ) × (s' : Shell World) × (reap_loop os fuel i s ≡ ok (i', s'))
        × (s'.bg_procs ≡ s.bg_procs)
        × (s'.bg_procs_idx ≡ pos m)
  unfolding reap_loop kept
  reap_loop-idle zero i s m e h h' others = (i, s, refl, refl, e)
  reap_loop-idle (suc fuel) i s m e h h' others = elim (dec_lt m i) [
    | yes past ↦ (i, s, reap_loop-stop os fuel i s (rw e (ground arith)), refl, e)
    | no goes_on ↦
        let still : ltb_ℤ (pos 0) (answer os i s).0 ≡ false =
          only _ _ ∙ others i (omega arith) (omega arith) in
        let (i', s', runs, same, idx) =
          reap_loop-idle fuel (i + 1) (kept os i s) m e h (omega arith)
            (λ j lo hi. others j (omega arith) hi) in
        (
          i',
          s',
          reap_loop-round os fuel i s (rw e (ground arith))
              ∙ (ap (λ r. r >>= reap_loop os fuel (i + 1))
                    (reap_step-kept os i s (omega arith) still)
                  ∙ runs),
          same,
          idx,
        )
  ]

  reap_loop-finds :
      (fuel i : ℕ) (s : Shell World) (k n : ℕ)
      → s.bg_procs_idx ≡ pos (suc n)
      → suc n < s.room
      → suc n < i + fuel
      → i ≤ k
      → k ≤ n
      → eqb_ℤ (s.bg_procs k) q ≡ true
      → ((j : ℕ) → j ≤ suc n → j ≢ k → eqb_ℤ (s.bg_procs j) q ≡ false)
      → (i' : ℕ) × (s' : Shell World) × (reap_loop os fuel i s ≡ ok (i', s'))
        × (s'.bg_procs ≡ update s.bg_procs k (s.bg_procs (suc n)))
        × (s'.bg_procs_idx ≡ pos n)
  unfolding reap_loop kept removed answer ◌-ℤ◌
  reap_loop-finds zero i s k n e h h' le le' here others = absurd (omega arith)
  reap_loop-finds (suc fuel) i s k n e h h' le le' here others =
      let round = reap_loop-round os fuel i s (rw e (ground arith)) in
      let rest = λ (r : Result (Shell World)). r >>= reap_loop os fuel (i + 1) in
      elim (ℕ_discrete i k) [
        | yes found ↦
            let ended : ltb_ℤ (pos 0) (answer os i s).0 ≡ true =
              only _ _ ∙ (ap (λ j. eqb_ℤ (s.bg_procs j) q) found ∙ here) in
            let later : (j : ℕ)
                → i + 1 ≤ j
                → j ≤ n
                → eqb_ℤ ((removed os i s).bg_procs j) q ≡ false =
              λ j lo hi.
                ap (λ p. eqb_ℤ p q) (update_ne s.bg_procs i j _ (omega arith))
                ∙ others j (omega arith) (omega arith) in
            let (i', s', runs, same, idx) =
              reap_loop-idle fuel (i + 1) (removed os i s) n (ap (λ z. z -ℤ pos 1) e ∙ ground arith)
                (omega arith) (omega arith) later in
            (
              i',
              s',
              round ∙ (ap rest (reap_step-removed os i s (suc n) e (omega arith) h ended) ∙ runs),
              same
                  ∙ (ap (λ j. update s.bg_procs j (s.bg_procs (pos_part s.bg_procs_idx))) found
                      ∙ ap (λ z. update s.bg_procs k (s.bg_procs (pos_part z))) e),
              idx,
            )
        | no before ↦
            let still : ltb_ℤ (pos 0) (answer os i s).0 ≡ false =
              only _ _ ∙ others i (omega arith) before in
            let (i', s', runs, same, idx) =
              reap_loop-finds fuel (i + 1) (kept os i s) k n e h (omega arith) (omega arith) le'
                here others in
            (
              i',
              s',
              round ∙ (ap rest (reap_step-kept os i s (omega arith) still) ∙ runs),
              same,
              idx,
            )
      ]

  -- When `q` alone has finished, and it is entry `k` of a table of n + 1 processes, whose array has a further
  -- entry that is not `q`, then afterwards the table has the entries 0 to n - 1 of before, with the entry behind
  -- the last process in place of `q`: the process in entry `n` is no longer in it.
  pub reap_bg_procs-loses :
      (s : Shell World) (k n : ℕ)
      → s.bg_procs_idx ≡ pos (suc n)
      → suc n < s.room
      → k ≤ n
      → eqb_ℤ (s.bg_procs k) q ≡ true
      → ((j : ℕ) → j ≤ suc n → j ≢ k → eqb_ℤ (s.bg_procs j) q ≡ false)
      → (s' : Shell World) × (reap_bg_procs os s ≡ ok s')
        × (s'.bg_procs ≡ update s.bg_procs k (s.bg_procs (suc n)))
        × (s'.bg_procs_idx ≡ pos n)
  unfolding reap_bg_procs
  reap_bg_procs-loses s k n e h le here others =
      let (i, s', runs, same, idx) =
        reap_loop-finds (suc (pos_part s.bg_procs_idx)) 0 s k n e h (omega (arith, ap pos_part e))
          (omega arith) le here others in
      (s', ap (λ r. r >>= λ p. ok p.1) runs, same, idx)
