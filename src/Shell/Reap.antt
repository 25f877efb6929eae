-- ===== src/Shell/Reap.antt =====
-- my_shell.c: what `reap_bg_procs` does to the table of background processes.
use os_modules.Prelude.{
  ℕ, zero, suc, ◌+◌, ◌≤◌, ◌<◌, ◌≡◌, refl, ap, ◌∙◌, true, false, inl, inr, Bool-cases, dec_lt, ltb,
  lt→ltb, arith,
}
use os_modules.Prelude.Array.{Array, update}
use os_modules.Prelude.Int.{ℤ, pos, negsuc, pos_part, neg_part, ◌+ℤ◌, ◌-ℤ◌, ◌≤ℤ◌, ltb_ℤ, leb_ℤ}
use os_modules.Prelude.Result.{Result, ok, fault, out_of_bounds, ◌>>=◌, ◌>>◌}
use os_modules.Shell.Os.{finished, Os, Shell, start_shell}
use os_modules.Shell.Procs.{entry_room, added, add_bg_procs, reap_step, reap_loop, reap_bg_procs}

entry-IsInside : (room n : ℕ) → n < room → entry_room room (pos n) ≡ ok tt
unfolding entry_room
entry-IsInside room n h = rw (lt→ltb n room h) refl

-- An index that is reached.
reached : (i : ℕ) (z : ℤ) → leb_ℤ (pos i) z ≡ true → (m : ℕ) × (z ≡ pos m) × (i ≤ m)
reached i (pos m) h = (m, refl, ground arith)
reached i (negsuc m) h = absurd (ground arith)

module _ {World : Type 0} (os : Os World) where
  -- The answer for the entry at index `i`.
  unfoldable pub answer : (i : ℕ) → Shell World → ℤ × World
  answer i s = os.waitpid_nohang (s.bg_procs i) s.world

  -- The two results of the loop's body.
  unfoldable pub removed : (i : ℕ) → Shell World → Shell World
  unfolding answer
  removed i s = record s {
    bg_procs = update s.bg_procs i (s.bg_procs (pos_part s.bg_procs_idx));
    bg_procs_idx = s.bg_procs_idx -ℤ pos 1;
    world = os.print finished (answer i s).1;
  }

  unfoldable pub kept : (i : ℕ) → Shell World → Shell World
  unfolding answer
  kept i s = record s { world = (answer i s).1 }

  pub reap_step-removed :
      (i : ℕ) (s : Shell World) (m : ℕ)
      → s.bg_procs_idx ≡ pos m
      → i ≤ m
      → m < s.room
      → ltb_ℤ (pos 0) (answer i s).0 ≡ true
      → reap_step os i s ≡ ok (removed i s)
  unfolding reap_step removed answer
  reap_step-removed i s m e h h' ended =
      let inside : entry_room s.room s.bg_procs_idx ≡ ok tt =
        ap (entry_room s.room) e ∙ entry-IsInside s.room m h' in
      rw (lt→ltb i s.room (omega arith), ended, inside) refl

  pub reap_step-kept :
      (i : ℕ) (s : Shell World)
      → i < s.room
      → ltb_ℤ (pos 0) (answer i s).0 ≡ false
      → reap_step os i s ≡ ok (kept i s)
  unfolding reap_step kept answer
  reap_step-kept i s h goes_on = rw (lt→ltb i s.room h, goes_on) refl

  -- What stays in bounds: the index is not larger, and the array is the same.
  Within : Shell World → (room m : ℕ) → Type 0
  Within s room m = (s.room ≡ room) × (s.bg_procs_idx ≤ℤ pos m)

  reap_step-Within :
      (i : ℕ) (s : Shell World) (m : ℕ)
      → s.bg_procs_idx ≡ pos m
      → i ≤ m
      → m < s.room
      → (s' : Shell World) × (reap_step os i s ≡ ok s') × Within s' s.room m
  unfolding Within removed kept ◌-ℤ◌
  reap_step-Within i s m e h h' = elim (Bool-cases (ltb_ℤ (pos 0) (answer i s).0)) [
    | inl ended ↦ (removed i s, reap_step-removed i s m e h h' ended, (refl, rw e (ground arith)))
    | inr goes_on ↦ (kept i s, reap_step-kept i s (omega arith) goes_on, (refl, rw e (omega arith)))
  ]

  pub reap_loop-round :
      (fuel i : ℕ) (s : Shell World)
      → leb_ℤ (pos i) s.bg_procs_idx ≡ true
      → reap_loop os (suc fuel) i s ≡ (reap_step os i s >>= reap_loop os fuel (i + 1))
  unfolding reap_loop
  reap_loop-round fuel i s goes_on = rw (reap_loop, goes_on) refl

  pub reap_loop-stop :
      (fuel i : ℕ) (s : Shell World)
      → leb_ℤ (pos i) s.bg_procs_idx ≡ false
      → reap_loop os (suc fuel) i s ≡ ok (i, s)
  unfolding reap_loop
  reap_loop-stop fuel i s ends = rw (reap_loop, ends) refl

  -- The loop of `reap_bg_procs` ends because its condition fails, after at most one round for each entry and one
  -- for the entry behind the last, and stays in the array, when the array has an entry behind the last process.
  pub reap_loop-ends :
      (fuel i : ℕ) (s : Shell World) (m : ℕ)
      → s.bg_procs_idx ≤ℤ pos m
      → m < s.room
      → m < i + fuel
      → (i' : ℕ) × (s' : Shell World) × (reap_loop os fuel i s ≡ ok (i', s'))
        × (leb_ℤ (pos i') s'.bg_procs_idx ≡ false)
        × (s'.room ≡ s.room)
        × (s'.bg_procs_idx ≤ℤ pos m)
  unfolding reap_loop Within
  reap_loop-ends zero i s m e h h' = (i, s, refl, ground arith, refl, e)
  reap_loop-ends (suc fuel) i s m e h h' = elim (Bool-cases (leb_ℤ (pos i) s.bg_procs_idx)) [
    | inr ends ↦ (i, s, reap_loop-stop fuel i s ends, ends, refl, e)
    | inl goes_on ↦
        let (m', e', le) = reached i s.bg_procs_idx goes_on in
        let m'_le : m' ≤ m = omega (arith, ap pos_part e', ap neg_part e') in
        let (s', steps, (same_room, less)) = reap_step-Within i s m' e' le (omega arith) in
        let (i'', s'', runs, ends, same_room', less') =
          reap_loop-ends fuel (i + 1) s' m (omega arith) (omega arith) (omega arith) in
        (
          i'',
          s'',
          reap_loop-round fuel i s goes_on
              ∙ (ap (λ r. r >>= reap_loop os fuel (i + 1)) steps ∙ runs),
          ends,
          same_room' ∙ same_room,
          less',
        )
  ]

  -- The entry behind the last process is outside.
  reap_step-overrun :
      (i : ℕ) (s : Shell World)
      → s.bg_procs_idx ≡ pos s.room
      → ltb_ℤ (pos 0) (answer i s).0 ≡ true
      → reap_step os i s ≡ fault out_of_bounds
  unfolding reap_step answer entry_room
  reap_step-overrun i s e ended =
      let outside : entry_room s.room s.bg_procs_idx ≡ fault out_of_bounds =
        ap (entry_room s.room) e ∙ ground arith in
      elim (Bool-cases (ltb i s.room)) [
        | inl inside ↦ rw (inside, ended, outside) refl
        | inr past ↦ rw past refl
      ]

  reap_step-past : (i : ℕ) (s : Shell World) → s.room ≤ i → reap_step os i s ≡ fault out_of_bounds
  unfolding reap_step
  reap_step-past i s h = let past : ltb i s.room ≡ false = ground arith in rw past refl

  reap_loop-overrun :
      (fuel i : ℕ) (s : Shell World)
      → s.bg_procs_idx ≡ pos s.room
      → i ≤ s.room
      → s.room < i + fuel
      → reap_loop os fuel i s ≡ fault out_of_bounds
  unfolding kept
  reap_loop-overrun zero i s e h h' = absurd (omega arith)
  reap_loop-overrun (suc fuel) i s e h h' =
      let goes_on : leb_ℤ (pos i) s.bg_procs_idx ≡ true = rw e (ground arith) in
      let rest = λ (r : Result (Shell World)). r >>= reap_loop os fuel (i + 1) in
      reap_loop-round fuel i s goes_on ∙ elim (dec_lt i s.room) [
        | no at_end ↦ ap rest (reap_step-past i s (omega arith))
        | yes inside ↦ elim (Bool-cases (ltb_ℤ (pos 0) (answer i s).0)) [
          | inl ended ↦ ap rest (reap_step-overrun i s e ended)
          | inr still ↦
              ap rest (reap_step-kept i s inside still)
              ∙ reap_loop-overrun fuel (i + 1) (kept i s) e (omega arith) (omega arith)
        ]
      ]

  reap_bg_procs-overrun :
      (s : Shell World) → s.bg_procs_idx ≡ pos s.room → reap_bg_procs os s ≡ fault out_of_bounds
  unfolding reap_bg_procs
  reap_bg_procs-overrun s e =
      let loop =
        reap_loop-overrun (suc (pos_part s.bg_procs_idx)) 0 s e (omega arith)
          (omega (arith, ap pos_part e)) in
      rw loop refl

  pub add_bg_procs-IsInside :
      (pid : ℤ) (s : Shell World) (n : ℕ)
      → s.bg_procs_idx ≡ pos n
      → n < s.room
      → add_bg_procs os pid s ≡ ok (added os pid s)
  unfolding add_bg_procs
  add_bg_procs-IsInside pid s n e h =
      ap (λ z. entry_room s.room z >> ok (added os pid s)) e
      ∙ ap (λ r. r >> ok (added os pid s)) (entry-IsInside s.room n h)

  -- The array that `main` allocates has one entry. When one background process has been added, whatever
  -- waitpid answers, `reap_bg_procs` accesses the entry behind it.
  add_bg_procs-reap_bg_procs :
      (content : Array ℤ) (world : World) (pid : ℤ)
      → (add_bg_procs os pid (start_shell content world) >>= reap_bg_procs os) ≡ fault out_of_bounds
  unfolding start_shell added ◌+ℤ◌
  add_bg_procs-reap_bg_procs content world pid =
      let s = start_shell content world in
      ap (λ r. r >>= reap_bg_procs os) (add_bg_procs-IsInside pid s 0 refl (omega arith))
      ∙ reap_bg_procs-overrun (added os pid s) refl
