-- ===== src/Shell/Procs.antt =====
-- my_shell.c: the table of background processes, `add_bg_procs` and `reap_bg_procs`.
use os_modules.Prelude.{ℕ, zero, suc, ◌+◌, true, false, ltb, if◌then◌else◌}
use os_modules.Prelude.Array.{update}
use os_modules.Prelude.Int.{ℤ, pos, negsuc, pos_part, ◌+ℤ◌, ◌-ℤ◌, ltb_ℤ, leb_ℤ, eqb_ℤ}
use os_modules.Prelude.Result.{Result, ok, fault, out_of_bounds, ◌>>=◌, ◌>>◌, within}
use os_modules.Shell.Commands.{max_bg_procs}
use os_modules.Shell.Os.{limit_reached, finished, Os, Shell}

-- An access at index `z` of an array of `room` entries.
unfoldable pub entry_room : (room : ℕ) → (z : ℤ) → Result (Unit {0})
entry_room room (pos n) = within (ltb n room)
entry_room room (negsuc n) = fault out_of_bounds

module _ {World : Type 0} (os : Os World) where
  unfoldable pub added : (pid : ℤ) → Shell World → Shell World
  unfolding update ◌+ℤ◌
  added pid s =
      let full = eqb_ℤ s.bg_procs_idx (pos max_bg_procs) in
      record s {
        bg_procs = update s.bg_procs (pos_part s.bg_procs_idx) pid;
        bg_procs_idx = s.bg_procs_idx +ℤ pos 1;
        world = if full then os.print limit_reached s.world else s.world;
      }

  -- The full table is reported, and the entry is written all the same.
  unfoldable pub add_bg_procs : (pid : ℤ) → Shell World → Result (Shell World)
  unfolding entry_room added
  add_bg_procs pid s = entry_room s.room s.bg_procs_idx >> ok (added pid s)

  -- The body of the loop, at index `i`.
  unfoldable pub reap_step : (i : ℕ) → Shell World → Result (Shell World)
  unfolding entry_room update ◌-ℤ◌
  reap_step i s =
      let pid = (os.waitpid_nohang (s.bg_procs i) s.world).0 in
      let world' = (os.waitpid_nohang (s.bg_procs i) s.world).1 in
      within (ltb i s.room)
      >> (if ltb_ℤ (pos 0) pid
          then entry_room s.room s.bg_procs_idx
            >> ok (record s {
              bg_procs = update s.bg_procs i (s.bg_procs (pos_part s.bg_procs_idx));
              bg_procs_idx = s.bg_procs_idx -ℤ pos 1;
              world = os.print finished world';
            })
          else ok (record s { world = world' }))

  -- The loop: also returns the index at which it ends.
  unfoldable pub reap_loop : (fuel i : ℕ) → Shell World → Result (ℕ × Shell World)
  unfolding reap_step
  reap_loop zero i s = ok (i, s)
  reap_loop (suc fuel) i s = elim (leb_ℤ (pos i) s.bg_procs_idx) [
    | true ↦ reap_step i s >>= reap_loop fuel (i + 1)
    | false ↦ ok (i, s)
  ]

  unfoldable pub reap_bg_procs : Shell World → Result (Shell World)
  unfolding reap_loop
  reap_bg_procs s = do (i, s') ← reap_loop (suc (pos_part s.bg_procs_idx)) 0 s; ok s'
