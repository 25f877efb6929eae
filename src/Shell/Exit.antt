-- ===== src/Shell/Exit.antt =====
-- my_shell.c: the command `exit`.
use mathlib.Core.Path.{ap₂}
use os_modules.Prelude.{
  sym, ◌<◌, if◌then◌else◌, ℕ, zero, suc, ◌+◌, ◌≤◌, ◌≡◌, refl, ap, ◌∙◌, true, false, Bool, List, [],
  ◌∷◌, lt→ltb, arith,
}
use os_modules.Prelude.Array.{Array, update}
use os_modules.Prelude.Int.{ℤ, pos, pos_part, eqb_ℤ, ◌+ℤ◌}
use os_modules.Prelude.Text.{same_string, length}
use os_modules.Prelude.Result.{ok, ◌>>=◌}
use os_modules.Server.Tokens.{split}
use os_modules.Shell.Tokens.{all_short}
use os_modules.Shell.Commands.{Word, separator}
use os_modules.Shell.Groups.{groups, last_type, LacksAmp}
use os_modules.Shell.Os.{
  Message, Os, Shell, running, returned, if_running, prompt, reaped, normal_exit,
}
use os_modules.Shell.Procs.{entry_room, added, add_bg_procs}
use os_modules.Shell.Execute.{
  cd, exit, kill_one, kill_loop, execute_cmd, start_executing, fork_and_run, parent,
}
use os_modules.Shell.Main.{run_line, after_line, main_loop}
use os_modules.Shell.Lines.{Fits, background, run_all, prompted, run_line-groups}

-- The processes of the table, from index `i` on.
unfoldable pub entries : Array ℤ → (left i : ℕ) → List ℤ
entries a zero i = []
entries a (suc left) i = a i ∷ entries a left (i + 1)

module _ {World : Type 0} (os : Os World) where
  -- SIGKILL for each process, and behind it a wait for that process, with what the shell prints of its end.
  unfoldable pub ended : (pids : List ℤ) → World → World
  ended [] w = w
  ended (pid ∷ pids) w =
      let (reaped_pid, by_sigkill, w') = os.waitpid_status pid (os.kill pid w) in
      ended pids (os.print (if by_sigkill then reaped pid reaped_pid else normal_exit) w')

  print_either :
      (b : Bool) (m m' : Message) (w : World)
      → (if b then os.print m w else os.print m' w) ≡ os.print (if b then m else m') w
  print_either true m m' w = refl
  print_either false m m' w = refl

  kill_one-ended : (pid : ℤ) (w : World) → kill_one os pid w ≡ ended (pid ∷ []) w
  unfolding kill_one ended
  kill_one-ended pid w =
      let (reaped_pid, by_sigkill, w') = os.waitpid_status pid (os.kill pid w) in
      print_either by_sigkill (reaped pid reaped_pid) normal_exit w'

  ended-none : (w : World) → ended [] w ≡ w
  unfolding ended
  ended-none w = refl

  ended-first :
      (pid : ℤ) (pids : List ℤ) (w : World) → ended (pid ∷ pids) w ≡ ended pids (ended (pid ∷ []) w)
  unfolding ended
  ended-first pid pids w = refl

  kill_loop-ended :
      (left i : ℕ) (s : Shell World)
      → i + left ≤ s.room
      → kill_loop os left i s ≡ ok (record s { world = ended (entries s.bg_procs left i) s.world })
  unfolding kill_loop entries
  kill_loop-ended zero i s h = ap (λ w. ok (record s { world = w })) (sym (ended-none s.world))
  kill_loop-ended (suc left) i s h =
      rw (lt→ltb i s.room (omega arith), kill_one-ended (s.bg_procs i) s.world)
        (kill_loop-ended left (i + 1) (record s { world = ended (s.bg_procs i ∷ []) s.world })
            (omega arith)
          ∙ ap (λ w. ok (record s { world = w }))
              (sym (ended-first (s.bg_procs i) (entries s.bg_procs left (i + 1)) s.world)))

  -- `exit` ends the processes of the table, in order.
  execute_cmd-exit :
      (args : List Word) (is_background : Bool) (s : Shell World) (n : ℕ)
      → s.bg_procs_idx ≡ pos n
      → n ≤ s.room
      → execute_cmd os (exit ∷ args) is_background s
        ≡ ok (
            running (record s { is_exited = true; world = ended (entries s.bg_procs n 0) s.world }))
  unfolding execute_cmd same_string
  execute_cmd-exit args is_background s n e h =
      ap
        (λ z.
          kill_loop os (pos_part z) 0 s >>= (λ s'. ok (running (record s' { is_exited = true }))))
        e
      ∙ ap (λ r. r >>= (λ s'. ok (running (record s' { is_exited = true }))))
          (kill_loop-ended n 0 s (omega arith))

  -- The shell behind the start of a first background process.
  abbrev with_child : (pid : ℤ) → Shell World → Shell World
  with_child pid s = record s {
    bg_procs = update s.bg_procs 0 pid;
    bg_procs_idx = pos 1;
    world = (os.fork s.world).1;
  }

  execute_cmd-background :
      (name : Word) (args : List Word) (s : Shell World)
      → s.bg_procs_idx ≡ pos 0
      → 0 < s.room
      → same_string name cd ≡ false
      → same_string name exit ≡ false
      → eqb_ℤ (os.fork s.world).0 (pos 0) ≡ false
      → execute_cmd os (name ∷ args) true s ≡ ok (running (with_child (os.fork s.world).0 s))
  unfolding execute_cmd start_executing fork_and_run parent add_bg_procs added entry_room ◌+ℤ◌
  execute_cmd-background name args s e room no_cd no_exit in_parent =
      rw (no_exit, no_cd, in_parent, e, lt→ltb 0 s.room room) refl

  main_loop-exit_alone :
      (lines : List (List ℕ)) (s : Shell World)
      → s.bg_procs_idx ≡ pos 0
      → main_loop os (exit ∷ lines) s ≡ ok (returned (record (prompted os s) { is_exited = true }))
  unfolding main_loop after_line run_all if_running split all_short groups separator same_string
      entries
  main_loop-exit_alone lines s e =
      let alone : run_line os exit s ≡ ok (running (record (prompted os s) { is_exited = true })) =
        run_line-groups os exit s (omega arith, refl, omega arith) ((λ e. cc), tt) (omega arith)
        ∙ rw
            (
              execute_cmd-exit [] false (prompted os s) 0 e (omega arith),
              ended-none (os.print prompt s.world),
            )
            refl in
      rw alone refl

  -- From a prompt at which the table is empty: at a line of two commands that run in the background, the first one a
  -- program for which fork does not return 0 and the second one `exit`, the shell sends SIGKILL to the process that fork
  -- returned and waits for it, and for no other one. It prints how that process ended, and `main` returns without
  -- reading the lines behind this one.
  pub main_loop-exit :
      (line : List ℕ) (lines : List (List ℕ)) (s : Shell World) (name : Word)
      (args rest : List Word)
      → s.bg_procs_idx ≡ pos 0
      → 0 < s.room
      → Fits line
      → LacksAmp (split [] line)
      → groups [] (split [] line) ≡ (name ∷ args) ∷ (exit ∷ rest) ∷ []
      → background (last_type 0 (split [] line)) ≡ true
      → same_string name cd ≡ false
      → same_string name exit ≡ false
      → let (pid, w) = os.fork (os.print prompt s.world) in
        eqb_ℤ pid (pos 0) ≡ false
        → main_loop os (line ∷ lines) s
          ≡ ok (
              returned (record s {
                bg_procs = update s.bg_procs 0 pid;
                bg_procs_idx = pos 1;
                is_exited = true;
                world = ended (pid ∷ []) w;
              }))
  unfolding main_loop after_line run_all if_running entries update
  main_loop-exit line lines s name args rest e room fits lacks commands kind no_cd no_exit
        in_parent =
      let child : Shell World = with_child (os.fork (os.print prompt s.world)).0 (prompted os s) in
      let few : length (groups [] (split [] line)) ≡ 2 = ap length commands in
      let both : run_line os line s
          ≡ ok (
              running (record child {
                is_exited = true;
                world = ended ((os.fork (os.print prompt s.world)).0 ∷ []) child.world;
              })) =
        run_line-groups os line s fits lacks (omega arith)
        ∙ (ap₂ (λ k cs. run_all os k cs (prompted os s)) kind commands
            ∙ rw
                (
                  execute_cmd-background name args (prompted os s) e room no_cd no_exit in_parent,
                  execute_cmd-exit rest true child 1 refl (omega arith),
                )
                refl) in
      rw both refl
