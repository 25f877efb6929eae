-- ===== src/Shell/Execute.antt =====
-- my_shell.c: `start_executing`, which changes the directory or makes a child, and `execute_cmd`, which ends the
-- background processes at `exit`. A command is the list of its words up to NULL.
use os_modules.Prelude.{ℕ, zero, suc, ◌+◌, Bool, true, false, List, [], ◌∷◌, ltb, if◌then◌else◌}
use os_modules.Prelude.Int.{ℤ, pos, negsuc, pos_part, eqb_ℤ}
use os_modules.Prelude.Text.{same_string}
use os_modules.Prelude.Result.{Result, ok, fault, null_pointer, ◌>>=◌, ◌>>◌, within}
use os_modules.Shell.Commands.{Word}
use os_modules.Shell.Os.{
  no_directory, wrong_command, reaped, normal_exit, not_disturbing, Os, Shell, Ending, running,
  replaced, returned,
}
use os_modules.Shell.Procs.{add_bg_procs, entry_room}

abbrev pub cd : Word
cd = b'c' ∷ b'd' ∷ []

abbrev pub exit : Word
exit = b'e' ∷ b'x' ∷ b'i' ∷ b't' ∷ []

abbrev pub home : Word
home = b'/' ∷ b'h' ∷ b'o' ∷ b'm' ∷ b'e' ∷ b'/' ∷ b'k' ∷ b'a' ∷ b'l' ∷ b'i' ∷ []

module _ {World : Type 0} (os : Os World) where
  unfoldable pub change_dir : (args : List Word) → Shell World → Shell World
  change_dir [] s = record s { world = (os.chdir home s.world).1 }
  change_dir (path ∷ args) s =
      let (answer, world') = os.chdir path s.world in
      record s { world = if eqb_ℤ answer (negsuc 0) then os.print no_directory world' else world' }

  -- The child. When execvp returns, the child goes on as a shell of its own.
  unfoldable pub child : (words : List Word) → (is_background : Bool) → Shell World → Ending World
  child words is_background s =
      let world' = if is_background then os.setpgid s.world else s.world in
      let (returns, world'') = os.execvp words world' in
      if returns
      then running (record s { world = os.print wrong_command world'' })
      else replaced (record s { world = world'' })

  unfoldable pub parent : (pid : ℤ) → (is_background : Bool) → Shell World → Result (Ending World)
  unfolding add_bg_procs
  parent pid true s = do s' ← add_bg_procs os pid s; ok (running s')
  parent pid false s = ok (running (record s { world = os.waitpid pid s.world }))

  unfoldable pub fork_and_run :
      (words : List Word) → (is_background : Bool) → Shell World → Result (Ending World)
  unfolding child parent
  fork_and_run words is_background s =
      let (pid, world') = os.fork s.world in
      let s' : Shell World = record s { world = world' } in
      if eqb_ℤ pid (pos 0) then ok (child words is_background s') else parent pid is_background s'

  unfoldable pub start_executing :
      (tokens : List Word) → (is_background : Bool) → Shell World → Result (Ending World)
  unfolding change_dir fork_and_run same_string
  start_executing [] is_background s = fault null_pointer
  start_executing (name ∷ args) is_background s =
      if same_string name cd
      then ok (running (change_dir args s))
      else fork_and_run (name ∷ args) is_background s

  -- What the end of one background process prints.
  unfoldable pub kill_one : (pid : ℤ) → World → World
  kill_one pid w =
      let (reaped_pid, signaled, w') = os.waitpid_status pid (os.kill pid w) in
      if signaled then os.print (reaped pid reaped_pid) w' else os.print normal_exit w'

  -- The loop of `exit`, from index `i` on, for `left` processes.
  unfoldable pub kill_loop : (left i : ℕ) → Shell World → Result (Shell World)
  unfolding kill_one entry_room
  kill_loop zero i s = ok s
  kill_loop (suc left) i s =
      within (ltb i s.room)
      >> kill_loop left (i + 1) (record s { world = kill_one (s.bg_procs i) s.world })

  unfoldable pub execute_cmd :
      (cmd : List Word) → (is_background : Bool) → Shell World → Result (Ending World)
  unfolding start_executing kill_loop same_string
  execute_cmd [] is_background s = fault null_pointer
  execute_cmd (name ∷ args) is_background s =
      if same_string name exit
      then kill_loop (pos_part s.bg_procs_idx) 0 s
        >>= (λ s'. ok (running (record s' { is_exited = true })))
      else start_executing (name ∷ args) is_background s

  -- A signal ends the shell and leaves the background processes.
  unfoldable pub handle_sigint : Shell World → Ending World
  handle_sigint s = returned (record s { world = os.print not_disturbing s.world })
