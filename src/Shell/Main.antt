-- ===== src/Shell/Main.antt =====
-- my_shell.c: `main`, for the lines that are typed.
use os_modules.Prelude.{
  ℕ, suc, Bool, true, false, ◌||◌, List, [], ◌∷◌, ◌++◌, ltb, ◌==◌, if◌then◌else◌,
}
use os_modules.Prelude.Array.{Array}
use os_modules.Prelude.Text.{length}
use os_modules.Prelude.Result.{Result, ok, ◌>>=◌, ◌>>◌, within}
use os_modules.Prelude.{Option}
use os_modules.Shell.Tokens.{tokenize}
use os_modules.Shell.Commands.{Word, make_cmds, view}
use os_modules.Shell.Os.{prompt, Os, Shell, Ending, running, returned, if_running}
use os_modules.Shell.Procs.{reap_bg_procs}
use os_modules.Shell.Execute.{execute_cmd}

abbrev pub max_input_size : ℕ
max_input_size = 1024

module _ {World : Type 0} (os : Os World) where
  -- The loop over the commands: a process that was replaced does not come back to it.
  unfoldable pub run_cmds :
      (heap : Array (Array (Option Word)))
      → (cmd_type : ℕ) → (cmds : List ℕ) → (is_background : Bool) → Shell World
      → Result (Ending World)
  unfolding execute_cmd if_running
  run_cmds heap cmd_type [] is_background s = ok (running s)
  run_cmds heap cmd_type (p ∷ cmds) is_background s =
      let is_background' = if cmd_type == 1 || cmd_type == 3 then true else is_background in
      execute_cmd os (view heap p) is_background' s
      >>= if_running (run_cmds heap cmd_type cmds is_background')

  -- One line, read by scanf without its newline, that has no byte 0. The buffer has 1024 bytes, of which strlen and the added newline
  -- need one each.
  unfoldable pub run_line : (line : List ℕ) → Shell World → Result (Ending World)
  unfolding tokenize make_cmds run_cmds
  run_line line s = do
    within (ltb (suc (length line)) max_input_size)
    tokens ← tokenize (line ++ (b'\n' ∷ []))
    b ← make_cmds tokens
    run_cmds b.heap b.cmd_type b.cmds false (record s { world = os.print prompt s.world })

  -- The end of the loop body.
  unfoldable pub after_line : Shell World → Result (Ending World)
  unfolding reap_bg_procs
  after_line s = elim s.is_exited [
    | true ↦ ok (returned s)
    | false ↦ do s' ← reap_bg_procs os s; ok (running s')
  ]

  -- `main`. Behind the last line scanf reads nothing, and the line is empty.
  unfoldable pub main_loop : (lines : List (List ℕ)) → Shell World → Result (Ending World)
  unfolding run_line after_line if_running
  main_loop [] s = run_line [] s
  main_loop (line ∷ lines) s =
      run_line line s >>= if_running (λ s'. after_line s' >>= if_running (main_loop lines))
