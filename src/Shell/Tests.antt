-- ===== src/Shell/Tests.antt =====
-- Runs of the shell at concrete lines and tables.
use os_modules.Prelude.{ℕ, ◌≡◌, refl, true, false, List, [], ◌∷◌, ◌++◌, if◌then◌else◌, ◌==◌, arith}
use os_modules.Prelude.Array.{Array, update}
use os_modules.Prelude.Int.{ℤ, pos, eqb_ℤ}
use os_modules.Prelude.Text.{same_string}
use os_modules.Prelude.Result.{ok}
use os_modules.Server.Tokens.{split}
use os_modules.Shell.Tokens.{all_short, tokenize, tokenize-eq-split}
use os_modules.Shell.Commands.{Word, separator}
use os_modules.Shell.Groups.{groups, last_type}
use os_modules.Shell.Os.{Os, Shell, returned, start_shell}
use os_modules.Shell.Execute.{exit}
use os_modules.Shell.Main.{run_line, main_loop}
use os_modules.Shell.Lines.{run_all, prompted, run_line-groups}
use os_modules.Shell.Exit.{ended, main_loop-exit}

-- A system that keeps the list of the processes killed, in which process 7 has ended.
abbrev Killed : Type 0
Killed = List ℤ

abbrev quiet : Os Killed
quiet = record {
  chdir = λ path w. (pos 0, w);
  fork = λ w. (pos 9, w);
  setpgid = λ w. w;
  execvp = λ words w. (false, w);
  waitpid = λ pid w. w;
  waitpid_status = λ pid w. (pid, true, w);
  waitpid_nohang = λ pid w. (if eqb_ℤ pid (pos 7) then pos 7 else pos 0, w);
  kill = λ pid w. w ++ (pid ∷ []);
  print = λ message w. w;
}

-- Processes 5, 7 and 6, and an entry 0 behind them.
abbrev table : Array ℤ
table j = if j == 0 then pos 5 else (if j == 1 then pos 7 else (if j == 2 then pos 6 else pos 0))

abbrev three : Shell Killed
three = record { bg_procs = table; room = 5; bg_procs_idx = pos 3; is_exited = false; world = [] }

-- l && s
abbrev two_commands : List ℕ
two_commands = b'l' ∷ b' ' ∷ b'&' ∷ b'&' ∷ b' ' ∷ b's' ∷ []

abbrev word_l : Word
word_l = b'l' ∷ []

abbrev word_s : Word
word_s = b's' ∷ []

run_line-groups_example :
    run_line quiet two_commands three
    ≡ run_all quiet false ((word_l ∷ []) ∷ (word_s ∷ []) ∷ []) (prompted quiet three)
unfolding split all_short separator same_string groups last_type
run_line-groups_example =
    run_line-groups quiet two_commands three (omega arith, refl, omega arith)
      ((λ e. cc), ((λ e. cc), ((λ e. cc), tt))) (omega arith)

-- l &&& exit
abbrev child_and_exit : List ℕ
child_and_exit = b'l' ∷ b' ' ∷ b'&' ∷ b'&' ∷ b'&' ∷ b' ' ∷ exit

abbrev first_prompt : Shell Killed
first_prompt = record {
  bg_procs = table;
  room = 1;
  bg_procs_idx = pos 0;
  is_exited = false;
  world = [];
}

first_prompt-start : start_shell table [] ≡ first_prompt
unfolding start_shell
first_prompt-start = refl

main_loop-exit_example :
    main_loop quiet (child_and_exit ∷ two_commands ∷ []) first_prompt
    ≡ ok (
        returned (record first_prompt {
          bg_procs = update table 0 (pos 9);
          bg_procs_idx = pos 1;
          is_exited = true;
          world = ended quiet (pos 9 ∷ []) [];
        }))
unfolding split all_short separator same_string groups last_type
main_loop-exit_example =
    main_loop-exit quiet child_and_exit (two_commands ∷ []) first_prompt word_l [] [] refl
      (omega arith) (omega arith, refl, omega arith) ((λ e. cc), ((λ e. cc), ((λ e. cc), tt))) refl
      refl refl refl refl

ended_killed : ended quiet (pos 9 ∷ []) [] ≡ pos 9 ∷ []
unfolding ended
ended_killed = refl

tokenize-eq-split_example : tokenize (b'l' ∷ b' ' ∷ b's' ∷ 10 ∷ []) ≡ ok (word_l ∷ word_s ∷ [])
unfolding split all_short
tokenize-eq-split_example = tokenize-eq-split (b'l' ∷ b' ' ∷ b's' ∷ [])
