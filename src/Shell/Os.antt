-- ===== src/Shell/Os.antt =====
-- my_shell.c: the system calls that the shell makes, as operations on the state of the system, and the state of
-- the shell process.
use os_modules.Prelude.{ℕ, Bool, false, List}
use os_modules.Prelude.Array.{Array}
use os_modules.Prelude.Int.{ℤ, pos}
use os_modules.Prelude.Result.{Result, ok}
use os_modules.Shell.Commands.{Word}

-- What the shell prints, one constructor per call of printf.
pub data Message : Type 0 where
  limit_reached : Message
  finished : Message  -- a background process
  no_directory : Message
  wrong_command : Message
  reaped : (pid reaped_pid : ℤ) → Message
  normal_exit : Message
  not_disturbing : Message
  prompt : Message

-- What the system does at a call, for every state of it. The calls of the C library and the kernel are not in
-- the repository.
pub record Os (World : Type 0) : Type 0 where
  pub chdir : Word → World → ℤ × World
  -- In the child the result is 0, in the parent the child's number, and -1 when there is no child.
  pub fork : World → ℤ × World
  -- setpgid(getpid(), 0)
  pub setpgid : World → World
  -- Whether the call returned; it returns -1.
  pub execvp : List Word → World → Bool × World
  -- waitpid(pid, NULL, 0)
  pub waitpid : ℤ → World → World
  -- waitpid(pid, &status, 0): the result, and whether SIGKILL ended the process
  pub waitpid_status : ℤ → World → ℤ × Bool × World
  -- waitpid(pid, NULL, WNOHANG)
  pub waitpid_nohang : ℤ → World → ℤ × World
  -- kill(pid, SIGKILL)
  pub kill : ℤ → World → World
  pub print : Message → World → World

-- The globals `bg_procs`, an array of `room` entries, and `bg_procs_idx`, and the flag `is_exited` of `main`.
pub record Shell (World : Type 0) : Type 0 where
  pub bg_procs : Array ℤ
  pub room : ℕ
  pub bg_procs_idx : ℤ
  pub is_exited : Bool
  pub world : World

-- How a function ends: it returns, or the process is replaced by another program, or `main` has returned.
pub data Ending (World : Type 0) : Type 0 where
  running : Shell World → Ending World
  replaced : Shell World → Ending World
  returned : Shell World → Ending World

-- The code behind a call: it is not reached when the process was replaced, or `main` has returned.
unfoldable pub if_running :
    {World : Type 0}
    → (then_run : Shell World → Result (Ending World)) → Ending World
    → Result (Ending World)
if_running then_run (running s) = then_run s
if_running then_run (replaced s) = ok (replaced s)
if_running then_run (returned s) = ok (returned s)

-- bg_procs = malloc(sizeof(int)): one entry, with any content.
unfoldable pub start_shell : {World : Type 0} → (content : Array ℤ) → World → Shell World
start_shell content world = record {
  bg_procs = content;
  room = 1;
  bg_procs_idx = pos 0;
  is_exited = false;
  world = world;
}
