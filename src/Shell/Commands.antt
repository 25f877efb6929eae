-- ===== src/Shell/Commands.antt =====
-- my_shell.c: `make_cmds`, which cuts the tokens into commands. The arrays of pointers that calloc returns
-- are cells of a heap, since after a `&` the same array is used again.
use os_modules.Prelude.{
  ℕ, zero, suc, ◌+◌, Option, none, some, List, [], ◌∷◌, ◌++◌, ltb, if◌then◌else◌, ◌==◌,
}
use os_modules.Prelude.Array.{Array, update}
use os_modules.Prelude.Text.{length, same_string}
use os_modules.Prelude.Result.{Result, ok, ◌>>=◌, ◌>>◌, within}
use os_modules.Shell.Tokens.{max_num_tokens}

abbrev pub Word : Type 0
Word = List ℕ

abbrev pub max_bg_procs : ℕ
max_bg_procs = 64

abbrev pub amp : Word
amp = b'&' ∷ []

-- The command type that a separator sets.
unfoldable pub separator : Word → Option ℕ
unfolding same_string
separator t =
    if same_string t amp
    then some 1
    else (if same_string t (b'&' ∷ amp)
        then some 2
        else (if same_string t (b'&' ∷ b'&' ∷ amp) then some 3 else none))

-- The local variables of `make_cmds`; `cmd` and the entries of `cmds` are pointers into the heap, and
-- `none` is NULL.
pub record Builder : Type 0 where
  pub heap : Array (Array (Option Word))
  pub next : ℕ
  pub cmd : ℕ
  pub cmd_itr : ℕ
  pub cmds : List ℕ
  pub cmd_type : ℕ

-- cmd = calloc(…)
unfoldable pub calloc : Builder → Builder
unfolding update
calloc b = record b { heap = update b.heap b.next (λ _. none); next = b.next + 1; cmd = b.next }

-- cmd[cmd_itr] = …
unfoldable pub put : Option Word → Builder → Result Builder
unfolding update
put value b =
    within (ltb b.cmd_itr max_num_tokens)
    >> ok (record b { heap = update b.heap b.cmd (update (b.heap b.cmd) b.cmd_itr value) })

-- cmds[cmds_itr] = cmd
unfoldable pub push : Builder → Result Builder
push b =
    within (ltb (length b.cmds) max_bg_procs) >> ok (record b { cmds = b.cmds ++ (b.cmd ∷ []) })

-- A `&` keeps the array.
unfoldable pub next_command : (kind : ℕ) → Builder → Builder
unfolding calloc
next_command kind b =
    let b' : Builder = record b { cmd_itr = 0; cmd_type = kind } in
    if kind == 1 then b' else calloc b'

unfoldable pub add_token : Word → Option ℕ → Builder → Result Builder
unfolding put push next_command
add_token t (some kind) b = do b' ← put none b; b'' ← push b'; ok (next_command kind b'')
add_token t none b = do b' ← put (some t) b; ok (record b' { cmd_itr = b'.cmd_itr + 1 })

unfoldable pub make_loop : (tokens : List Word) → Builder → Result Builder
unfolding add_token separator
make_loop [] b = ok b
make_loop (t ∷ tokens) b = add_token t (separator t) b >>= make_loop tokens

unfoldable pub start_builder : Builder
start_builder = record {
  heap = λ _ _. none;
  next = 1;
  cmd = 0;
  cmd_itr = 0;
  cmds = [];
  cmd_type = 0;
}

-- The end puts NULL behind the last command and behind the array of commands.
unfoldable pub make_cmds : (tokens : List Word) → Result Builder
unfolding make_loop put push start_builder
make_cmds tokens = do
  b ← make_loop tokens start_builder
  b' ← put none b
  b'' ← push b'
  within (ltb (length b''.cmds) max_bg_procs)
  ok b''

-- The words of a command, up to NULL.
unfoldable pub words_of : Array (Option Word) → (left i : ℕ) → List Word
words_of a zero i = []
words_of a (suc left) i = elim (a i) [ none ↦ [] | some w ↦ w ∷ words_of a left (i + 1) ]

abbrev pub view : Array (Array (Option Word)) → ℕ → List Word
view heap p = words_of (heap p) max_num_tokens 0
