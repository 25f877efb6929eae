-- ===== src/Shell/Lines.antt =====
-- my_shell.c: what a line does, in terms of the words of its commands.
use mathlib.Core.List.{map}
use mathlib.Core.Path.{ap₂, subst}
use os_modules.Prelude.{
  ◌⊎◌, inl, inr, ℕ, suc, ◌<◌, ◌≡◌, refl, sym, ap, ◌∙◌, Bool, true, false, ◌||◌, Option, List, [],
  ◌∷◌, ◌++◌, lt→ltb, ◌==◌, if◌then◌else◌, arith,
}
use os_modules.Prelude.Array.{Array}
use os_modules.Prelude.Text.{length, length-append}
use os_modules.Prelude.Result.{Result, ok, fault, null_pointer, ◌>>=◌}
use os_modules.Server.Tokens.{split}
use os_modules.Shell.Tokens.{max_num_tokens, all_short, tokenize, tokenize-eq-split}
use os_modules.Shell.Commands.{Word, max_bg_procs, amp, Builder, make_cmds, view}
use os_modules.Shell.Groups.{groups, last_type, LacksAmp}
use os_modules.Shell.Cut.{make_cmds-eq-groups}
use os_modules.Shell.Alias.{LacksSeparators, make_cmds-alias}
use os_modules.Shell.Os.{prompt, Os, Shell, Ending, running, if_running}
use os_modules.Shell.Execute.{execute_cmd}
use os_modules.Shell.Main.{max_input_size, run_cmds, run_line}

-- The types whose commands run in the background.
abbrev pub background : (cmd_type : ℕ) → Bool
background cmd_type = cmd_type == 1 || cmd_type == 3

-- What fits the buffers of `main`, `tokenize` and `make_cmds`.
abbrev pub Fits : (line : List ℕ) → Type 0
Fits line =
    (suc (length line) < max_input_size)
    × (all_short (split [] line) ≡ true)
    × (length (split [] line) < max_num_tokens)

if_same : (b : Bool) → (if b then true else b) ≡ b
if_same true = refl
if_same false = refl

if_self : (b : Bool) → (if b then true else false) ≡ b
if_self true = refl
if_self false = refl

module _ {World : Type 0} (os : Os World) where
  -- Commands one after the other.
  unfoldable pub run_all :
      (is_background : Bool) → (commands : List (List Word)) → Shell World → Result (Ending World)
  run_all is_background [] s = ok (running s)
  run_all is_background (words ∷ commands) s =
      execute_cmd os words is_background s >>= if_running (run_all is_background commands)

  run_cmds-run_all :
      (heap : Array (Array (Option Word))) (cmd_type : ℕ) (cmds : List ℕ) (is_background : Bool)
      → (if background cmd_type then true else is_background) ≡ background cmd_type
      → run_cmds os heap cmd_type cmds is_background
        ≡ run_all (background cmd_type) (map (view heap) cmds)
  unfolding run_cmds run_all
  run_cmds-run_all heap cmd_type [] is_background h = refl
  run_cmds-run_all heap cmd_type (p ∷ cmds) is_background h =
      let same : (if background cmd_type then true else background cmd_type) ≡ background cmd_type =
        if_same (background cmd_type) in
      ap
        (λ c (s : Shell World).
          execute_cmd os (view heap p) c s >>= if_running (run_cmds os heap cmd_type cmds c))
        h
      ∙ ap
          (λ rest (s : Shell World).
            execute_cmd os (view heap p) (background cmd_type) s >>= if_running rest)
          (run_cmds-run_all heap cmd_type cmds (background cmd_type) same)

  abbrev pub prompted : Shell World → Shell World
  prompted s = record s { world = os.print prompt s.world }

  run_line-run_all :
      (line : List ℕ) (s : Shell World) (b : Builder)
      → Fits line
      → make_cmds (split [] line) ≡ ok b
      → run_line os line s ≡ run_all (background b.cmd_type) (map (view b.heap) b.cmds) (prompted s)
  unfolding run_line
  run_line-run_all line s b (room, short, few) cuts =
      let tokens : tokenize (line ++ (b'\n' ∷ [])) ≡ ok (split [] line) =
        tokenize-eq-split line
        ∙ rw (short, lt→ltb (length (split [] line)) max_num_tokens few) refl in
      rw (lt→ltb (suc (length line)) max_input_size room, tokens, cuts)
        (ap (λ run. run (prompted s))
          (run_cmds-run_all b.heap b.cmd_type b.cmds false (if_self (background b.cmd_type))))

  -- For a line that fits the buffers and gives at most 63 commands, and has no token `&`, a line of the shell
  -- runs the words between the separators as commands one after the other, and all of them in the background
  -- exactly when the last separator is `&&&`.
  pub run_line-groups :
      (line : List ℕ) (s : Shell World)
      → Fits line
      → LacksAmp (split [] line)
      → length (groups [] (split [] line)) < max_bg_procs
      → run_line os line s
        ≡ run_all
            (background (last_type 0 (split [] line)))
            (groups [] (split [] line))
            (prompted s)
  run_line-groups line s fits lacks few =
      let (b, cuts, commands, kind) = make_cmds-eq-groups (split [] line) lacks fits.2 few in
      run_line-run_all line s b fits cuts
      ∙ ap₂ (λ k cs. run_all (background k) cs (prompted s)) kind commands

  -- For a line that fits the buffers, with a `&` between words `ws` and `ws'` and no other separator, the words
  -- before the `&` are not run, and those behind it are run twice in the background.
  pub run_line-alias :
      (line : List ℕ) (s : Shell World) (ws ws' : List Word)
      → Fits line
      → split [] line ≡ ws ++ (amp ∷ ws')
      → LacksSeparators ws
      → LacksSeparators ws'
      → run_line os line s ≡ run_all true (ws' ∷ ws' ∷ []) (prompted s)
  run_line-alias line s ws ws' fits tokens lacks lacks' =
      let (b, cuts, commands, kind) =
        make_cmds-alias ws ws' lacks lacks'
          (omega (arith, fits.2, ap length tokens, length-append ws (amp ∷ ws'))) in
      run_line-run_all line s b fits (ap make_cmds tokens ∙ cuts)
      ∙ ap₂ (λ k cs. run_all (background k) cs (prompted s)) kind commands

  -- The array of the words is closed a second time, at index 0.
  run_line-amp :
      (line : List ℕ) (s : Shell World) (ws : List Word)
      → Fits line
      → split [] line ≡ ws ++ (amp ∷ [])
      → LacksSeparators ws
      → run_line os line s ≡ fault null_pointer
  unfolding run_all execute_cmd
  run_line-amp line s ws fits tokens lacks = run_line-alias line s ws [] fits tokens lacks tt

  run_line-blank :
      (line : List ℕ) (s : Shell World)
      → Fits line
      → split [] line ≡ []
      → run_line os line s ≡ fault null_pointer
  unfolding run_all execute_cmd groups
  run_line-blank line s fits blank =
      let few : length (groups [] (split [] line)) ≡ 1 =
        ap (λ tokens. length (groups [] tokens)) blank in
      run_line-groups line s fits (subst LacksAmp (sym blank) tt) (omega arith)
      ∙ ap (λ tokens. run_all (background (last_type 0 tokens)) (groups [] tokens) (prompted s))
          blank

  -- A line that fits the buffers and has no tokens, or has words followed by a `&` and no other separator, makes
  -- the shell read NULL.
  run_line-null_pointer :
      (line : List ℕ) (s : Shell World)
      → Fits line
      → (split [] line ≡ [])
        ⊎ ((ws : List Word) × (split [] line ≡ ws ++ (amp ∷ [])) × LacksSeparators ws)
      → run_line os line s ≡ fault null_pointer
  run_line-null_pointer line s fits (inl blank) = run_line-blank line s fits blank
  run_line-null_pointer line s fits (inr (ws, tokens, lacks)) =
      run_line-amp line s ws fits tokens lacks
