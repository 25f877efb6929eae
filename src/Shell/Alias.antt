-- ===== src/Shell/Alias.antt =====
-- my_shell.c: a line with `&`, behind which `make_cmds` goes on in the same array.
use mathlib.Core.List.{map, append_assoc, append-nil}
use os_modules.Prelude.{
  ℕ, ◌+◌, ◌<◌, ◌≡◌, refl, sym, ap, ◌∙◌, none, some, List, [], ◌∷◌, ◌++◌, lt→ltb, arith,
}
use os_modules.Prelude.Array.{update, update_self}
use os_modules.Prelude.Text.{length, length-snoc, same_string}
use os_modules.Prelude.Result.{Result, fault, ok, ◌>>=◌}
use os_modules.Shell.Tokens.{max_num_tokens}
use os_modules.Shell.Commands.{
  Word, max_bg_procs, amp, separator, Builder, put, push, next_command, add_token, make_loop,
  start_builder, make_cmds, view,
}
use os_modules.Shell.Groups.{Prefix, Prefix-update, Prefix-snoc, closed, closed-last}
use os_modules.Shell.Cut.{extended, add_token-extended, end_of_cmds}

-- The words of one command.
abbrev pub LacksSeparators : List Word → Type 0
LacksSeparators [] = Unit
LacksSeparators (t ∷ tokens) = (separator t ≡ none) × LacksSeparators tokens

make_loop-append :
    (xs ys : List Word) (b : Builder) → make_loop (xs ++ ys) b ≡ (make_loop xs b >>= make_loop ys)
unfolding make_loop
make_loop-append [] ys b = refl
make_loop-append (x ∷ xs) ys b = go (add_token x (separator x) b) (λ b'. make_loop-append xs ys b')
  where
    go :
        (r : Result Builder)
        → ((b' : Builder) → make_loop (xs ++ ys) b' ≡ (make_loop xs b' >>= make_loop ys))
        → (r >>= make_loop (xs ++ ys)) ≡ ((r >>= make_loop xs) >>= make_loop ys)
    go (fault e) rest = refl
    go (ok b') rest = rest b'

module _ (cmd kind : ℕ) (cmds : List ℕ) where
  -- The present command has the words `cur`; its array and the commands before it are given.
  Writing : Builder → (cur : List Word) → Type 0
  Writing b cur =
      (b.cmd ≡ cmd)
      × (b.cmds ≡ cmds)
      × (b.cmd_type ≡ kind)
      × (b.cmd_itr ≡ length cur)
      × Prefix (b.heap b.cmd) 0 cur

  extended-Writing :
      (b : Builder) (cur : List Word) (t : Word)
      → Writing b cur
      → Writing (extended b t) (cur ++ (t ∷ []))
  unfolding Writing extended
  extended-Writing b cur t (e, e', k, itr_eq, holds) =
      let a = update (b.heap b.cmd) b.cmd_itr (some t) in
      let here : update b.heap b.cmd a b.cmd ≡ a = update_self b.heap b.cmd a in
      let kept : Prefix a 0 cur =
        Prefix-update (b.heap b.cmd) 0 b.cmd_itr (some t) cur (omega arith) holds in
      let new : a (0 + length cur) ≡ some t =
        ap a (omega arith) ∙ update_self (b.heap b.cmd) b.cmd_itr (some t) in
      (e, e', k, omega (arith, length-snoc cur t), rw here (Prefix-snoc a 0 cur t kept new))

  -- Words are written behind one another.
  make_loop-words :
      (ws : List Word) (b : Builder) (cur : List Word)
      → LacksSeparators ws
      → Writing b cur
      → length cur + length ws < max_num_tokens
      → (b' : Builder) × (make_loop ws b ≡ ok b') × Writing b' (cur ++ ws)
  unfolding make_loop Writing
  make_loop-words [] b cur lacks w h = (b, refl, rw (append-nil cur) w)
  make_loop-words (t ∷ ws) b cur (word, lacks) w h =
      let itr_eq : b.cmd_itr ≡ length cur = w.3 in
      let (b', runs, w') =
        make_loop-words ws (extended b t) (cur ++ (t ∷ [])) lacks (extended-Writing b cur t w)
          (omega (arith, length-snoc cur t)) in
      (
        b',
        rw (word, add_token-extended b t (omega arith)) runs,
        rw (sym (append_assoc cur (t ∷ []) ws)) w',
      )

separator-amp : separator amp ≡ some 1
unfolding separator same_string
separator-amp = refl

-- The state behind a `&`.
same_array : Builder → Builder
unfolding closed
same_array b = record (closed b) { cmd_itr = 0; cmd_type = 1 }

add_token-amp :
    (b : Builder)
    → b.cmd_itr < max_num_tokens
    → length b.cmds < max_bg_procs
    → add_token amp (some 1) b ≡ ok (same_array b)
unfolding add_token put push next_command closed same_array
add_token-amp b h h' =
    rw (lt→ltb b.cmd_itr max_num_tokens h, lt→ltb (length b.cmds) max_bg_procs h') refl

same_array-Writing :
    (b : Builder) (ws : List Word) → Writing 0 0 [] b ws → Writing 0 1 (0 ∷ []) (same_array b) []
unfolding Writing same_array closed
same_array-Writing b ws (e, e', k, itr_eq, holds) = (e, rw (e, e') refl, refl, refl, tt)

make_loop-amp :
    (ws ws' : List Word) {b b' : Builder}
    → make_loop ws start_builder ≡ ok b
    → b.cmd_itr < max_num_tokens
    → length b.cmds < max_bg_procs
    → make_loop ws' (same_array b) ≡ ok b'
    → make_loop (ws ++ (amp ∷ ws')) start_builder ≡ ok b'
unfolding make_loop
make_loop-amp ws ws' {b} runs h h' runs' =
    let token : add_token amp (separator amp) b ≡ ok (same_array b) =
      ap (λ k. add_token amp k b) separator-amp ∙ add_token-amp b h h' in
    make_loop-append ws (amp ∷ ws') start_builder
    ∙ (ap (λ r. r >>= make_loop (amp ∷ ws')) runs ∙ (ap (λ r. r >>= make_loop ws') token ∙ runs'))

-- Both commands are the present array.
closed-alias :
    (b : Builder) (ws : List Word)
    → Writing 0 1 (0 ∷ []) b ws
    → length ws < max_num_tokens
    → map (view (closed b).heap) (closed b).cmds ≡ ws ∷ ws ∷ []
unfolding Writing closed
closed-alias b ws (e, e', k, itr_eq, holds) h =
    let last = closed-last b ws itr_eq holds h in
    let pointers : b.cmds ++ (b.cmd ∷ []) ≡ b.cmd ∷ b.cmd ∷ [] =
      ap (λ l. l ++ (b.cmd ∷ [])) e' ∙ ap (λ p. p ∷ b.cmd ∷ []) (sym e) in
    ap (map (view (closed b).heap)) pointers ∙ ap (λ l. l ∷ l ∷ []) last

-- For a line with one separator, a `&`, and at most 63 words, `make_cmds` returns two commands, and both have
-- the words behind the `&`: the words before it are lost, since calloc is not called for a new array. The
-- type is 1.
pub make_cmds-alias :
    (ws ws' : List Word)
    → LacksSeparators ws
    → LacksSeparators ws'
    → length ws + length ws' < max_num_tokens
    → (b : Builder) × (make_cmds (ws ++ (amp ∷ ws')) ≡ ok b)
      × (map (view b.heap) b.cmds ≡ ws' ∷ ws' ∷ [])
      × (b.cmd_type ≡ 1)
unfolding Writing closed start_builder
make_cmds-alias ws ws' lacks lacks' h =
    let start : Writing 0 0 [] start_builder [] = (refl, refl, refl, refl, tt) in
    let (b, runs, w) = make_loop-words 0 0 [] ws start_builder [] lacks start (omega arith) in
    let (b', runs', w') =
      make_loop-words 0 1 (0 ∷ []) ws' (same_array b) [] lacks' (same_array-Writing b ws w)
        (omega arith) in
    let both =
      make_loop-amp ws ws' runs (omega (arith, w.3)) (omega (arith, ap length w.1)) runs' in
    (
      closed b',
      end_of_cmds (ws ++ (amp ∷ ws')) b' both (omega (arith, w'.3)) (omega (arith, ap length w'.1)),
      closed-alias b' ws' w' (omega arith),
      w'.2,
    )
