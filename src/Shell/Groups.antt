-- ===== src/Shell/Groups.antt =====
-- What `make_cmds` makes of the tokens of a line.
use mathlib.Core.List.{map, map-append}
use os_modules.Prelude.{
  ℕ, zero, suc, ◌+◌, ◌≤◌, ◌<◌, ◌≡◌, ◌≢◌, refl, ap, ◌∙◌, Option, none, some, List, [], ◌∷◌, ◌++◌,
  lt→ltb, arith,
}
use os_modules.Prelude.Array.{Array, update, update_self, update_ne}
use os_modules.Prelude.Text.{length}
use os_modules.Prelude.Result.{ok, ◌>>=◌}
use os_modules.Shell.Tokens.{max_num_tokens}
use os_modules.Shell.Commands.{Word, max_bg_procs, separator, Builder, put, push, words_of, view}

-- The tokens cut at the separators.
unfoldable pub groups : (cur tokens : List Word) → List (List Word)
groups cur [] = cur ∷ []
groups cur (t ∷ tokens) = elim (separator t) [
  | none ↦ groups (cur ++ (t ∷ [])) tokens
  | some kind ↦ cur ∷ groups [] tokens
]

-- The type that the last separator sets.
unfoldable pub last_type : (kind : ℕ) → (tokens : List Word) → ℕ
last_type kind [] = kind
last_type kind (t ∷ tokens) = elim (separator t) [
  | none ↦ last_type kind tokens
  | some kind' ↦ last_type kind' tokens
]

-- No token is `&`.
abbrev pub LacksAmp : List Word → Type 0
LacksAmp [] = Unit
LacksAmp (t ∷ tokens) = (separator t ≢ some 1) × LacksAmp tokens

abbrev pub AllBelow : ℕ → List ℕ → Type 0
AllBelow c [] = Unit
AllBelow c (p ∷ ps) = (p < c) × AllBelow c ps

-- The array holds the words from index `i` on.
abbrev pub Prefix : Array (Option Word) → (i : ℕ) → List Word → Type 0
Prefix a i [] = Unit
Prefix a i (w ∷ ws) = (a i ≡ some w) × Prefix a (i + 1) ws

pub Prefix-update :
    (a : Array (Option Word)) (i k : ℕ) (v : Option Word) (ws : List Word)
    → i + length ws ≤ k
    → Prefix a i ws
    → Prefix (update a k v) i ws
Prefix-update a i k v [] h p = tt
Prefix-update a i k v (w ∷ ws) h (e, p) =
    (update_ne a k i v (omega arith) ∙ e, Prefix-update a (i + 1) k v ws (omega arith) p)

pub Prefix-snoc :
    (a : Array (Option Word)) (i : ℕ) (ws : List Word) (w : Word)
    → Prefix a i ws
    → a (i + length ws) ≡ some w
    → Prefix a i (ws ++ (w ∷ []))
Prefix-snoc a i [] w p e = (ap a (omega arith) ∙ e, tt)
Prefix-snoc a i (v ∷ ws) w (e', p) e = (e', Prefix-snoc a (i + 1) ws w p (ap a (omega arith) ∙ e))

words_of-Prefix :
    (a : Array (Option Word)) (left i : ℕ) (ws : List Word)
    → length ws < left
    → Prefix a i ws
    → a (i + length ws) ≡ none
    → words_of a left i ≡ ws
unfolding words_of
words_of-Prefix a zero i ws h p e = absurd (omega arith)
words_of-Prefix a (suc left) i [] h p e =
    let at_i : a i ≡ none = ap a (omega arith) ∙ e in rw (words_of, at_i) refl
words_of-Prefix a (suc left) i (w ∷ ws) h (e', p) e =
    rw (words_of, e')
      (ap (λ r. w ∷ r) (words_of-Prefix a left (i + 1) ws (omega arith) p (ap a (omega arith) ∙ e)))

pub AllBelow-le : (c d : ℕ) (ps : List ℕ) → c ≤ d → AllBelow c ps → AllBelow d ps
AllBelow-le c d [] h b = tt
AllBelow-le c d (p ∷ ps) h (lt, b) = (omega arith, AllBelow-le c d ps h b)

pub AllBelow-snoc :
    (c : ℕ) (ps : List ℕ) (p : ℕ) → AllBelow c ps → p < c → AllBelow c (ps ++ (p ∷ []))
AllBelow-snoc c [] p b lt = (lt, tt)
AllBelow-snoc c (q ∷ ps) p (h, b) lt = (h, AllBelow-snoc c ps p b lt)

-- Writing the array `c` changes no command before it.
pub map-view-update :
    (heap : Array (Array (Option Word))) (c : ℕ) (a : Array (Option Word)) (ps : List ℕ)
    → AllBelow c ps
    → map (view (update heap c a)) ps ≡ map (view heap) ps
map-view-update heap c a [] b = refl
map-view-update heap c a (p ∷ ps) (lt, b) =
    let same : update heap c a p ≡ heap p = update_ne heap c p a (omega arith) in
    cc (ap (λ x. words_of x max_num_tokens 0) same, map-view-update heap c a ps b)

-- In the loop: `done` are the commands that are finished, and `cur` the words of the present one.
pub record Ready (b : Builder) (cur : List Word) (done : List (List Word)) : Type 0 where
  pub below : AllBelow b.cmd b.cmds
  pub next_eq : b.next ≡ b.cmd + 1
  pub itr_eq : b.cmd_itr ≡ length cur
  pub holds : Prefix (b.heap b.cmd) 0 cur
  pub done_eq : map (view b.heap) b.cmds ≡ done

-- Putting NULL behind the present command, and its pointer into the array.
unfoldable pub closed : Builder → Builder
closed b = record b {
  heap = update b.heap b.cmd (update (b.heap b.cmd) b.cmd_itr none);
  cmds = b.cmds ++ (b.cmd ∷ []);
}

pub put-push :
    (b : Builder)
    → b.cmd_itr < max_num_tokens
    → length b.cmds < max_bg_procs
    → (put none b >>= push) ≡ ok (closed b)
unfolding put push closed
put-push b h h' =
    rw (lt→ltb b.cmd_itr max_num_tokens h, lt→ltb (length b.cmds) max_bg_procs h') refl

-- The present command, once it is closed.
pub closed-last :
    (b : Builder) (cur : List Word)
    → b.cmd_itr ≡ length cur
    → Prefix (b.heap b.cmd) 0 cur
    → length cur < max_num_tokens
    → view (closed b).heap b.cmd ≡ cur
unfolding closed
closed-last b cur itr_eq holds h =
    let a = update (b.heap b.cmd) b.cmd_itr none in
    let end : a (0 + length cur) ≡ none =
      ap a (omega arith) ∙ update_self (b.heap b.cmd) b.cmd_itr none in
    ap (λ x. words_of x max_num_tokens 0) (update_self b.heap b.cmd a)
    ∙ words_of-Prefix a max_num_tokens 0 cur h
        (Prefix-update (b.heap b.cmd) 0 b.cmd_itr none cur (omega arith) holds) end

pub closed-view :
    (b : Builder) (cur : List Word) (done : List (List Word))
    → Ready b cur done
    → length cur < max_num_tokens
    → map (view (closed b).heap) (closed b).cmds ≡ done ++ (cur ∷ [])
unfolding closed
closed-view b cur done r h =
    let a = update (b.heap b.cmd) b.cmd_itr none in
    let last : view (update b.heap b.cmd a) b.cmd ≡ cur = closed-last b cur r.itr_eq r.holds h in
    map-append (view (update b.heap b.cmd a)) b.cmds (b.cmd ∷ [])
    ∙ cc (map-view-update b.heap b.cmd a b.cmds r.below, r.done_eq, last)
