-- ===== src/Shell/Cut.antt =====
-- my_shell.c: the commands that `make_cmds` returns for a line with no `&`, and for one that ends in `&`.
use mathlib.Core.List.{map, append_assoc}
use mathlib.Core.Path.{subst₂}
use os_modules.Prelude.{
  ℕ, suc, ◌+◌, ◌<◌, ◌≡◌, ◌≢◌, refl, sym, ap, ◌∙◌, true, false, none, some, List, [], ◌∷◌, ◌++◌, inl,
  inr, Option-cases, Bool-cases, ltb, lt→ltb, ◌==◌, ==→eq, arith,
}
use os_modules.Prelude.Array.{update, update_self}
use os_modules.Prelude.Text.{length, length-snoc}
use os_modules.Prelude.Result.{ok}
use os_modules.Shell.Tokens.{max_num_tokens}
use os_modules.Shell.Commands.{
  Word, max_bg_procs, separator, Builder, calloc, put, push, next_command, add_token, make_loop,
  start_builder, make_cmds, view,
}
use os_modules.Shell.Groups.{
  groups, last_type, LacksAmp, AllBelow, AllBelow-le, AllBelow-snoc, Prefix, Prefix-update,
  Prefix-snoc, map-view-update, Ready, closed, closed-view,
}

-- A word at the end of the present command.
unfoldable pub extended : Builder → Word → Builder
extended b t = record b {
  heap = update b.heap b.cmd (update (b.heap b.cmd) b.cmd_itr (some t));
  cmd_itr = b.cmd_itr + 1;
}

pub add_token-extended :
    (b : Builder) (t : Word) → b.cmd_itr < max_num_tokens → add_token t none b ≡ ok (extended b t)
unfolding add_token put extended
add_token-extended b t h = rw (lt→ltb b.cmd_itr max_num_tokens h) refl

extended-Ready :
    (b : Builder) (cur : List Word) (done : List (List Word)) (t : Word)
    → Ready b cur done
    → Ready (extended b t) (cur ++ (t ∷ [])) done
unfolding extended
extended-Ready b cur done t r =
    let a = update (b.heap b.cmd) b.cmd_itr (some t) in
    let here : update b.heap b.cmd a b.cmd ≡ a = update_self b.heap b.cmd a in
    let kept : Prefix a 0 cur =
      Prefix-update (b.heap b.cmd) 0 b.cmd_itr (some t) cur (omega (arith, r.itr_eq)) r.holds in
    let new : a (0 + length cur) ≡ some t =
      ap a (omega (arith, r.itr_eq)) ∙ update_self (b.heap b.cmd) b.cmd_itr (some t) in
    record {
      below = r.below;
      next_eq = r.next_eq;
      itr_eq = omega (arith, r.itr_eq, length-snoc cur t);
      holds = rw here (Prefix-snoc a 0 cur t kept new);
      done_eq = map-view-update b.heap b.cmd a b.cmds r.below ∙ r.done_eq;
    }

-- A separator other than `&`.
add_token-closed :
    (b : Builder) (t : Word) (kind : ℕ)
    → b.cmd_itr < max_num_tokens
    → length b.cmds < max_bg_procs
    → add_token t (some kind) b ≡ ok (next_command kind (closed b))
unfolding add_token put push closed
add_token-closed b t kind h h' =
    rw (lt→ltb b.cmd_itr max_num_tokens h, lt→ltb (length b.cmds) max_bg_procs h') refl

next_command-Ready :
    (b : Builder) (cur : List Word) (done : List (List Word)) (kind : ℕ)
    → kind ≢ 1
    → length cur < max_num_tokens
    → Ready b cur done
    → Ready (next_command kind (closed b)) [] (done ++ (cur ∷ []))
unfolding next_command calloc closed
next_command-Ready b cur done kind ne h r =
    let a = update (b.heap b.cmd) b.cmd_itr none in
    let heap' = update b.heap b.cmd a in
    let other : (kind == 1) ≡ false = elim (Bool-cases (kind == 1)) [
      | inl is_amp ↦ absurd (ne (==→eq kind 1 is_amp))
      | inr differs ↦ differs
    ] in
    let below' : AllBelow b.next (b.cmds ++ (b.cmd ∷ [])) =
      AllBelow-snoc b.next b.cmds b.cmd
        (AllBelow-le b.cmd b.next b.cmds (omega (arith, r.next_eq)) r.below)
        (omega (arith, r.next_eq)) in
    let ready : Ready (calloc (record (closed b) { cmd_itr = 0; cmd_type = kind })) []
        (done ++ (cur ∷ [])) =
      record {
        below = below';
        next_eq = refl;
        itr_eq = refl;
        holds = tt;
        done_eq =
            map-view-update heap' b.next (λ _. none) (b.cmds ++ (b.cmd ∷ [])) below'
            ∙ closed-view b cur done r h;
      } in
    rw other ready

next_command-cmds : (kind : ℕ) (b : Builder) → (next_command kind b).cmds ≡ b.cmds
unfolding next_command calloc
next_command-cmds kind b = ground arith

next_command-cmd_type : (kind : ℕ) (b : Builder) → (next_command kind b).cmd_type ≡ kind
unfolding next_command calloc
next_command-cmd_type kind b = ground arith

-- The state at the end of the loop: the present command is the last one.
AtEnd : Builder → (found : List (List Word)) → (kind : ℕ) → Type 0
AtEnd b found kind =
    (cur : List Word) × (done : List (List Word)) × Ready b cur done
    × (done ++ (cur ∷ []) ≡ found)
    × (length cur < max_num_tokens)
    × (length b.cmds + 1 < max_bg_procs)
    × (b.cmd_type ≡ kind)

make_loop_lem :
    (tokens : List Word) (b : Builder) (cur : List Word) (done : List (List Word))
    → LacksAmp tokens
    → Ready b cur done
    → length cur + length tokens < max_num_tokens
    → length b.cmds + length (groups cur tokens) < max_bg_procs
    → (b' : Builder) × (make_loop tokens b ≡ ok b')
      × AtEnd b' (done ++ groups cur tokens) (last_type b.cmd_type tokens)
unfolding make_loop groups last_type AtEnd extended closed
make_loop_lem [] b cur done lacks r h h' =
    (b, refl, (cur, done, r, refl, omega arith, omega arith, refl))
make_loop_lem (t ∷ tokens) b cur done (ne, lacks) r h h' = elim (Option-cases (separator t)) [
  | inl word ↦
      let cut : groups cur (t ∷ tokens) ≡ groups (cur ++ (t ∷ [])) tokens =
        rw (groups, word) refl in
      let (b', runs, end) =
        make_loop_lem tokens (extended b t) (cur ++ (t ∷ [])) done lacks
          (extended-Ready b cur done t r) (omega (arith, length-snoc cur t))
          (omega (arith, ap length cut)) in
      let total : done ++ groups (cur ++ (t ∷ [])) tokens ≡ done ++ groups cur (t ∷ tokens) =
        ap (λ l. done ++ l) (sym cut) in
      let kept : last_type b.cmd_type tokens ≡ last_type b.cmd_type (t ∷ tokens) =
        rw (last_type, word) refl in
      let first = add_token-extended b t (omega (arith, r.itr_eq)) in
      (b', rw (word, first) runs, subst₂ (AtEnd b') total kept end)
  | inr (kind, sep) ↦
      let b₁ = next_command kind (closed b) in
      let cut : groups cur (t ∷ tokens) ≡ cur ∷ groups [] tokens = rw (groups, sep) refl in
      let count : length b₁.cmds ≡ suc (length b.cmds) =
        ap length (next_command-cmds kind (closed b)) ∙ length-snoc b.cmds b.cmd in
      let (b', runs, end) =
        make_loop_lem tokens b₁ [] (done ++ (cur ∷ [])) lacks
          (next_command-Ready b cur done kind (λ e. ne (sep ∙ ap some e)) (omega arith) r)
          (omega arith) (omega (arith, ap length cut, count)) in
      let total : (done ++ (cur ∷ [])) ++ groups [] tokens ≡ done ++ groups cur (t ∷ tokens) =
        append_assoc done (cur ∷ []) (groups [] tokens) ∙ ap (λ l. done ++ l) (sym cut) in
      let kept : last_type b₁.cmd_type tokens ≡ last_type b.cmd_type (t ∷ tokens) =
        rw (last_type, sep)
          (ap (λ k. last_type k tokens) (next_command-cmd_type kind (closed b))) in
      let first =
        add_token-closed b t kind (omega (arith, r.itr_eq)) (omega (arith, ap length cut)) in
      (b', rw (sep, first) runs, subst₂ (AtEnd b') total kept end)
]

pub start_builder-Ready : Ready start_builder [] []
unfolding start_builder
start_builder-Ready = record {
  below = tt;
  next_eq = refl;
  itr_eq = refl;
  holds = tt;
  done_eq = refl;
}

-- The end of `make_cmds`, in a state in which the loop ended.
pub end_of_cmds :
    (tokens : List Word) (b : Builder)
    → make_loop tokens start_builder ≡ ok b
    → b.cmd_itr < max_num_tokens
    → length b.cmds + 1 < max_bg_procs
    → make_cmds tokens ≡ ok (closed b)
unfolding make_cmds put push closed
end_of_cmds tokens b runs h h' =
    let room = lt→ltb (length b.cmds) max_bg_procs (omega arith) in
    let room' : ltb (length (b.cmds ++ (b.cmd ∷ []))) max_bg_procs ≡ true =
      ground (arith, length-snoc b.cmds b.cmd) in
    rw (runs, lt→ltb b.cmd_itr max_num_tokens h, room, room') refl

-- When no token of a line is `&`, and there are at most 63 tokens and at most 63 commands, `make_cmds`
-- returns the tokens cut at `&&` and `&&&`, as NULL-terminated arrays, and sets the type of the last
-- separator.
pub make_cmds-eq-groups :
    (tokens : List Word)
    → LacksAmp tokens
    → length tokens < max_num_tokens
    → length (groups [] tokens) < max_bg_procs
    → (b : Builder) × (make_cmds tokens ≡ ok b)
      × (map (view b.heap) b.cmds ≡ groups [] tokens)
      × (b.cmd_type ≡ last_type 0 tokens)
unfolding AtEnd start_builder closed
make_cmds-eq-groups tokens lacks h h' =
    let (b, runs, (cur, done, r, cut, short, few, kind)) =
      make_loop_lem tokens start_builder [] [] lacks start_builder-Ready (omega arith)
        (omega arith) in
    (
      closed b,
      end_of_cmds tokens b runs (omega (arith, r.itr_eq)) few,
      closed-view b cur done r short ∙ cut,
      kind,
    )
