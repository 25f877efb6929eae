-- ===== src/Sync/Handshake/Ends.antt =====
-- test-zem.c: what is printed, and that main comes to the joins.
use mathlib.Core.Path.{subst}
use os_modules.Prelude.{
  ℕ, zero, suc, ◌+◌, ◌*◌, ◌/◌, ◌≤◌, ◌<◌, ◌≡◌, ◌≢◌, ◌⊎◌, refl, sym, ap, ◌∙◌, inl, inr, arith,
}
use os_modules.Prelude.Array.{Array, update}
use os_modules.Sync.Zemaphore.{zem_waits}
use os_modules.Sync.Handshake.{
  num_threads, at_join, ThreadPc, at_down, asleep, at_print, at_up, over, State, main_prints,
  main_ups, main_downs, Signal, to_one, to_none, thread_downs, thread_prints, thread_ups, Act,
  act_main_prints, act_main_ups, act_main_downs, act_downs, act_prints, act_ups, Reach,
}
use os_modules.Sync.Handshake.Invariant.{
  Phase, printing, upping, offered, prints, ups, answered, joined, steps_in, said, log, Inv,
  IsNew-cases,
}
use os_modules.Sync.Handshake.Order.{Reach-AtPhase}

-- The number of lines_after after `n` steps.
abbrev pub lines_after : (n : ℕ) → ℕ
lines_after n = (n + 5) / 6 + (n + 2) / 6

said-lines_after : (p : Phase) (k n : ℕ) → n ≡ 6 * k + steps_in p → 2 * k + said p ≡ lines_after n
said-lines_after printing k n e = omega arith
said-lines_after upping k n e = omega arith
said-lines_after offered k n e = omega arith
said-lines_after prints k n e = omega arith
said-lines_after ups k n e = omega arith
said-lines_after answered k n e = omega arith
said-lines_after joined k n e = omega arith

-- Main is at the joins, and both threads have printed and are at their end.
abbrev pub Joined : (who : Array ℕ) → State → Type 0
Joined who s =
    (s.main_pc ≡ at_join) × (who 0 ≢ who 1) × ((i : ℕ) → i < num_threads → s.thread i ≡ over)

joined-Joined : (s : State) (who : Array ℕ) → Inv s who num_threads joined → Joined who s
joined-Joined s who inv = (inv.main_at.0, distinct, all_over)
  where
    distinct : who 0 ≢ who 1
    distinct = (inv.threads 1 (omega arith)).1 0 (omega arith)

    all_over : (i : ℕ) → i < num_threads → s.thread i ≡ over
    all_over i lt = elim (IsNew-cases who num_threads i) [
      | inr (j, h, e) ↦ ap s.thread (sym e) ∙ inv.overs j h
      | inl new ↦ absurd (
          omega (
            arith,
            distinct,
            (inv.threads 0 (omega arith)).0,
            (inv.threads 1 (omega arith)).0,
            new 0 (omega arith),
            new 1 (omega arith),
          ))
    ]

asleep-cases : (q : ThreadPc) → (q ≡ asleep) ⊎ (q ≢ asleep)
asleep-cases asleep = inl refl
asleep-cases at_down = inr λ e. cc
asleep-cases at_print = inr λ e. cc
asleep-cases at_up = inr λ e. cc
asleep-cases over = inr λ e. cc

-- The signal can be given in any state.
some-Signal : (t : Array ThreadPc) → (t' : Array ThreadPc) × Signal t t'
some-Signal t = elim (asleep-cases (t 0)) [
  | inl e ↦ (update t 0 at_down, to_one 0 (omega arith) e refl)
  | inr ne ↦ elim (asleep-cases (t 1)) [
    | inl e ↦ (update t 1 at_down, to_one 1 (omega arith) e refl)
    | inr ne' ↦ (t, to_none (none ne ne') refl)
  ]
]
  where
    none : t 0 ≢ asleep → t 1 ≢ asleep → (i : ℕ) → i < num_threads → t i ≢ asleep
    none ne ne' zero lt = ne
    none ne ne' (suc zero) lt = ne'
    none ne ne' (suc (suc i)) lt = absurd (omega arith)

-- Before the joins some step is possible.
goes_on :
    (s : State) (who : Array ℕ) (k : ℕ) (p : Phase)
    → Inv s who k p
    → p ≢ joined
    → (s' : State) × Act s s'
unfolding zem_waits
goes_on s who k printing inv ne = (main_prints k s, act_main_prints k inv.main_at)
goes_on s who k upping inv ne =
    let (thread, signal) = some-Signal s.thread in
    (main_ups k thread s, act_main_ups k thread inv.main_at signal)
goes_on s who k offered inv ne =
    let (i, lt, new, at) = inv.awake refl in
    (thread_downs i s, act_downs i lt at (ground (arith, inv.child_eq)))
goes_on s who k prints inv ne =
    (thread_prints (who k) s, act_prints (who k) (inv.threads k (omega arith)).0 inv.last_at)
goes_on s who k ups inv ne =
    (thread_ups (who k) s, act_ups (who k) (inv.threads k (omega arith)).0 inv.last_at)
goes_on s who k answered inv ne =
    (main_downs k s, act_main_downs k inv.main_at (ground (arith, inv.parent_eq)))
goes_on s who k joined inv ne = absurd (ne refl)

-- A reachable state is reached after at most 13 steps of main and of threads that go on. Main has printed first, then one
-- thread, main, the other thread and main, as far as the number of steps gives. After 13 steps main is at the
-- joins and both threads are at their end, and before some step is possible.
pub Reach-handshake :
    {n : ℕ} {s : State}
    → Reach n s
    → (who : Array ℕ) × (s.printed ≡ log who (lines_after n))
      × (n ≤ 13)
      × (((n ≡ 13) × Joined who s) ⊎ ((n < 13) × (s' : State) × Act s s'))
Reach-handshake {n} {s} r = let a = Reach-AtPhase r in at_phase a.who a.round a.phase a.inv a.steps
  where
    at_phase :
        (who : Array ℕ) (k : ℕ) (p : Phase)
        → Inv s who k p
        → n ≡ 6 * k + steps_in p
        → (who : Array ℕ) × (s.printed ≡ log who (lines_after n))
          × (n ≤ 13)
          × (((n ≡ 13) × Joined who s) ⊎ ((n < 13) × (s' : State) × Act s s'))
    at_phase who k joined inv e =
        let two = inv.main_at.1 in
        (
          who,
          inv.printed_eq ∙ ap (log who) (said-lines_after joined k n e),
          omega (arith, two),
          inl (omega (arith, two), joined-Joined s who (subst (λ k. Inv s who k joined) two inv)),
        )
    at_phase who k p inv e = (
      who,
      inv.printed_eq ∙ ap (log who) (said-lines_after p k n e),
      omega (arith, inv.bound),
      (let (s', step) = goes_on s who k p inv (λ e. cc) in
          inr (omega (arith, inv.bound), s', step)),
    )
