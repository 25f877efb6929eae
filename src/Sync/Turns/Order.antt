-- ===== src/Sync/Turns/Order.antt =====
-- zemaphore_exercise.c: the order of what is printed, and that the threads go on to the end.
use mathlib.Core.Path.{subst}
use os_modules.Prelude.{
  ℕ, ◌+◌, ◌*◌, ◌/◌, ◌%◌, ◌≤◌, ◌<◌, ◌≡◌, refl, sym, ap, ◌∙◌, false, inl, inr, ◌⊎◌, ℕ_discrete,
  dec_lt, arith,
}
use os_modules.Sync.Zemaphore.{zem_waits}
use os_modules.Sync.Turns.{
  num_threads, num_iter, at_down, at_print, at_up, State, downs, prints, ups, Act, act_down,
  act_print, act_up, Reach, begin, act, idle,
}
use os_modules.Sync.Turns.Invariant.{
  Phase, free, printing, upping, point, steps_in, turns, Turn, start-Turn, at_down-mine, busy-mine,
  Waits-at_print, Waits-at_up,
}
use os_modules.Sync.Turns.Moves.{downs-Turn, prints-Turn, ups-Turn, Idle-Turn}

-- The turn of a state that is reached after `n` steps.
AtTurn : (n : ℕ) → State → Type 0
AtTurn n s = (c : ℕ) × (p : Phase) × Turn s c p × (n ≡ num_threads * c + steps_in p)

point-at_print : (p : Phase) → point p ≡ at_print → p ≡ printing
point-at_print free e = cc
point-at_print printing e = refl
point-at_print upping e = cc

point-at_up : (p : Phase) → point p ≡ at_up → p ≡ upping
point-at_up free e = cc
point-at_up printing e = cc
point-at_up upping e = refl

Act-AtTurn : {s s' : State} (n : ℕ) → Act s s' → AtTurn n s → AtTurn (n + 1) s'
unfolding AtTurn
Act-AtTurn {s} n (act_down t lt at more goes) (c, p, r, e) =
    let (mine, is_free) = at_down-mine s c p t r lt goes in
    let r' =
      downs-Turn s c (subst (λ k. s.iterations k < num_iter) mine more)
        (subst (Turn s c) is_free r) in
    (
      c,
      printing,
      subst (λ k. Turn (downs k s) c printing) (sym mine) r',
      omega (arith, e, ap steps_in is_free),
    )
Act-AtTurn {s} n (act_print t lt at) (c, p, r, e) =
    let (mine, where_it_is) = busy-mine s c p t r lt at Waits-at_print in
    let is_printing = point-at_print p where_it_is in
    let r' = prints-Turn s c (subst (Turn s c) is_printing r) in
    (
      c,
      upping,
      subst (λ k. Turn (prints k s) c upping) (sym mine) r',
      omega (arith, e, ap steps_in is_printing),
    )
Act-AtTurn {s} n (act_up t lt at) (c, p, r, e) =
    let (mine, where_it_is) = busy-mine s c p t r lt at Waits-at_up in
    let is_upping = point-at_up p where_it_is in
    let r' = ups-Turn s c (subst (Turn s c) is_upping r) in
    (
      c + 1,
      free,
      subst (λ k. Turn (ups k s) (c + 1) free) (sym mine) r',
      omega (arith, e, ap steps_in is_upping),
    )

Reach-AtTurn : {n : ℕ} {s : State} → Reach n s → AtTurn n s
unfolding AtTurn
Reach-AtTurn begin = (0, free, start-Turn, refl)
Reach-AtTurn (act {n} r a) = Act-AtTurn n a (Reach-AtTurn r)
Reach-AtTurn (idle r i) = let (c, p, t, e) = Reach-AtTurn r in (c, p, Idle-Turn c p i t, e)

-- In every reachable state the threads have printed 0, 1, 2, 0, 1, 2 and so on, one number for every three steps
-- of threads that go on.
pub Reach-turns : {n : ℕ} {s : State} → Reach n s → s.printed ≡ turns ((n + 1) / num_threads)
unfolding AtTurn
Reach-turns {n} {s} r = let (c, p, t, e) = Reach-AtTurn r in counted c p t e
  where
    counted :
        (c : ℕ) (p : Phase)
        → Turn s c p
        → n ≡ num_threads * c + steps_in p
        → s.printed ≡ turns ((n + 1) / num_threads)
    counted c free t e = t.printed_eq ∙ ap turns (omega arith)
    counted c printing t e = t.printed_eq ∙ ap turns (omega arith)
    counted c upping t e = t.printed_eq ∙ ap turns (omega arith)

-- All iterations are done, and no thread waits.
abbrev pub Finished : State → Type 0
Finished s = (t : ℕ) → t < num_threads → (s.iterations t ≡ num_iter) × (s.pc t ≡ at_down)

end-Finished : (s : State) → Turn s (num_threads * num_iter) free → Finished s
end-Finished s r t lt =
    let done : s.iterations t ≡ num_iter = omega (arith, lt, r.iterations_eq t lt) in
    let at_test : s.pc t ≡ at_down = elim (ℕ_discrete t 0) [
      | yes first ↦ ap s.pc first ∙ r.mine
      | no later ↦ elim (r.others t lt later) [
        | inl e ↦ e
        | inr e ↦ absurd (omega (arith, done, r.sleepers t lt e))
      ]
    ] in
    (done, at_test)

-- A reachable state is reached after at most 90 steps of threads that go on; after 90 all iterations are done
-- and no thread waits, and before some thread goes on.
pub Reach-ends :
    {n : ℕ} {s : State}
    → Reach n s
    → (n ≤ 90) × (((n ≡ 90) × Finished s) ⊎ ((n < 90) × (s' : State) × Act s s'))
unfolding AtTurn zem_waits
Reach-ends {n} {s} r = let (c, p, t, e) = Reach-AtTurn r in goes_on c p t e
  where
    goes_on :
        (c : ℕ) (p : Phase)
        → Turn s c p
        → n ≡ num_threads * c + steps_in p
        → (n ≤ 90) × (((n ≡ 90) × Finished s) ⊎ ((n < 90) × (s' : State) × Act s s'))
    goes_on c free t e = elim (dec_lt c 30) [
      | yes before ↦
          let k = c % num_threads in
          let more : s.iterations k < num_iter = omega (arith, t.iterations_eq k (omega arith)) in
          let goes : zem_waits (s.sems k) ≡ false = ground (arith, t.my_sem) in
          (omega arith, inr (omega arith, downs k s, act_down k (omega arith) t.mine more goes))
      | no at_end ↦
          let last : c ≡ 30 = omega (arith, t.bound) in
          (omega arith, inl (omega arith, end-Finished s (subst (λ c'. Turn s c' free) last t)))
    ]
    goes_on c printing t e =
        let k = c % num_threads in
        (
          omega (arith, t.bound),
          inr (omega (arith, t.bound), prints k s, act_print k (omega arith) t.mine),
        )
    goes_on c upping t e =
        let k = c % num_threads in
        (
          omega (arith, t.bound),
          inr (omega (arith, t.bound), ups k s, act_up k (omega arith) t.mine),
        )
