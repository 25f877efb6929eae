-- ===== src/Sync/Turns/Moves.antt =====
-- zemaphore_exercise.c: every step keeps what holds, and hands the turn on.
use os_modules.Prelude.{
  ℕ, suc, ◌+◌, ◌-◌, ◌/◌, ◌%◌, ◌<◌, ◌≡◌, ◌≢◌, refl, sym, ap, ◌∙◌, [], ◌∷◌, ◌++◌, inl, inr,
  ℕ_discrete, arith,
}
use mathlib.Core.Path.{subst}
use os_modules.Prelude.Array.{update_at, update, update_self, update_ne}
use os_modules.Sync.Zemaphore.{zem_waits, zem_down, zem_up}
use os_modules.Sync.Turns.{
  num_threads, num_iter, Pc, at_down, asleep, at_print, at_up, State, successor, wake, downs,
  prints, ups, moves, Idle, sleeps, wakes,
}
use os_modules.Sync.Turns.Invariant.{
  Phase, free, printing, upping, point, tokens, turns, Waits, Waits-at_print, Waits-at_up, Turn,
}

-- The other threads, when the thread whose turn it is has moved.
others-update :
    (s : State) (k : ℕ) (q : Pc)
    → ((t : ℕ) → t < num_threads → t ≢ k → Waits (s.pc t))
    → (t : ℕ) → t < num_threads
    → t ≢ k
    → Waits (update s.pc k q t)
others-update s k q waits t lt ne = rw (update_ne s.pc k t q (λ e. ne (sym e))) (waits t lt ne)

-- Those that wait, likewise.
sleepers-update :
    (s : State) (k : ℕ) (q : Pc)
    → (q ≡ asleep → s.iterations k < num_iter)
    → ((t : ℕ) → t < num_threads → s.pc t ≡ asleep → s.iterations t < num_iter)
    → (t : ℕ) → t < num_threads
    → update s.pc k q t ≡ asleep
    → s.iterations t < num_iter
sleepers-update s k q new old t lt =
    update_at (λ p. p ≡ asleep → s.iterations t < num_iter) s.pc k t
      (λ e at. subst (λ j. s.iterations j < num_iter) e (new at)) (λ no. old t lt)

pub downs-Turn :
    (s : State) (c : ℕ)
    → s.iterations (c % num_threads) < num_iter
    → Turn s c free
    → Turn (downs (c % num_threads) s) c printing
unfolding downs zem_down
downs-Turn s c more r =
    let k = c % num_threads in
    record {
      mine = update_self s.pc k at_print;
      others = others-update s k at_print r.others;
      my_sem =
          ap (λ z. z.accesses) (update_self s.sems k (zem_down (s.sems k)))
          ∙ omega (arith, r.my_sem);
      other_sems = λ t lt ne.
          ap (λ z. z.accesses) (update_ne s.sems k t _ (λ e. ne (sym e))) ∙ r.other_sems t lt ne;
      iterations_eq = r.iterations_eq;
      printed_eq = r.printed_eq;
      sleepers = sleepers-update s k at_print (λ e. cc) r.sleepers;
      bound = omega (arith, more, r.iterations_eq k (omega arith));
    }

pub prints-Turn :
    (s : State) (c : ℕ) → Turn s c printing → Turn (prints (c % num_threads) s) c upping
unfolding prints turns
prints-Turn s c r =
    let k = c % num_threads in
    let before : c + 0 ≡ c = omega arith in
    let after : suc c ≡ c + 1 = omega arith in
    record {
      mine = update_self s.pc k at_up;
      others = others-update s k at_up r.others;
      my_sem = r.my_sem;
      other_sems = r.other_sems;
      iterations_eq = r.iterations_eq;
      printed_eq =
          ap (λ l. l ++ (k ∷ [])) r.printed_eq
          ∙ (ap (λ n. turns n ++ (k ∷ [])) before ∙ ap turns after);
      sleepers = sleepers-update s k at_up (λ e. cc) r.sleepers;
      bound = r.bound;
    }

wake-Waits : (q : Pc) → Waits q → wake q ≡ at_down
unfolding wake
wake-Waits at_down h = refl
wake-Waits asleep h = refl
wake-Waits at_print h = absurd (Waits-at_print h)
wake-Waits at_up h = absurd (Waits-at_up h)

successor_mod : (c : ℕ) → successor (c % num_threads) ≡ (c + 1) % num_threads
unfolding successor
successor_mod c = ground arith

pub ups-Turn : (s : State) (c : ℕ) → Turn s c upping → Turn (ups (c % num_threads) s) (c + 1) free
unfolding ups zem_up
ups-Turn s c r =
    let k = c % num_threads in
    let k' = (c + 1) % num_threads in
    let awake : wake (s.pc k') ≡ at_down =
      wake-Waits (s.pc k') (r.others k' (omega arith) (omega arith)) in
    let unused : (t : ℕ) → t < num_threads → (s.sems t).accesses ≡ 0 = λ t lt.
      elim (ℕ_discrete t k) [
        | yes e ↦ ap (λ j. (s.sems j).accesses) e ∙ r.my_sem
        | no ne ↦ r.other_sems t lt ne
      ] in
    rw (successor_mod c) (record {
      mine = update_self (update s.pc k at_down) k' (wake (s.pc k')) ∙ awake;
      others = λ t lt ne.
          rw (update_ne (update s.pc k at_down) k' t (wake (s.pc k')) (λ e. ne (sym e)))
            (update_at Waits s.pc k t (λ e. inl refl) (λ no. r.others t lt (λ e. no (sym e))));
      my_sem =
          ap (λ z. z.accesses) (update_self s.sems k' (zem_up (s.sems k')))
          ∙ omega (arith, unused k' (omega arith));
      other_sems = λ t lt ne.
          ap (λ z. z.accesses) (update_ne s.sems k' t (zem_up (s.sems k')) (λ e. ne (sym e)))
          ∙ unused t lt;
      iterations_eq = λ t lt.
          update_at (λ m. m ≡ (c + 1 + 2 - t) / num_threads) s.iterations k t
            (λ e. omega (arith, e, r.iterations_eq k (omega arith)))
            (λ no. omega (arith, no, lt, r.iterations_eq t lt));
      printed_eq = r.printed_eq ∙ ap turns (omega arith);
      sleepers = λ t lt.
          let Still : Pc → Type 0 =
            λ q. q ≡ asleep → update s.iterations k (s.iterations k + 1) t < num_iter in
          update_at Still (update s.pc k at_down) k' t (λ e at. absurd (cc (awake, at)))
            (λ no.
              update_at Still s.pc k t (λ e at. cc)
                (λ no' at.
                  rw (update_ne s.iterations k t (s.iterations k + 1) no') (r.sleepers t lt at)));
      bound = omega (arith, r.bound);
    })

moves-Turn :
    (s : State) (c : ℕ) (p : Phase) (t : ℕ) (q : Pc)
    → t ≢ c % num_threads
    → Waits q
    → (q ≡ asleep → s.iterations t < num_iter)
    → Turn s c p
    → Turn (moves t q s) c p
unfolding moves
moves-Turn s c p t q ne waits more r = record {
  mine = update_ne s.pc t (c % num_threads) q ne ∙ r.mine;
  others = λ t' lt ne'. update_at Waits s.pc t t' (λ e. waits) (λ no. r.others t' lt ne');
  my_sem = r.my_sem;
  other_sems = r.other_sems;
  iterations_eq = r.iterations_eq;
  printed_eq = r.printed_eq;
  sleepers = sleepers-update s t q more r.sleepers;
  bound = r.bound;
}

point-at_down : (p : Phase) → point p ≡ at_down → p ≡ free
point-at_down free e = refl
point-at_down printing e = cc
point-at_down upping e = cc

point-asleep : (p : Phase) → point p ≢ asleep
point-asleep free e = cc
point-asleep printing e = cc
point-asleep upping e = cc

pub Idle-Turn : {s s' : State} (c : ℕ) (p : Phase) → Idle s s' → Turn s c p → Turn s' c p
unfolding zem_waits
Idle-Turn {s} c p (sleeps t lt at more waits) r =
    moves-Turn s c p t asleep other (inr refl) (λ e. more) r
  where
    other : t ≢ c % num_threads
    other e =
        let is_free = point-at_down p (sym r.mine ∙ (ap s.pc (sym e) ∙ at)) in
        let held : (s.sems t).accesses ≡ 1 =
          ap (λ k. (s.sems k).accesses) e ∙ (r.my_sem ∙ ap tokens is_free) in
        ground (arith, waits, held)
Idle-Turn {s} c p (wakes t lt at) r =
    moves-Turn s c p t at_down (λ e. point-asleep p (sym r.mine ∙ (ap s.pc (sym e) ∙ at)))
      (inl refl) (λ e. cc) r
