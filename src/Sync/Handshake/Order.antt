-- ===== src/Sync/Handshake/Order.antt =====
-- test-zem.c: the order of what is printed, and that main comes to the joins.
use mathlib.Core.Path.{subst}
use os_modules.Prelude.{ℕ, ◌+◌, ◌*◌, ◌<◌, ◌≡◌, refl, ap, ℕ_discrete, arith}
use os_modules.Prelude.Array.{Array, update}
use os_modules.Sync.Zemaphore.{zem_waits}
use os_modules.Sync.Handshake.{
  num_threads, to_print, to_up, at_print, at_up, State, main_prints, Act, act_main_prints,
  act_main_ups, act_main_downs, act_downs, act_prints, act_ups, Reach, begin, act, idle,
}
use os_modules.Sync.Handshake.Invariant.{
  Phase, printing, upping, offered, prints, ups, answered, joined, steps_in, offer, answer, passed,
  MainAt, LastAt, Waits-at_print, Waits-at_up, Inv, start-Inv, busy-last,
}
use os_modules.Sync.Handshake.Moves.{
  prints-upping, prints-joined, main_ups-Inv, main_downs-Inv, thread_downs-Inv,
}
use os_modules.Sync.Handshake.Threads.{thread_prints-Inv, thread_ups-Inv, Idle-Inv}

at_to_print : (p : Phase) (k j : ℕ) → MainAt p k (to_print j) → (p ≡ printing) × (j ≡ k)
at_to_print printing k j at = (refl, cc)
at_to_print upping k j at = absurd cc
at_to_print offered k j at = ground arith
at_to_print prints k j at = ground arith
at_to_print ups k j at = ground arith
at_to_print answered k j at = absurd cc
at_to_print joined k j at = absurd (cc (at.0))

at_to_up : (p : Phase) (k j : ℕ) → MainAt p k (to_up j) → (p ≡ upping) × (j ≡ k)
at_to_up printing k j at = absurd cc
at_to_up upping k j at = (refl, cc)
at_to_up offered k j at = ground arith
at_to_up prints k j at = ground arith
at_to_up ups k j at = ground arith
at_to_up answered k j at = absurd cc
at_to_up joined k j at = absurd (cc (at.0))

answer-answered : (p : Phase) → 0 < answer p → p ≡ answered
answer-answered p h = ground arith

offer-offered : (p : Phase) → 0 < offer p → p ≡ offered
offer-offered p h = ground arith

last-prints : (p : Phase) → passed p ≡ 1 → LastAt p at_print → p ≡ prints
last-prints p h at = ground arith

last-ups : (p : Phase) → passed p ≡ 1 → LastAt p at_up → p ≡ ups
last-ups p h at = ground arith

-- The phase of a state that is reached after `n` steps.
pub record AtPhase (n : ℕ) (s : State) : Type 0 where
  pub who : Array ℕ
  pub round : ℕ
  pub phase : Phase
  pub inv : Inv s who round phase
  pub steps : n ≡ 6 * round + steps_in phase

main_prints-AtPhase :
    (n : ℕ) (s : State) (j : ℕ)
    → s.main_pc ≡ to_print j
    → AtPhase n s
    → AtPhase (n + 1) (main_prints j s)
main_prints-AtPhase n s j at a =
    let (is_printing, same) =
      at_to_print a.phase a.round j (subst (MainAt a.phase a.round) at a.inv.main_at) in
    let inv : Inv s a.who a.round printing = subst (Inv s a.who a.round) is_printing a.inv in
    let steps : n ≡ 6 * a.round = omega (arith, a.steps, ap steps_in is_printing) in
    rw same (elim (ℕ_discrete a.round num_threads) [
      | yes last ↦ record {
        who = a.who;
        round = a.round;
        phase = joined;
        inv = prints-joined inv last;
        steps = omega arith;
      }
      | no more ↦ record {
        who = a.who;
        round = a.round;
        phase = upping;
        inv = prints-upping inv (omega (arith, inv.bound));
        steps = omega arith;
      }
    ])

Act-AtPhase : {s s' : State} (n : ℕ) → Act s s' → AtPhase n s → AtPhase (n + 1) s'
unfolding zem_waits
Act-AtPhase {s} n (act_main_prints j at) a = main_prints-AtPhase n s j at a
Act-AtPhase {s} n (act_main_ups j thread at signal) a =
    let (is_upping, same) =
      at_to_up a.phase a.round j (subst (MainAt a.phase a.round) at a.inv.main_at) in
    rw same (record {
      who = a.who;
      round = a.round;
      phase = offered;
      inv = main_ups-Inv (subst (Inv s a.who a.round) is_upping a.inv) signal;
      steps = omega (arith, a.steps, ap steps_in is_upping);
    })
Act-AtPhase {s} n (act_main_downs j at goes) a =
    let is_answered = answer-answered a.phase (ground (arith, goes, a.inv.parent_eq)) in
    let inv : Inv s a.who a.round answered = subst (Inv s a.who a.round) is_answered a.inv in
    let same : j ≡ a.round = cc (at, inv.main_at) in
    rw same (record {
      who = a.who;
      round = a.round + 1;
      phase = printing;
      inv = main_downs-Inv inv;
      steps = omega (arith, a.steps, ap steps_in is_answered);
    })
Act-AtPhase {s} n (act_downs i lt at goes) a =
    let is_offered = offer-offered a.phase (ground (arith, goes, a.inv.child_eq)) in
    record {
      who = update a.who a.round i;
      round = a.round;
      phase = prints;
      inv = thread_downs-Inv i lt at (subst (Inv s a.who a.round) is_offered a.inv);
      steps = omega (arith, a.steps, ap steps_in is_offered);
    }
Act-AtPhase {s} n (act_prints i lt at) a =
    let (mine, here, one) = busy-last a.inv i lt at Waits-at_print (λ e. cc) in
    let is_prints = last-prints a.phase one (subst (LastAt a.phase) here a.inv.last_at) in
    rw mine (record {
      who = a.who;
      round = a.round;
      phase = ups;
      inv = thread_prints-Inv (subst (Inv s a.who a.round) is_prints a.inv);
      steps = omega (arith, a.steps, ap steps_in is_prints);
    })
Act-AtPhase {s} n (act_ups i lt at) a =
    let (mine, here, one) = busy-last a.inv i lt at Waits-at_up (λ e. cc) in
    let is_ups = last-ups a.phase one (subst (LastAt a.phase) here a.inv.last_at) in
    rw mine (record {
      who = a.who;
      round = a.round;
      phase = answered;
      inv = thread_ups-Inv (subst (Inv s a.who a.round) is_ups a.inv);
      steps = omega (arith, a.steps, ap steps_in is_ups);
    })

pub Reach-AtPhase : {n : ℕ} {s : State} → Reach n s → AtPhase n s
Reach-AtPhase begin = record {
  who = λ j. 0;
  round = 0;
  phase = printing;
  inv = start-Inv (λ j. 0);
  steps = refl;
}
Reach-AtPhase (act {n} r a) = Act-AtPhase n a (Reach-AtPhase r)
Reach-AtPhase (idle r i) =
    let a = Reach-AtPhase r in
    record {
      who = a.who;
      round = a.round;
      phase = a.phase;
      inv = Idle-Inv a.phase i a.inv;
      steps = a.steps;
    }
