-- ===== src/Sync/Turns/Invariant.antt =====
-- zemaphore_exercise.c: what holds in every reachable state.
use os_modules.Prelude.{
  ℕ, zero, suc, ◌+◌, ◌-◌, ◌*◌, ◌/◌, ◌%◌, ◌≤◌, ◌<◌, ◌≡◌, ◌≢◌, refl, sym, ap, ◌∙◌, false, List, [],
  ◌∷◌, ◌++◌, inl, inr, ◌⊎◌, ℕ_discrete, arith,
}
use mathlib.Core.Path.{subst}
use os_modules.Sync.Zemaphore.{zem_init, zem_waits}
use os_modules.Sync.Turns.{
  num_threads, num_iter, Pc, at_down, asleep, at_print, at_up, State, start,
}

-- Where the thread stands whose turn it is.
pub data Phase : Type 0 where
  free printing upping : Phase

abbrev pub point : Phase → Pc
point free = at_down
point printing = at_print
point upping = at_up

abbrev pub tokens : Phase → ℕ
tokens free = 1
tokens _ = 0

abbrev pub begun : Phase → ℕ
begun upping = 1
begun _ = 0

abbrev pub taken : Phase → ℕ
taken free = 0
taken _ = 1

abbrev pub steps_in : Phase → ℕ
steps_in free = 0
steps_in printing = 1
steps_in upping = 2

-- 0, 1, 2, 0, 1, 2 and so on.
unfoldable pub turns : (n : ℕ) → List ℕ
turns zero = []
turns (suc n) = turns n ++ ((n % num_threads) ∷ [])

abbrev pub Waits : Pc → Type 0
Waits q = (q ≡ at_down) ⊎ (q ≡ asleep)

-- The turn is that of number `c`, and `p` where its thread stands.
pub record Turn (s : State) (c : ℕ) (p : Phase) : Type 0 where
  pub mine : s.pc (c % num_threads) ≡ point p
  pub others : (t : ℕ) → t < num_threads → t ≢ c % num_threads → Waits (s.pc t)
  pub my_sem : (s.sems (c % num_threads)).accesses ≡ tokens p
  pub other_sems : (t : ℕ) → t < num_threads → t ≢ c % num_threads → (s.sems t).accesses ≡ 0
  pub iterations_eq : (t : ℕ) → t < num_threads → s.iterations t ≡ (c + 2 - t) / num_threads
  pub printed_eq : s.printed ≡ turns (c + begun p)
  pub sleepers : (t : ℕ) → t < num_threads → s.pc t ≡ asleep → s.iterations t < num_iter
  pub bound : c + taken p ≤ num_threads * num_iter

pub start-Turn : Turn start 0 free
unfolding start zem_init turns
start-Turn = record {
  mine = refl;
  others = λ t lt ne. inl refl;
  my_sem = refl;
  other_sems = λ t lt ne. ground arith;
  iterations_eq = λ t lt. omega arith;
  printed_eq = refl;
  sleepers = λ t lt. cc;
  bound = omega arith;
}

-- The thread that goes on is the one whose turn it is.
pub at_down-mine :
    (s : State) (c : ℕ) (p : Phase) (t : ℕ)
    → Turn s c p
    → t < num_threads
    → zem_waits (s.sems t) ≡ false
    → (t ≡ c % num_threads) × (p ≡ free)
unfolding zem_waits
at_down-mine s c p t r lt goes = elim (ℕ_discrete t (c % num_threads)) [
  | no ne ↦ absurd (ground (arith, goes, r.other_sems t lt ne))
  | yes e ↦ (e, has_token p (ap (λ k. (s.sems k).accesses) e ∙ r.my_sem))
]
  where
    has_token : (q : Phase) → (s.sems t).accesses ≡ tokens q → q ≡ free
    has_token free held = refl
    has_token printing held = absurd (ground (arith, goes, held))
    has_token upping held = absurd (ground (arith, goes, held))

pub Waits-at_print : ¬ (Waits at_print)
Waits-at_print (inl e) = cc
Waits-at_print (inr e) = cc

pub Waits-at_up : ¬ (Waits at_up)
Waits-at_up (inl e) = cc
Waits-at_up (inr e) = cc

pub busy-mine :
    (s : State) (c : ℕ) (p : Phase) (t : ℕ) {q : Pc}
    → Turn s c p
    → t < num_threads
    → s.pc t ≡ q
    → ¬ (Waits q)
    → (t ≡ c % num_threads) × (point p ≡ q)
busy-mine s c p t r lt at busy = elim (ℕ_discrete t (c % num_threads)) [
  | yes e ↦ (e, sym r.mine ∙ (ap s.pc (sym e) ∙ at))
  | no ne ↦ absurd (busy (subst Waits at (r.others t lt ne)))
]
