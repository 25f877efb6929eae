-- ===== src/Sync/Handshake/Invariant.antt =====
-- test-zem.c: what holds in every reachable state.
use mathlib.Core.Path.{subst}
use os_modules.Prelude.{
  ℕ, zero, suc, ◌+◌, ◌*◌, ◌/◌, ◌%◌, ◌≤◌, ◌<◌, ◌≡◌, ◌≢◌, ◌⊎◌, refl, sym, ap, ◌∙◌, inl, inr, List, [],
  ◌∷◌, ◌++◌, ◌==◌, if◌then◌else◌, ℕ_discrete, dec_lt, arith,
}
use os_modules.Prelude.Array.{Array}
use os_modules.Sync.Zemaphore.{zem_init}
use os_modules.Sync.Handshake.{
  num_threads, Line, from_main, from_thread, MainPc, to_print, to_up, to_down, in_wait, at_join,
  ThreadPc, at_down, asleep, at_print, at_up, over, State, start,
}

-- Main prints, main ups, a thread may go on, it prints, it ups, main may go on; and the joins.
pub data Phase : Type 0 where
  printing upping offered prints ups answered joined : Phase

abbrev pub steps_in : Phase → ℕ
steps_in printing = 0
steps_in upping = 1
steps_in offered = 2
steps_in prints = 3
steps_in ups = 4
steps_in answered = 5
steps_in joined = 1

-- The lines_after of the round.
abbrev pub said : Phase → ℕ
said printing = 0
said ups = 2
said answered = 2
said _ = 1

abbrev pub offer : Phase → ℕ
offer offered = 1
offer _ = 0

abbrev pub answer : Phase → ℕ
answer answered = 1
answer _ = 0

-- The threads that have passed zem_down, and that are at their end, in this round.
abbrev pub passed : Phase → ℕ
passed prints = 1
passed ups = 1
passed answered = 1
passed _ = 0

abbrev pub in_round : Phase → ℕ
in_round printing = 0
in_round joined = 0
in_round _ = 1

abbrev pub MainAt : Phase → ℕ → MainPc → Type 0
MainAt printing k p = p ≡ to_print k
MainAt upping k p = p ≡ to_up k
MainAt answered k p = p ≡ to_down k
MainAt joined k p = (p ≡ at_join) × (k ≡ num_threads)
MainAt _ k p = (p ≡ to_down k) ⊎ (p ≡ in_wait k)

-- Where the thread stands that has passed last.
abbrev pub LastAt : Phase → ThreadPc → Type 0
LastAt prints p = p ≡ at_print
LastAt ups p = p ≡ at_up
LastAt answered p = p ≡ over
LastAt _ p = Unit

abbrev pub Waits : ThreadPc → Type 0
Waits p = (p ≡ at_down) ⊎ (p ≡ asleep)

-- Main and the threads in turn, where `who j` is the thread that comes as number `j`.
unfoldable pub line_at : (who : Array ℕ) → (m : ℕ) → Line
line_at who m = if m % 2 == 0 then from_main (m / 2) else from_thread (who (m / 2) + 1)

unfoldable pub log : (who : Array ℕ) → (m : ℕ) → List Line
log who zero = []
log who (suc m) = log who m ++ (line_at who m ∷ [])

-- Thread `i` is none of the first `k`.
abbrev pub IsNew : (who : Array ℕ) → (k i : ℕ) → Type 0
IsNew who k i = (j : ℕ) → j < k → who j ≢ i

pub record Inv (s : State) (who : Array ℕ) (k : ℕ) (p : Phase) : Type 0 where
  pub main_at : MainAt p k s.main_pc
  pub child_eq : s.child.accesses ≡ offer p
  pub parent_eq : s.parent.accesses ≡ answer p
  pub last_at : LastAt p (s.thread (who k))
  pub overs : (j : ℕ) → j < k → s.thread (who j) ≡ over
  pub waiting : (i : ℕ) → i < num_threads → IsNew who (k + passed p) i → Waits (s.thread i)
  pub threads : (j : ℕ) → j < k + passed p → (who j < num_threads) × IsNew who j (who j)
  pub awake : offer p ≡ 1 → (i : ℕ) × (i < num_threads) × IsNew who k i × (s.thread i ≡ at_down)
  pub printed_eq : s.printed ≡ log who (2 * k + said p)
  pub bound : k + in_round p ≤ num_threads

pub start-Inv : (who : Array ℕ) → Inv start who 0 printing
unfolding start zem_init log
start-Inv who = record {
  main_at = refl;
  child_eq = refl;
  parent_eq = refl;
  last_at = tt;
  overs = λ j lt. absurd (omega arith);
  waiting = λ i lt new. inl refl;
  threads = λ j lt. absurd (omega arith);
  awake = λ e. absurd cc;
  printed_eq = refl;
  bound = omega arith;
}

-- Thread `i` is among the first `m`, or it is not.
pub IsNew-cases : (who : Array ℕ) (m i : ℕ) → IsNew who m i ⊎ ((j : ℕ) × (j < m) × (who j ≡ i))
IsNew-cases who zero i = inl λ j lt. absurd (omega arith)
IsNew-cases who (suc m) i = elim (ℕ_discrete (who m) i) [
  | yes e ↦ inr (m, omega arith, e)
  | no ne ↦ elim (IsNew-cases who m i) [
    | inr h ↦ inr (h.0, omega (arith, h.1), h.2)
    | inl new ↦
        inl
          λ j lt. elim (ℕ_discrete j m) [ yes last ↦ rw last ne | no before ↦ new j (omega arith) ]
  ]
]

-- Less than two threads are not all.
pub some-IsNew :
    (who : Array ℕ) (k : ℕ) → k < num_threads → (i : ℕ) × (i < num_threads) × IsNew who k i
some-IsNew who zero h = (0, omega arith, λ j lt. absurd (omega arith))
some-IsNew who (suc zero) h = elim (ℕ_discrete (who 0) 0) [
  | yes e ↦ (
    1,
    omega arith,
    λ j lt. λ e'. let at : j ≡ 0 = omega arith in omega (arith, ap who at, e, e'),
  )
  | no ne ↦ (
    0,
    omega arith,
    λ j lt. λ e'. let at : j ≡ 0 = omega arith in ne (omega (arith, ap who at, e')),
  )
]
some-IsNew who (suc (suc k)) h = absurd (omega arith)

pub Waits-at_print : ¬ (Waits at_print)
Waits-at_print (inl e) = cc
Waits-at_print (inr e) = cc

pub Waits-at_up : ¬ (Waits at_up)
Waits-at_up (inl e) = cc
Waits-at_up (inr e) = cc

pub Waits-over : ¬ (Waits over)
Waits-over (inl e) = cc
Waits-over (inr e) = cc

module _ {s : State} {who : Array ℕ} {k : ℕ} {p : Phase} (inv : Inv s who k p) where
  -- A thread that waits is none of those that have passed.
  pub Waits-IsNew : (i : ℕ) → Waits (s.thread i) → IsNew who k i
  Waits-IsNew i h j lt e = Waits-over (subst Waits (ap s.thread (sym e) ∙ inv.overs j lt) h)

  -- A thread between zem_down and its end is the one that has passed last.
  pub busy-last :
      (i : ℕ) {q : ThreadPc}
      → i < num_threads
      → s.thread i ≡ q
      → ¬ (Waits q)
      → q ≢ over
      → (i ≡ who k) × (s.thread (who k) ≡ q) × (passed p ≡ 1)
  busy-last i {q} lt at busy not_over = elim (IsNew-cases who (k + passed p) i) [
    | inl new ↦ absurd (busy (subst Waits at (inv.waiting i lt new)))
    | inr (j, h, e) ↦ elim (dec_lt j k) [
      | yes before ↦ absurd (not_over (sym at ∙ (ap s.thread (sym e) ∙ inv.overs j before)))
      | no last ↦
          let here : j ≡ k = omega (arith, passed_le p) in
          (
            sym e ∙ ap who here,
            ap s.thread (ap who (sym here) ∙ e) ∙ at,
            omega (arith, passed_le p),
          )
    ]
  ]
    where
      passed_le : (p : Phase) → passed p ≤ 1
      passed_le prints = omega arith
      passed_le ups = omega arith
      passed_le answered = omega arith
      passed_le _ = omega arith
