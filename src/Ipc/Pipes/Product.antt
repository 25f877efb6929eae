-- ===== src/Ipc/Pipes/Product.antt =====
-- pipes_ex1.c: when the parent prints the product of the numbers.
use mathlib.Core.Path.{subst}
use os_modules.Prelude.{
  ℕ, ◌+◌, ◌≤◌, ◌<◌, ◌≡◌, ◌≢◌, refl, sym, ap, ◌∙◌, Option, List, [], ◌∷◌, inl, inr, ◌⊎◌, arith,
}
use os_modules.Prelude.Text.{length, take, drop}
use os_modules.Prelude.Int.{ℤ, pos}
use os_modules.Ipc.Pipes.Value.{expected, prod_loop-expected}
use os_modules.Ipc.Pipes.{
  pipe_buf, prod_loop, to_read, to_wait, over, child_write, child_over, State, start, write_part,
  read_arr, write_prod, print_prod, Step, writes, breaks, reads, multiplies, prints, waits, Reach,
  begin, next,
}

take-length : (l : List ℤ) → take (length l) l ≡ l
take-length [] = refl
take-length (x ∷ l) = ap (λ l. x ∷ l) (take-length l)

pub drop-length : (l : List ℤ) → drop (length l) l ≡ []
drop-length [] = refl
drop-length (x ∷ l) = drop-length l

module _ (numbers : List ℤ) where
  abbrev prod : Option ℤ
  prod = prod_loop (length numbers) (pos 1) numbers

  abbrev sent : State
  sent = record (start numbers) { parent = to_read; left = []; fd1 = numbers }

  abbrev received : State
  received = record sent { child = child_write; arr = numbers; fd1 = [] }

  abbrev computed : State
  computed = record received { child = child_over; fd2 = prod ∷ [] }

  abbrev printed_one : State
  printed_one = record computed { parent = to_wait; fd2 = []; printed = prod ∷ [] }

  abbrev ended : State
  ended = record printed_one { parent = over }

  write-sent : write_part (length numbers) (start numbers) ≡ sent
  unfolding write_part start
  write-sent = rw (drop-length numbers, take-length numbers) refl

  module _ (small : length numbers ≤ pipe_buf) where
    from_start : {t : State} → Step (length numbers) (start numbers) t → t ≡ sent
    unfolding start
    from_start (writes k at alive more le whole) =
        ap (λ k. write_part k (start numbers)) (whole small) ∙ write-sent
    from_start (breaks at gone) = absurd cc
    from_start (reads at full) = absurd (full refl)
    from_start (multiplies at) = absurd cc
    from_start (prints p rest at full) = absurd cc
    from_start (waits at gone) = absurd cc

  from_sent : {t : State} → Step (length numbers) sent t → t ≡ received
  unfolding start read_arr
  from_sent (writes k at alive more le whole) = absurd cc
  from_sent (breaks at gone) = absurd cc
  from_sent (reads at full) = refl
  from_sent (multiplies at) = absurd cc
  from_sent (prints p rest at full) = absurd cc
  from_sent (waits at gone) = absurd cc

  from_received : {t : State} → Step (length numbers) received t → t ≡ computed
  unfolding start write_prod
  from_received (writes k at alive more le whole) = absurd cc
  from_received (breaks at gone) = absurd cc
  from_received (reads at full) = absurd cc
  from_received (multiplies at) = refl
  from_received (prints p rest at full) = absurd cc
  from_received (waits at gone) = absurd cc

  from_computed : {t : State} → Step (length numbers) computed t → t ≡ printed_one
  unfolding start print_prod
  from_computed (writes k at alive more le whole) = absurd cc
  from_computed (breaks at gone) = absurd cc
  from_computed (reads at full) = absurd cc
  from_computed (multiplies at) = absurd cc
  from_computed (prints p rest at full) =
      let here : p ≡ prod = cc in let none_left : rest ≡ [] = cc in rw (here, none_left) refl
  from_computed (waits at gone) = absurd cc

  from_printed : {t : State} → Step (length numbers) printed_one t → t ≡ ended
  unfolding start
  from_printed (writes k at alive more le whole) = absurd cc
  from_printed (breaks at gone) = absurd cc
  from_printed (reads at full) = absurd cc
  from_printed (multiplies at) = absurd cc
  from_printed (prints p rest at full) = absurd cc
  from_printed (waits at gone) = refl

  from_ended : {t : State} → Step (length numbers) ended t → t ≢ t
  unfolding start
  from_ended (writes k at alive more le whole) = absurd cc
  from_ended (breaks at gone) = absurd cc
  from_ended (reads at full) = absurd cc
  from_ended (multiplies at) = absurd cc
  from_ended (prints p rest at full) = absurd cc
  from_ended (waits at gone) = absurd cc

  -- The state after `i` steps.
  data At : (i : ℕ) → State → Type 0 where
    at_start : At 0 (start numbers)
    at_sent : At 1 sent
    at_received : At 2 received
    at_computed : At 3 computed
    at_printed : At 4 printed_one
    at_ended : At 5 ended

  module _ (small : length numbers ≤ pipe_buf) where
    Step-At : {i : ℕ} {s t : State} → At i s → Step (length numbers) s t → At (i + 1) t
    Step-At at_start step = subst (At 1) (sym (from_start small step)) at_sent
    Step-At at_sent step = subst (At 2) (sym (from_sent step)) at_received
    Step-At at_received step = subst (At 3) (sym (from_received step)) at_computed
    Step-At at_computed step = subst (At 4) (sym (from_computed step)) at_printed
    Step-At at_printed step = subst (At 5) (sym (from_printed step)) at_ended
    Step-At at_ended step = absurd (from_ended step refl)

    Reach-At : {i : ℕ} {s : State} → Reach numbers i s → At i s
    Reach-At begin = at_start
    Reach-At (next r step) = Step-At (Reach-At r) step

  -- Both processes are at their end, and the product of the numbers is printed.
  abbrev pub Printed : State → Type 0
  Printed s = (s.parent ≡ over) × (s.child ≡ child_over) × (s.printed ≡ expected numbers ∷ [])

  ended-Printed : Printed ended
  unfolding start
  ended-Printed = (refl, refl, ap (λ p. p ∷ []) (prod_loop-expected numbers))

  At-goes_on :
      (i : ℕ) (s : State)
      → length numbers ≤ pipe_buf
      → 0 < length numbers
      → At i s
      → (i ≤ 5) × (((i ≡ 5) × Printed s) ⊎ ((i < 5) × (t : State) × Step (length numbers) s t))
  unfolding start
  At-goes_on i s small more at_start = (
    omega arith,
    inr (omega arith, _, writes (length numbers) refl (λ e. cc) more (omega arith) (λ h. refl)),
  )
  At-goes_on i s small more at_sent =
      (omega arith, inr (omega arith, _, reads refl (λ e. omega (arith, ap length e))))
  At-goes_on i s small more at_received = (omega arith, inr (omega arith, _, multiplies refl))
  At-goes_on i s small more at_computed = (omega arith, inr (omega arith, _, prints _ _ refl refl))
  At-goes_on i s small more at_printed = (omega arith, inr (omega arith, _, waits refl refl))
  At-goes_on i s small more at_ended = (omega arith, inl (refl, ended-Printed))

-- For 1 to 1024 numbers, a reachable state is reached after at most 5 steps. After 5 steps both processes are
-- at their end and the parent has printed the product
-- of the numbers, or an undefined one if a product on the way overflows, and before some process can go on.
pub Reach-product :
    {numbers : List ℤ} {i : ℕ} {s : State}
    → 0 < length numbers
    → length numbers ≤ pipe_buf
    → Reach numbers i s
    → (i ≤ 5)
      × (((i ≡ 5) × Printed numbers s) ⊎ ((i < 5) × (t : State) × Step (length numbers) s t))
Reach-product {numbers} {i} {s} more small r =
    At-goes_on numbers i s small more (Reach-At numbers small r)
