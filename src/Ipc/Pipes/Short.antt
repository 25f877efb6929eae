-- ===== src/Ipc/Pipes/Short.antt =====
-- pipes_ex1.c: a read that gets only a part of the numbers.
use os_modules.Prelude.{
  ℕ, zero, suc, ◌-◌, ◌≤◌, ◌<◌, ◌≡◌, ◌≢◌, refl, ap, none, List, [], ◌∷◌, Bool-cases, inl, inr, arith,
}
use os_modules.Prelude.Text.{length, take, drop}
use os_modules.Prelude.Int.{ℤ, pos}
use os_modules.Ipc.Pipes.{
  pipe_buf, fits_long, ◌*ℤ◌, prod_loop, to_write, behind_write, State, start, write_part, read_arr,
  write_prod, print_prod, writes, reads, multiplies, prints, Reach, begin, next,
}
use os_modules.Ipc.Pipes.Product.{drop-length}

-- The loop reads a place that is not set.
prod_loop-short :
    (rounds : ℕ) (prod : ℤ) (arr : List ℤ) → length arr < rounds → prod_loop rounds prod arr ≡ none
unfolding prod_loop
prod_loop-short zero prod arr h = absurd (omega arith)
prod_loop-short (suc rounds) prod [] h = refl
prod_loop-short (suc rounds) prod (x ∷ arr) h =
    let rest = prod_loop-short rounds (prod *ℤ x) arr (omega arith) in
    elim (Bool-cases (fits_long (prod *ℤ x))) [
      | inl fits ↦ rw fits rest
      | inr large ↦ rw large refl
    ]

length-take_le : (k : ℕ) (l : List ℤ) → length (take k l) ≤ k
length-take_le zero l = omega arith
length-take_le (suc k) [] = omega arith
length-take_le (suc k) (x ∷ l) = omega (arith, length-take_le k l)

take-nonempty : (k : ℕ) (l : List ℤ) → 0 < k → 0 < length l → take k l ≢ []
take-nonempty zero l h h' = absurd (omega arith)
take-nonempty (suc k) [] h h' = absurd (omega arith)
take-nonempty (suc k) (x ∷ l) h h' = λ e. cc

length-drop : (k : ℕ) (l : List ℤ) → length (drop k l) ≡ length l - k
length-drop zero l = omega arith
length-drop (suc k) [] = omega arith
length-drop (suc k) (x ∷ l) = omega (arith, length-drop k l)

behind_write-more : (l : List ℤ) → 0 < length l → behind_write l ≡ to_write
behind_write-more [] h = absurd (omega arith)
behind_write-more (x ∷ l) h = refl

-- A write of more than 1024 numbers may come in two parts. For every smaller number `k` of numbers in the first part,
-- there is an order of steps in which the child multiplies after it has read only these, and the parent prints
-- an undefined product.
pub short_read :
    (numbers : List ℤ) (k : ℕ)
    → pipe_buf < length numbers
    → 0 < k
    → k < length numbers
    → (s : State) × Reach numbers 5 s × (s.arr ≡ take k numbers) × (s.printed ≡ none ∷ [])
unfolding start write_part read_arr write_prod print_prod
short_read numbers k large more less =
    let n = length numbers in
    let left = drop k numbers in
    let some_left : 0 < length left = omega (arith, length-drop k numbers) in
    let written = write_part k (start numbers) in
    let part : Reach numbers 1 written =
      next begin (writes k refl (λ e. cc) more (omega arith) (λ small. absurd (omega arith))) in
    let got : Reach numbers 2 (read_arr written) =
      next part (reads refl (take-nonempty k numbers more (omega arith))) in
    let rest : Reach numbers 3 (write_part (length left) (read_arr written)) = next got (
      writes (length left) (behind_write-more left some_left) (λ e. cc) some_left (omega arith)
        (λ small. refl)) in
    let done = next rest (multiplies refl) in
    let nothing : prod_loop n (pos 1) (take k numbers) ≡ none =
      prod_loop-short n (pos 1) (take k numbers) (omega (arith, length-take_le k numbers)) in
    let shown =
      next done (prints none [] (ap behind_write (drop-length left)) (ap (λ p. p ∷ []) nothing)) in
    (_, shown, refl, refl)
