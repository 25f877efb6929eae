-- ===== src/Ipc/Pipes/Tests.antt =====
-- The product of 6 and -7, and 1025 numbers of which the child reads one.
use os_modules.Prelude.{
  ℕ, zero, suc, ◌≤◌, ◌<◌, ◌≡◌, ◌⊎◌, refl, ap, none, some, List, [], ◌∷◌, arith,
}
use os_modules.Prelude.Text.{length, take}
use os_modules.Prelude.Int.{ℤ, pos, negsuc}
use os_modules.Ipc.Pipes.{
  prod_loop, ◌*ℤ◌, State, start, write_part, Step, writes, Reach, begin, next,
}
use os_modules.Ipc.Pipes.Product.{Printed, Reach-product}
use os_modules.Ipc.Pipes.Short.{short_read}
use os_modules.Ipc.Pipes.Value.{product, all_fit, expected}

abbrev two_numbers : List ℤ
two_numbers = pos 6 ∷ negsuc 6 ∷ []

two_numbers-prod : prod_loop 2 (pos 1) two_numbers ≡ some (negsuc 41)
unfolding prod_loop ◌*ℤ◌
two_numbers-prod = refl

two_sent-Reach : Reach two_numbers 1 (write_part 2 (start two_numbers))
unfolding start
two_sent-Reach = next begin (writes 2 refl (λ e. cc) (omega arith) (omega arith) (λ h. refl))

Reach-product_example :
    (1 ≤ 5)
    × (((◌≡◌ {A = ℕ} 1 5) × Printed two_numbers (write_part 2 (start two_numbers)))
        ⊎ ((1 < 5) × (t : State) × Step 2 (write_part 2 (start two_numbers)) t))
Reach-product_example = Reach-product (omega arith) (omega arith) two_sent-Reach

-- The numbers from `n` down to 1.
abbrev countdown : ℕ → List ℤ
countdown zero = []
countdown (suc n) = pos (suc n) ∷ countdown n

length-countdown : (n : ℕ) → length (countdown n) ≡ n
length-countdown zero = refl
length-countdown (suc n) = ap suc (length-countdown n)

short_read_example :
    (s : State) × Reach (countdown 1025) 5 s
    × (s.arr ≡ take 1 (countdown 1025))
    × (s.printed ≡ none ∷ [])
short_read_example =
    short_read (countdown 1025) 1 (omega (arith, length-countdown 1025)) (omega arith)
      (omega (arith, length-countdown 1025))

two_numbers-expected : expected two_numbers ≡ some (negsuc 41)
unfolding expected all_fit product ◌*ℤ◌
two_numbers-expected = refl
