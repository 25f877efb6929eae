-- ===== src/Ipc/Pipes/Value.antt =====
-- pipes_ex1.c: what the loop of the child computes.
use os_modules.Prelude.{
  ◌+◌, ◌*◌, ◌≡◌, refl, sym, ap, ◌∙◌, Bool, true, ◌&&◌, Option, none, some, List, [], ◌∷◌,
  if◌then◌else◌, Bool-cases, inl, inr, arith,
}
use os_modules.Prelude.Text.{length}
use os_modules.Prelude.Int.{ℤ, pos, pos_part, neg_part, eq_of_parts}
use os_modules.Ipc.Pipes.{fits_long, ◌*ℤ◌, prod_loop}

-- The product of integers, from the last one on.
unfoldable pub product : List ℤ → ℤ
product [] = pos 1
product (x ∷ numbers) = x *ℤ product numbers

-- The product of `prod` and any first part of the numbers fits a `long long int`.
unfoldable pub all_fit : (prod : ℤ) → (numbers : List ℤ) → Bool
all_fit prod [] = true
all_fit prod (x ∷ numbers) = fits_long (prod *ℤ x) && all_fit (prod *ℤ x) numbers

*ℤ_parts :
    (a b : ℤ)
    → pos_part (a *ℤ b) + (pos_part a * neg_part b + neg_part a * pos_part b)
      ≡ neg_part (a *ℤ b) + (pos_part a * pos_part b + neg_part a * neg_part b)
unfolding ◌*ℤ◌
*ℤ_parts a b = ground arith

*ℤ_one : (a : ℤ) → a *ℤ pos 1 ≡ a
*ℤ_one a = eq_of_parts (a *ℤ pos 1) a (omega (arith, *ℤ_parts a (pos 1)))

one_*ℤ : (a : ℤ) → pos 1 *ℤ a ≡ a
one_*ℤ a = eq_of_parts (pos 1 *ℤ a) a (omega (arith, *ℤ_parts (pos 1) a))

*ℤ_assoc : (a b c : ℤ) → (a *ℤ b) *ℤ c ≡ a *ℤ (b *ℤ c)
*ℤ_assoc a b c =
    let left = *ℤ_parts a b in
    let right = *ℤ_parts b c in
    eq_of_parts ((a *ℤ b) *ℤ c) (a *ℤ (b *ℤ c)) (
      omega (
        arith,
        *ℤ_parts (a *ℤ b) c,
        *ℤ_parts a (b *ℤ c),
        ap (λ m. m * pos_part c) left,
        ap (λ m. m * neg_part c) left,
        ap (λ m. pos_part a * m) right,
        ap (λ m. neg_part a * m) right,
      ))

-- The loop gives the product, if no product on the way overflows.
pub prod_loop_lem :
    (prod : ℤ) (numbers : List ℤ)
    → prod_loop (length numbers) prod numbers
      ≡ (if all_fit prod numbers then some (prod *ℤ product numbers) else none)
unfolding prod_loop product all_fit
prod_loop_lem prod [] = ap some (sym (*ℤ_one prod))
prod_loop_lem prod (x ∷ numbers) = elim (Bool-cases (fits_long (prod *ℤ x))) [
  | inl fits ↦
      rw (fits, sym (*ℤ_assoc prod x (product numbers))) (prod_loop_lem (prod *ℤ x) numbers)
  | inr large ↦ rw large refl
]

-- What the parent is to print.
unfoldable pub expected : (numbers : List ℤ) → Option ℤ
expected numbers = if all_fit (pos 1) numbers then some (product numbers) else none

pub prod_loop-expected :
    (numbers : List ℤ) → prod_loop (length numbers) (pos 1) numbers ≡ expected numbers
unfolding expected
prod_loop-expected numbers =
    prod_loop_lem (pos 1) numbers
    ∙ ap (λ p. if all_fit (pos 1) numbers then some p else none) (one_*ℤ (product numbers))
