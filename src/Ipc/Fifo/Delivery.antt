-- ===== src/Ipc/Fifo/Delivery.antt =====
-- fifo_writer.c, fifo_reader.c: which arrays arrive.
use os_modules.Prelude.{ℕ, zero, suc, ◌≡◌, refl, ap, Option, some, List, [], ◌∷◌}
use os_modules.Prelude.Array.{Array}
use os_modules.Prelude.Result.{Result, ok, fault, out_of_bounds}
use os_modules.Prelude.Int.{ℤ, pos, negsuc}
use os_modules.Ipc.Fifo.{send_numbers, fifo_writer, print_loop, fifo_reader, fifo_run}

unfoldable pub replicate {ℓ} : {A : Type ℓ} → (n : ℕ) → A → List A
replicate zero a = []
replicate (suc n) a = a ∷ replicate n a

print_loop-end : (rounds : ℕ) (x : Option ℤ) → print_loop rounds x [] ≡ replicate rounds x
unfolding print_loop replicate
print_loop-end zero x = refl
print_loop-end (suc rounds) x = ap (λ l. x ∷ l) (print_loop-end rounds x)

-- What both programs are expected to do: the outcome of the writer, and the output of the reader.
unfoldable pub delivered :
    (n : ℤ) → (typed : Array ℤ) → Result (Unit {0}) × Option (List (Option ℤ))
delivered (negsuc m) typed = (ok tt, some (some (negsuc m) ∷ []))
delivered (pos zero) typed = (ok tt, some (some (pos 0) ∷ []))
delivered (pos (suc zero)) typed = (ok tt, some (some (pos 1) ∷ some (typed 0) ∷ []))
delivered (pos (suc (suc m))) typed = (
  fault out_of_bounds,
  some (some (pos (suc (suc m))) ∷ replicate (suc (suc m)) (some (typed 0))),
)

-- No numbers and one number arrive. For two or more the writer writes behind its allocation when it has sent the first
-- one, and a reader to which no more is sent prints this number once for each.
pub fifo_run-eq-delivered : (n : ℤ) (typed : Array ℤ) → fifo_run n typed ≡ delivered n typed
unfolding fifo_run fifo_writer send_numbers fifo_reader print_loop delivered replicate
fifo_run-eq-delivered (negsuc m) typed = refl
fifo_run-eq-delivered (pos zero) typed = refl
fifo_run-eq-delivered (pos (suc zero)) typed = refl
fifo_run-eq-delivered (pos (suc (suc m))) typed =
    ap
      (λ l. (
        fault out_of_bounds,
        some (some (pos (suc (suc m))) ∷ some (typed 0) ∷ some (typed 0) ∷ l),
      ))
      (print_loop-end m (some (typed 0)))
