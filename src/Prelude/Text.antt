-- ===== src/Prelude/Text.antt =====
-- C strings: a `char *` is the list of the bytes from it on.
use Prim.Native.Nat.{ℕ, zero, suc, ◌+◌}
use mathlib.Core.Path.{◌≡◌, refl, ap, ap₂}
use mathlib.Core.Logic.{◌↔◌}
use mathlib.Core.Bool.{Bool, true, false, ◌&&◌}
use mathlib.Core.List.{List, [], ◌∷◌, ◌++◌}
use native.Mathlib.Omega.{arith}
use os_modules.Prelude.Tests.{◌==◌, if◌then◌else◌}

module _ {ℓ} {A : Type ℓ} where
  abbrev pub length : List A → ℕ
  length [] = 0
  length (x ∷ xs) = suc (length xs)

  abbrev pub drop : ℕ → List A → List A
  drop zero xs = xs
  drop (suc n) [] = []
  drop (suc n) (x ∷ xs) = drop n xs

  abbrev pub take : ℕ → List A → List A
  take zero xs = []
  take (suc n) [] = []
  take (suc n) (x ∷ xs) = x ∷ take n xs

module _ {ℓ} {A : Type ℓ} where
  pub length-append : (xs ys : List A) → length (xs ++ ys) ≡ length xs + length ys
  length-append [] ys = omega arith
  length-append (x ∷ xs) ys = omega (arith, length-append xs ys)

  pub length-snoc : (xs : List A) (x : A) → length (xs ++ (x ∷ [])) ≡ suc (length xs)
  length-snoc [] x = refl
  length-snoc (y ∷ xs) x = ap suc (length-snoc xs x)

-- The bytes that bzero writes.
unfoldable pub zeros : ℕ → List ℕ
zeros zero = []
zeros (suc n) = 0 ∷ zeros n

-- The string: the bytes before the first 0.
unfoldable pub string : List ℕ → List ℕ
string [] = []
string (c ∷ m) = if c == 0 then [] else c ∷ string m

-- `strcmp(a, b) == 0`, of two strings
unfoldable pub same_string : List ℕ → List ℕ → Bool
same_string [] [] = true
same_string [] (d ∷ t) = false
same_string (c ∷ s) [] = false
same_string (c ∷ s) (d ∷ t) = c == d && same_string s t

pub same_string_iff : (s t : List ℕ) → (same_string s t ≡ true) ↔ (s ≡ t)
unfolding same_string
same_string_iff [] [] = (λ e. refl, λ e. refl)
same_string_iff [] (d ∷ t) = (λ e. cc, λ e. cc)
same_string_iff (c ∷ s) [] = (λ e. cc, λ e. cc)
same_string_iff (c ∷ s) (d ∷ t) = (
  λ e. ap₂ ◌∷◌ (ground arith) ((same_string_iff s t).0 (ground arith)),
  λ e. ground (arith, (same_string_iff s t).1),
)
