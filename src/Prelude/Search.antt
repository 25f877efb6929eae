-- ===== src/Prelude/Search.antt =====
-- What a loop that returns the first index with a property has found.
use Prim.Native.Nat.{ℕ, suc, ◌+◌, ◌≤◌, ◌<◌}
use mathlib.Core.Path.{◌≡◌, refl, sym, ap, subst}
use mathlib.Core.Option.{Option, none, some}
use native.Mathlib.Omega.{arith}
use native.Mathlib.Decide.{ℕ_discrete, dec_lt}

module _ {ℓ} (P : ℕ → Type ℓ) where
  -- The first of the `left` indices from `i` on that has the property, or none when none has it.
  abbrev pub IsFirst : (left i : ℕ) → Option ℕ → Type ℓ
  IsFirst left i none = (k : ℕ) → i ≤ k → k < i + left → ¬ P k
  IsFirst left i (some m) = (i ≤ m) × (m < i + left) × P m × ((k : ℕ) → i ≤ k → k < m → ¬ P k)

  pub IsFirst-none : (i : ℕ) → IsFirst 0 i none
  IsFirst-none i = λ k lo hi. absurd (omega arith)

  pub IsFirst-here : (left i : ℕ) → P i → IsFirst (suc left) i (some i)
  IsFirst-here left i p = (omega arith, omega arith, p, λ k lo hi. absurd (omega arith))

  -- The rest of the search, behind an index without the property.
  pub IsFirst-later :
      (left i : ℕ) (o : Option ℕ) → ¬ P i → IsFirst left (i + 1) o → IsFirst (suc left) i o
  IsFirst-later left i none ne f = λ k lo hi p. elim (ℕ_discrete i k) [
    | yes here ↦ ne (subst P (sym here) p)
    | no there ↦ f k (omega arith) (omega arith) p
  ]
  IsFirst-later left i (some m) ne f = (
    omega (arith, f.0),
    omega (arith, f.1),
    f.2,
    λ k lo hi p. elim (ℕ_discrete i k) [
      | yes here ↦ ne (subst P (sym here) p)
      | no there ↦ f.3 k (omega arith) hi p
    ],
  )

  -- There is one result at most.
  pub IsFirst-unique :
      (left i : ℕ) (o o' : Option ℕ) → IsFirst left i o → IsFirst left i o' → o ≡ o'
  IsFirst-unique left i none none f g = refl
  IsFirst-unique left i none (some m) f g = absurd (f m g.0 g.1 g.2)
  IsFirst-unique left i (some m) none f g = absurd (g m f.0 f.1 f.2)
  IsFirst-unique left i (some m) (some m') f g = elim (dec_lt m m') [
    | yes before ↦ absurd (g.3 m f.0 before f.2)
    | no not_before ↦ elim (dec_lt m' m) [
      | yes after ↦ absurd (f.3 m' g.0 after g.2)
      | no not_after ↦ ap some (omega arith)
    ]
  ]
