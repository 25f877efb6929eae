-- ===== src/Prelude/Array.antt =====
-- A C array as a function of its index, and the loops that fill a range of it.
use Prim.Native.Nat.{ℕ, zero, suc, ◌+◌, ◌≤◌, ◌<◌}
use mathlib.Core.Path.{◌≡◌, ap, subst}
use native.Mathlib.Decide.{ℕ_discrete}
use mathlib.Core.Logic.{◌≢◌, ◌⊎◌}
use mathlib.Core.Bool.{◌&&◌}
use native.Mathlib.Omega.{arith}
use os_modules.Prelude.Tests.{◌==◌, leb, ltb, if◌then◌else◌}

abbrev pub Array {ℓ} : Type ℓ → Type ℓ
Array A = ℕ → A

module _ {ℓ} {A : Type ℓ} where
  -- `f[i] = a`
  unfoldable pub update : Array A → ℕ → A → Array A
  update f i a j = if i == j then a else f j

  -- `for (k = i; k < i + n; k++) f[k] = a`
  unfoldable pub fill : Array A → ℕ → ℕ → A → Array A
  fill f i zero a = f
  fill f i (suc n) a = fill (update f i a) (i + 1) n a

  pub update_self : (f : Array A) (i : ℕ) (a : A) → update f i a i ≡ a
  unfolding update
  update_self f i a = ground arith

  pub update_ne : (f : Array A) (i j : ℕ) (a : A) → i ≢ j → update f i a j ≡ f j
  unfolding update
  update_ne f i j a h = ground arith

  pub fill_lem :
      (f : Array A) (i n : ℕ) (a : A) (j : ℕ)
      → fill f i n a j ≡ (if leb i j && ltb j (i + n) then a else f j)
  unfolding fill update
  fill_lem f i zero a j = ground arith
  fill_lem f i (suc n) a j = ground (arith, fill_lem (update f i a) (i + 1) n a j)

  pub fill_in : (f : Array A) (i n : ℕ) (a : A) (j : ℕ) → i ≤ j → j < i + n → fill f i n a j ≡ a
  fill_in f i n a j lo hi = ground (arith, fill_lem f i n a j)

  pub fill_out :
      (f : Array A) (i n : ℕ) (a : A) (j : ℕ) → (j < i) ⊎ (i + n ≤ j) → fill f i n a j ≡ f j
  fill_out f i n a j out = ground (arith, fill_lem f i n a j)

-- A property of one element after a write.
module _ {ℓ κ} {A : Type ℓ} (P : A → Type κ) where
  pub update_at :
      (f : Array A) (i j : ℕ) {a : A} → (i ≡ j → P a) → (i ≢ j → P (f j)) → P (update f i a j)
  update_at f i j {a} new old = elim (ℕ_discrete i j) [
    | yes e ↦ subst P (ap (update f i a) e) (rw update_self (new e))
    | no ne ↦ rw (update_ne f i j a ne) (old ne)
  ]
