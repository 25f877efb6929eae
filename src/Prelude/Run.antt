-- ===== src/Prelude/Run.antt =====
-- A program that may also call exit.
use mathlib.Core.Path.{◌≡◌, refl}
use os_modules.Prelude.Result.{Fault, Result, fault, ok}

pub data Run {ℓ κ} (World : Type ℓ) (Value : Type κ) : Type (ℓ ⊔ κ) where
  exits : World → Run World Value
  faults : Fault → Run World Value
  gives : Value → Run World Value

infixl 5 ◌>>=◌
abbrev pub ◌>>=◌ {ℓ κ μ} :
    {World : Type ℓ} {Value : Type κ} {Next : Type μ}
    → (now : Run World Value) → (next : Value → Run World Next) → Run World Next
exits w >>= next = exits w
faults f >>= next = faults f
gives v >>= next = next v

-- Code that cannot call exit.
abbrev pub returns {ℓ κ} : {World : Type ℓ} {Value : Type κ} → Result Value → Run World Value
returns (fault f) = faults f
returns (ok v) = gives v

-- The intermediate result of a chain that succeeds.
pub >>=-eq-gives {ℓ κ μ} :
    {World : Type ℓ} {Value : Type κ} {Next : Type μ} (now : Run World Value)
    (next : Value → Run World Next) {r : Next}
    → (now >>= next) ≡ gives r
    → (v : Value) × (now ≡ gives v) × (next v ≡ gives r)
>>=-eq-gives (exits w) next h = absurd cc
>>=-eq-gives (faults f) next h = absurd cc
>>=-eq-gives (gives v) next h = (v, refl, h)

pub returns-eq-gives {ℓ κ} :
    {World : Type ℓ} {Value : Type κ} (now : Result Value) {v : Value}
    → returns {World = World} now ≡ gives v
    → now ≡ ok v
returns-eq-gives (fault f) h = absurd cc
returns-eq-gives (ok v) h = cc
