-- ===== src/Prelude/Result.antt =====
-- C code that may fail an assertion, or leave an array.
use mathlib.Core.Path.{◌≡◌, refl}
use mathlib.Core.Bool.{Bool, true, false}

pub data Fault : Type 0 where
  assertion : Fault  -- assert(…) fails, and the program aborts
  out_of_bounds : Fault  -- an access outside an array or a region of the disk
  use_after_free : Fault  -- a pointer to freed memory is read or freed
  null_pointer : Fault  -- NULL is read

-- Code stops at the first fault.
pub data Result {ℓ} (Value : Type ℓ) : Type ℓ where
  fault : Fault → Result Value
  ok : Value → Result Value

infixl 5 ◌>>=◌
abbrev pub ◌>>=◌ {ℓ κ} :
    {Value : Type ℓ} {Next : Type κ}
    → (now : Result Value) → (next : Value → Result Next) → Result Next
fault e >>= next = fault e
ok v >>= next = next v

-- `assert(b)`
abbrev pub check : Bool → Result (Unit {0})
check true = ok tt
check false = fault assertion

-- An access that needs `b` to stay inside.
abbrev pub within : Bool → Result (Unit {0})
within true = ok tt
within false = fault out_of_bounds

infixl 5 ◌>>◌
abbrev pub ◌>>◌ {ℓ κ} :
    {Value : Type ℓ} {Next : Type κ} → Result Value → (then_do : Result Next) → Result Next
now >> then_do = now >>= λ _. then_do

-- The intermediate result of a chain that succeeds.
pub >>=-eq-ok {ℓ κ} :
    {Value : Type ℓ} {Next : Type κ} (now : Result Value) (next : Value → Result Next) {r : Next}
    → (now >>= next) ≡ ok r
    → (v : Value) × (now ≡ ok v) × (next v ≡ ok r)
>>=-eq-ok (fault e) next h = absurd cc
>>=-eq-ok (ok v) next h = (v, refl, h)

pub ok_pair {ℓ κ} :
    {A : Type ℓ} {B : Type κ} {a a' : A} {b b' : B}
    → ◌≡◌ {A = Result (A × B)} (ok (a, b)) (ok (a', b'))
    → (a ≡ a') × (b ≡ b')
ok_pair e = (cc, cc)
