-- ===== src/Server/Valid.antt =====
-- The invariant of the store, and what the loop of every command finds.
use os_modules.Prelude.{
  ℕ, zero, suc, ◌+◌, ◌≤◌, ◌<◌, ◌≡◌, ◌≢◌, sym, ◌∙◌, Option, some, List, arith, Bool-cases, inl, inr,
}
use os_modules.Prelude.Search.{IsFirst, IsFirst-none, IsFirst-here, IsFirst-later, IsFirst-unique}
use os_modules.Prelude.Array.{Array}
use os_modules.Prelude.Int.{ℤ, negsuc, eqb_ℤ, eqb_ℤ→eq, eqb_ℤ→ne}
use os_modules.Server.Store.{Store, max_keys, find_key}

-- The key that `delete` writes.
abbrev pub no_key : ℤ
no_key = negsuc 0

-- No more slots than there are are in use, a key other than -1 has one slot, and its value is there.
pub record IsValid (s : Store) : Type 0 where
  pub room : s.idx ≤ max_keys
  pub single :
      (i j : ℕ) → i < s.idx → j < s.idx → s.key_arr i ≢ no_key → s.key_arr i ≡ s.key_arr j → i ≡ j
  pub stored : (i : ℕ) → i < s.idx → s.key_arr i ≢ no_key → (v : List ℕ) × (s.value_arr i ≡ some v)

abbrev pub IsKeyAt : Array ℤ → (key : ℤ) → (left i : ℕ) → Option ℕ → Type 0
IsKeyAt key_arr key = IsFirst (λ k. key_arr k ≡ key)

pub find_key-IsKeyAt :
    (key_arr : Array ℤ) (key : ℤ) (left i : ℕ)
    → IsKeyAt key_arr key left i (find_key key_arr key left i)
unfolding find_key
find_key-IsKeyAt key_arr key zero i = IsFirst-none (λ k. key_arr k ≡ key) i
find_key-IsKeyAt key_arr key (suc left) i = elim (Bool-cases (eqb_ℤ (key_arr i) key)) [
  | inl same ↦
      rw (find_key, same)
        (IsFirst-here (λ k. key_arr k ≡ key) left i (eqb_ℤ→eq (key_arr i) key same))
  | inr other ↦
      rw (find_key, other)
        (IsFirst-later (λ k. key_arr k ≡ key) left i (find_key key_arr key left (i + 1))
          (eqb_ℤ→ne (key_arr i) key other) (find_key-IsKeyAt key_arr key left (i + 1)))
]

pub find_key-eq :
    (key_arr : Array ℤ) (key : ℤ) (left : ℕ) {o : Option ℕ}
    → IsKeyAt key_arr key left 0 o
    → find_key key_arr key left 0 ≡ o
find_key-eq key_arr key left {o} f =
    IsFirst-unique (λ k. key_arr k ≡ key) left 0 (find_key key_arr key left 0) o
      (find_key-IsKeyAt key_arr key left 0) f

-- In a valid store a key is found in its slot.
pub find_key-single :
    (s : Store) (key : ℤ) (i : ℕ)
    → IsValid s
    → key ≢ no_key
    → i < s.idx
    → s.key_arr i ≡ key
    → find_key s.key_arr key s.idx 0 ≡ some i
find_key-single s key i v ne lt e = find_key-eq s.key_arr key s.idx (
  omega arith,
  omega arith,
  e,
  λ k lo hi e'. omega (arith, v.single i k lt (omega arith) (λ q. ne (sym e ∙ q)) (e ∙ sym e')),
)
