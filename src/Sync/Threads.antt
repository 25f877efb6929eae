-- ===== src/Sync/Threads.antt =====
-- How many of `n` threads stand at a point of the program, and what moving one thread changes.
use os_modules.Prelude.{
  ℕ, zero, suc, ◌+◌, ◌≤◌, ◌<◌, ◌≡◌, refl, sym, ap, ◌∙◌, inl, inr, Bool, true, false, arith,
  Bool-cases, ℕ_discrete,
}
use os_modules.Prelude.Array.{Array, update, update_self, update_ne}

abbrev pub bit : Bool → ℕ
bit true = 1
bit false = 0

module _ {ℓ} {A : Type ℓ} (p : A → Bool) where
  pub count : ℕ → Array A → ℕ
  count zero f = 0
  count (suc n) f = bit (p (f n)) + count n f

  count-update_above :
      (n : ℕ) (f : Array A) (i : ℕ) (a : A) → n ≤ i → count n (update f i a) ≡ count n f
  unfolding count
  count-update_above zero f i a h = refl
  count-update_above (suc n) f i a h =
      rw (update_ne f i n a (omega arith), count-update_above n f i a (omega arith))

  pub count-update :
      (n : ℕ) (f : Array A) (i : ℕ) (a : A)
      → i < n
      → count n (update f i a) + bit (p (f i)) ≡ count n f + bit (p a)
  unfolding count
  count-update zero f i a h = elim h [ ]
  count-update (suc n) f i a h = elim (ℕ_discrete i n) [
    | yes last ↦ rw (last, update_self, count-update_above n f n a (omega arith)) (omega arith)
    | no below ↦ rw (update_ne f i n a below) (omega (arith, count-update n f i a (omega arith)))
  ]

  -- One thread moves.
  pub count_moved :
      (n : ℕ) (f : Array A) (i : ℕ) (from to : A)
      → i < n
      → f i ≡ from
      → count n (update f i to) + bit (p from) ≡ count n f + bit (p to)
  count_moved n f i from to lt at =
      ap (λ q. count n (update f i to) + bit (p q)) (sym at) ∙ count-update n f i to lt

  bit_at : (f : Array A) {i n : ℕ} → i ≡ n → p (f i) ≡ true → bit (p (f n)) ≡ 1
  bit_at f at e = rw (← at, e)

  pub count_pos : (n : ℕ) (f : Array A) (i : ℕ) → i < n → p (f i) ≡ true → 0 < count n f
  unfolding count
  count_pos zero f i h e = elim h [ ]
  count_pos (suc n) f i h e = elim (ℕ_discrete i n) [
    | yes last ↦ omega (arith, bit_at f last e)
    | no below ↦ omega (arith, count_pos n f i (omega arith) e)
  ]

  -- A thread that stands there, if any does.
  pub count_find : (n : ℕ) (f : Array A) → 0 < count n f → (i : ℕ) × (i < n) × (p (f i) ≡ true)
  unfolding count
  count_find zero f h = elim h [ ]
  count_find (suc n) f h = elim (Bool-cases (p (f n))) [
    | inl here ↦ (n, omega arith, here)
    | inr not_here ↦ let (i, lt, e) = count_find n f (ground arith) in (i, omega arith, e)
  ]

  pub count_zero : (n : ℕ) (f : Array A) → ((i : ℕ) → i < n → p (f i) ≡ false) → count n f ≡ 0
  unfolding count
  count_zero zero f h = refl
  count_zero (suc n) f h =
      rw (h n (omega arith)) (omega (arith, count_zero n f (λ i lt. h i (omega arith))))

  pub count_le : (n : ℕ) (f : Array A) → count n f ≤ n
  unfolding count
  count_le zero f = omega arith
  count_le (suc n) f = elim (Bool-cases (p (f n))) [
    | inl here ↦ rw here (omega (arith, count_le n f))
    | inr not_here ↦ rw not_here (omega (arith, count_le n f))
  ]

  -- At most one thread stands there.
  pub count_unique :
      (n : ℕ) (f : Array A)
      → count n f ≤ 1
      → (i j : ℕ) → i < n
      → j < n
      → p (f i) ≡ true
      → p (f j) ≡ true
      → i ≡ j
  unfolding count
  count_unique zero f h i j hi hj ei ej = elim hi [ ]
  count_unique (suc n) f h i j hi hj ei ej = elim (ℕ_discrete i n) [
    | yes li ↦ elim (ℕ_discrete j n) [
      | yes lj ↦ omega arith
      | no bj ↦ absurd (omega (arith, bit_at f li ei, count_pos n f j (omega arith) ej))
    ]
    | no bi ↦ elim (ℕ_discrete j n) [
      | yes lj ↦ absurd (omega (arith, bit_at f lj ej, count_pos n f i (omega arith) ei))
      | no bj ↦ count_unique n f (omega arith) i j (omega arith) (omega arith) ei ej
    ]
  ]

  -- A change of all threads that moves none there or away.
  pub count_map :
      (n : ℕ) (f : Array A) (g : A → A)
      → ((a : A) → p (g a) ≡ p a)
      → count n (λ i. g (f i)) ≡ count n f
  unfolding count
  count_map zero f g h = refl
  count_map (suc n) f g h = rw (h (f n), count_map n f g h)
