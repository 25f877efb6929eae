-- ===== src/Server/Lookup.antt =====
-- The store as a partial function from keys to values, and the commands that read it.
use mathlib.Core.Path.{subst}
use os_modules.Prelude.{
  ℕ, ◌<◌, ◌≡◌, ◌≢◌, refl, sym, ap, ◌∙◌, Option, none, some, List, arith, ◌⊎◌, inl, inr,
  Option-cases,
}
use os_modules.Prelude.Array.{Array}
use os_modules.Prelude.Int.{ℤ}
use os_modules.Prelude.Result.{ok}
use os_modules.Server.Tokens.{token_at, atoi}
use os_modules.Server.Store.{Store, no_such_key, the_value, find_key, read_at, read_pair}
use os_modules.Server.Valid.{IsValid, IsKeyAt, no_key, find_key-IsKeyAt}

abbrev pub value_at : Array (Option (List ℕ)) → Option ℕ → Option (List ℕ)
value_at value_arr none = none
value_at value_arr (some i) = value_arr i

-- The value of a key.
unfoldable pub lookup : (key : ℤ) → Store → Option (List ℕ)
unfolding find_key
lookup key s = value_at s.value_arr (find_key s.key_arr key s.idx 0)

-- The slot of a key that has one.
pub lookup-none :
    (key : ℤ) (s : Store)
    → IsValid s
    → key ≢ no_key
    → lookup key s ≡ none
    → find_key s.key_arr key s.idx 0 ≡ none
unfolding lookup
lookup-none key s v ne e = elim (Option-cases (find_key s.key_arr key s.idx 0)) [
  | inl e' ↦ e'
  | inr (i, e') ↦
      let at_i =
        subst (IsKeyAt s.key_arr key s.idx 0) e' (find_key-IsKeyAt s.key_arr key s.idx 0) in
      let (w, there) = v.stored i (omega (arith, at_i.1)) (λ q. ne (sym at_i.2 ∙ q)) in
      absurd (cc (there, ap (value_at s.value_arr) e', e))
]

pub lookup-some :
    (key : ℤ) (s : Store) {w : List ℕ}
    → lookup key s ≡ some w
    → (i : ℕ) × (find_key s.key_arr key s.idx 0 ≡ some i)
      × (s.value_arr i ≡ some w)
      × (i < s.idx)
      × (s.key_arr i ≡ key)
unfolding lookup
lookup-some key s {w} e = elim (Option-cases (find_key s.key_arr key s.idx 0)) [
  | inl e' ↦ absurd (cc (ap (value_at s.value_arr) e', e))
  | inr (i, e') ↦
      let at_i =
        subst (IsKeyAt s.key_arr key s.idx 0) e' (find_key-IsKeyAt s.key_arr key s.idx 0) in
      (i, e', sym (ap (value_at s.value_arr) e') ∙ e, omega (arith, at_i.1), at_i.2)
]

-- On a valid store, for a key other than -1, `read` answers with the value of the key, or that there is
-- no such key when it has none, and leaves the store.
pub read_pair_lem :
    (tokens : List (List ℕ)) (word : List ℕ) (s : Store)
    → IsValid s
    → token_at 1 tokens ≡ ok word
    → atoi word ≢ no_key
    → ((v : List ℕ) × (lookup (atoi word) s ≡ some v) × (read_pair tokens s ≡ ok (the_value v, s)))
      ⊎ ((lookup (atoi word) s ≡ none) × (read_pair tokens s ≡ ok (no_such_key, s)))
unfolding read_pair read_at
read_pair_lem tokens word s v e ne = elim (Option-cases (lookup (atoi word) s)) [
  | inl absent ↦ inr (absent, rw (e, lookup-none (atoi word) s v ne absent) refl)
  | inr (w, present) ↦
      let (i, found, there, lt, at) = lookup-some (atoi word) s present in
      inl (w, present, rw (e, found, read_at, there) refl)
]
