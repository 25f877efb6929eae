-- ===== src/Server/Changes.antt =====
-- The commands that change the store, as changes of the partial function.
use mathlib.Core.Path.{subst}
use os_modules.Prelude.{
  ℕ, ◌+◌, ◌<◌, ◌≡◌, ◌≢◌, refl, sym, ap, ◌∙◌, Option, none, some, List, arith, inl, inr,
  Option-cases, ℕ_discrete,
}
use os_modules.Prelude.Array.{update, update_self, update_ne, update_at}
use os_modules.Prelude.Int.{ℤ}
use os_modules.Server.Store.{Store, max_keys, find_key}
use os_modules.Server.Valid.{IsValid, IsKeyAt, no_key, find_key-eq, find_key-single}
use os_modules.Server.Lookup.{value_at, lookup, lookup-some}

lookup-single :
    (key : ℤ) (s : Store) (i : ℕ)
    → IsValid s
    → key ≢ no_key
    → i < s.idx
    → s.key_arr i ≡ key
    → lookup key s ≡ s.value_arr i
unfolding lookup
lookup-single key s i v ne lt e = ap (value_at s.value_arr) (find_key-single s key i v ne lt e)

lookup_absent :
    (key : ℤ) (s : Store) → ((i : ℕ) → i < s.idx → s.key_arr i ≢ key) → lookup key s ≡ none
unfolding lookup
lookup_absent key s no_slot =
    let no_first : IsKeyAt s.key_arr key s.idx 0 none = λ k lo hi. no_slot k (omega arith) in
    let not_found : find_key s.key_arr key s.idx 0 ≡ none =
      find_key-eq s.key_arr key s.idx no_first in
    ap (value_at s.value_arr) not_found

slot_absent :
    (key : ℤ) (s : Store)
    → IsValid s
    → key ≢ no_key
    → lookup key s ≡ none
    → (i : ℕ) → i < s.idx
    → s.key_arr i ≢ key
slot_absent key s v ne e i lt at =
    let (w, there) = v.stored i lt (λ q. ne (sym at ∙ q)) in
    cc (lookup-single key s i v ne lt at, there, e)

-- A key whose slot and value are the same in both stores.
same_lookup :
    (key : ℤ) (s s' : Store)
    → IsValid s
    → IsValid s'
    → key ≢ no_key
    → ((i : ℕ)
        → i < s.idx
        → s.key_arr i ≡ key
        → (i < s'.idx) × (s'.key_arr i ≡ key) × (s'.value_arr i ≡ s.value_arr i))
    → ((i : ℕ) → i < s'.idx → s'.key_arr i ≡ key → (i < s.idx) × (s.key_arr i ≡ key))
    → lookup key s' ≡ lookup key s
same_lookup key s s' v v' ne there back = elim (Option-cases (lookup key s)) [
  | inl e ↦
      lookup_absent key s' (λ i lt at. slot_absent key s v ne e i (back i lt at).0 (back i lt at).1)
      ∙ sym e
  | inr (w, e) ↦
      let (i, found, value_eq, lt, at) = lookup-some key s e in
      let (lt', at', same) = there i lt at in
      lookup-single key s' i v' ne lt' at' ∙ same ∙ value_eq ∙ sym e
]

-- The store `s'` gives `key` the value `value`, and every other key what `s` gives it.
pub record Maps (key : ℤ) (value : Option (List ℕ)) (s s' : Store) : Type 0 where
  pub valid : IsValid s'
  pub here : lookup key s' ≡ value
  pub elsewhere : (key' : ℤ) → key' ≢ no_key → key' ≢ key → lookup key' s' ≡ lookup key' s

module _ (key : ℤ) (s : Store) (v : IsValid s) (ne : key ≢ no_key) where
  module _ (value : List ℕ) (size : ℤ) where
    abbrev pub added : Store
    added = record {
      key_arr = update s.key_arr s.idx key;
      value_len = update s.value_len s.idx size;
      value_arr = update s.value_arr s.idx (some value);
      idx = s.idx + 1;
    }

    module _ (room : s.idx < max_keys) (absent : lookup key s ≡ none) where
      added-IsValid : IsValid added
      added-IsValid = record {
        room = omega arith;
        single = λ i j hi hj.
            update_at (λ a. a ≢ no_key → a ≡ update s.key_arr s.idx key j → i ≡ j) s.key_arr s.idx i
              (λ at_i.
                update_at (λ b. key ≢ no_key → key ≡ b → i ≡ j) s.key_arr s.idx j
                  (λ at_j u e. sym at_i ∙ at_j)
                  (λ nj u e. absurd (slot_absent key s v ne absent j (omega arith) (sym e))))
              (λ ni.
                update_at (λ b. s.key_arr i ≢ no_key → s.key_arr i ≡ b → i ≡ j) s.key_arr s.idx j
                  (λ at_j u e. absurd (slot_absent key s v ne absent i (omega arith) e))
                  (λ nj u e. v.single i j (omega arith) (omega arith) u e));
        stored = λ i hi. elim (ℕ_discrete s.idx i) [
          | yes last ↦ λ u. (
            value,
            subst (λ t. update s.value_arr s.idx (some value) t ≡ some value) last
                (update_self s.value_arr s.idx (some value)),
          )
          | no before ↦ λ u.
              let (w, e) =
                v.stored i (omega arith) (λ q. u (update_ne s.key_arr s.idx i key before ∙ q)) in
              (w, update_ne s.value_arr s.idx i (some value) before ∙ e)
        ];
      }

      pub added-Maps : Maps key (some value) s added
      added-Maps = record {
        valid = added-IsValid;
        here =
            lookup-single key added s.idx added-IsValid ne (omega arith)
              (update_self s.key_arr s.idx key)
            ∙ update_self s.value_arr s.idx (some value);
        elsewhere = λ key' ne' other.
            same_lookup key' s added v added-IsValid ne'
              (λ i lt at. (
                omega arith,
                update_ne s.key_arr s.idx i key (omega arith) ∙ at,
                update_ne s.value_arr s.idx i (some value) (omega arith),
              ))
              (λ i lt. elim (ℕ_discrete s.idx i) [
                | yes last ↦ λ at.
                    let is_key =
                      sym (update_self s.key_arr s.idx key)
                      ∙ ap (update s.key_arr s.idx key) last in
                    absurd (other (sym (is_key ∙ at)))
                | no before ↦ λ at. (omega arith, sym (update_ne s.key_arr s.idx i key before) ∙ at)
              ]);
      }

    module _ (i : ℕ) (lt : i < s.idx) (at : s.key_arr i ≡ key) where
      abbrev pub changed : Store
      changed = record s {
        value_len = update s.value_len i size;
        value_arr = update s.value_arr i (some value);
      }

      changed-IsValid : IsValid changed
      changed-IsValid = record {
        room = v.room;
        single = v.single;
        stored = λ k hk u.
            update_at (λ o. (w : List ℕ) × (o ≡ some w)) s.value_arr i k (λ e. (value, refl))
              (λ nk. v.stored k hk u);
      }

      pub changed-Maps : Maps key (some value) s changed
      changed-Maps = record {
        valid = changed-IsValid;
        here =
            lookup-single key changed i changed-IsValid ne lt at
            ∙ update_self s.value_arr i (some value);
        elsewhere = λ key' ne' other.
            same_lookup key' s changed v changed-IsValid ne'
              (λ k hk at'. (
                hk,
                at',
                update_ne s.value_arr i k (some value)
                    (λ q. other (sym at' ∙ ap s.key_arr (sym q) ∙ at)),
              ))
              (λ k hk at'. (hk, at'));
      }

  module _ (i : ℕ) (lt : i < s.idx) (at : s.key_arr i ≡ key) where
    abbrev pub removed : Store
    removed = record s {
      key_arr = update s.key_arr i no_key;
      value_len = update s.value_len i no_key;
      value_arr = update s.value_arr i none;
    }

    -- A slot whose key is another one is as it was.
    left_alone :
        (k : ℕ) (key' : ℤ)
        → key' ≢ no_key
        → update s.key_arr i no_key k ≡ key'
        → (i ≢ k) × (s.key_arr k ≡ key')
    left_alone k key' ne' = elim (ℕ_discrete i k) [
      | yes e ↦ λ q.
          absurd
            (ne' (sym q ∙ sym (ap (update s.key_arr i no_key) e) ∙ update_self s.key_arr i no_key))
      | no nk ↦ λ q. (nk, sym (update_ne s.key_arr i k no_key nk) ∙ q)
    ]

    removed-IsValid : IsValid removed
    removed-IsValid = record {
      room = v.room;
      single = λ k l hk hl u e.
          let (nk, at_k) = left_alone k (removed.key_arr k) u refl in
          let (nl, at_l) = left_alone l (removed.key_arr k) u (sym e) in
          v.single k l hk hl (λ q. u (sym at_k ∙ q)) (at_k ∙ sym at_l);
      stored = λ k hk u.
          let (nk, at_k) = left_alone k (removed.key_arr k) u refl in
          let (w, e) = v.stored k hk (λ q. u (sym at_k ∙ q)) in
          (w, update_ne s.value_arr i k none nk ∙ e);
    }

    pub removed-Maps : Maps key none s removed
    removed-Maps = record {
      valid = removed-IsValid;
      here = lookup_absent key removed (λ k hk e.
          let (nk, at_k) = left_alone k key ne e in
          nk (v.single i k lt hk (λ q. ne (sym at ∙ q)) (at ∙ sym at_k)));
      elsewhere = λ key' ne' other.
          same_lookup key' s removed v removed-IsValid ne'
            (λ k hk at'.
              let apart : i ≢ k = λ q. other (sym at' ∙ ap s.key_arr (sym q) ∙ at) in
              (
                hk,
                update_ne s.key_arr i k no_key apart ∙ at',
                update_ne s.value_arr i k none apart,
              ))
            (λ k hk at'. (hk, (left_alone k key' ne' at').1));
    }
