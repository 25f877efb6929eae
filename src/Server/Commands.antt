-- ===== src/Server/Commands.antt =====
-- What the commands that change the store answer.
use os_modules.Prelude.{
  ℕ, ◌+◌, ◌≤◌, ◌<◌, ◌≡◌, ◌≢◌, refl, none, some, List, arith, true, false, ◌==◌,
}
use os_modules.Prelude.Int.{pos, ltb_ℤ}
use os_modules.Prelude.Text.{length}
use os_modules.Prelude.Result.{ok}
use os_modules.Server.Tokens.{token_at, atoi}
use os_modules.Server.Store.{
  Store, storage_full, already_key_exists, pair_added, no_such_key, updated, deleted_key, max_keys,
  strcpy, free_value, add_pair, create_at, create_key_value_pair, update_found, update_pair,
  delete_at, delete_pair,
}
use os_modules.Server.Valid.{IsValid, no_key}
use os_modules.Server.Lookup.{lookup, lookup-none, lookup-some}
use os_modules.Server.Changes.{
  Maps, added, added-Maps, changed, changed-Maps, removed, removed-Maps,
}

module _ (tokens : List (List ℕ)) (word : List ℕ) (s : Store) (v : IsValid s)
    (key_token : token_at 1 tokens ≡ ok word) (ne : atoi word ≢ no_key) where
  -- On a valid store, for a key other than -1: `delete` of a key that has a value takes it away from the
  -- key and from no other, and the store stays valid with as many slots; otherwise it answers that there is no such key.
  pub delete_pair_lem :
      ((value : List ℕ)
        → lookup (atoi word) s ≡ some value
        → (s' : Store) × (delete_pair tokens s ≡ ok (deleted_key, s'))
          × Maps (atoi word) none s s'
          × (s'.idx ≡ s.idx))
      × (lookup (atoi word) s ≡ none → delete_pair tokens s ≡ ok (no_such_key, s))
  unfolding delete_pair delete_at free_value
  delete_pair_lem = (
    λ value e.
        let (i, found, there, lt, at) = lookup-some (atoi word) s e in
        (
          removed (atoi word) s v ne i lt at,
          rw (key_token, found, delete_at, there) refl,
          removed-Maps (atoi word) s v ne i lt at,
          refl,
        ),
    λ e. rw (key_token, lookup-none (atoi word) s v ne e) refl,
  )

  module _ (size_word value : List ℕ) (size_token : token_at 2 tokens ≡ ok size_word)
      (value_token : token_at 3 tokens ≡ ok value) where
    -- On a valid store, for a key other than -1 and a value shorter than the size that the command
    -- gives: when slots are left, `create` of a key without a value gives it the value and changes no
    -- other key, and the store stays valid with one slot less; of a key with a value it answers that
    -- the key exists. When no slot is left it answers that the storage is full.
    pub create_key_value_pair_lem :
        ltb_ℤ (pos (length value)) (atoi size_word) ≡ true
        → (s.idx < max_keys
            → lookup (atoi word) s ≡ none
            → (s' : Store) × (create_key_value_pair tokens s ≡ ok (pair_added, s'))
              × Maps (atoi word) (some value) s s'
              × (s'.idx ≡ s.idx + 1))
          × (s.idx < max_keys
              → (old : List ℕ) → lookup (atoi word) s ≡ some old
              → create_key_value_pair tokens s ≡ ok (already_key_exists, s))
          × (s.idx ≡ max_keys → create_key_value_pair tokens s ≡ ok (storage_full, s))
    unfolding create_key_value_pair create_at add_pair strcpy
    create_key_value_pair_lem fits = (
      λ room e.
          let more : (s.idx == max_keys) ≡ false = ground arith in
          (
            added (atoi word) s v ne value (atoi size_word),
            rw (key_token, more, lookup-none (atoi word) s v ne e, size_token, value_token, fits)
                refl,
            added-Maps (atoi word) s v ne value (atoi size_word) room e,
            refl,
          ),
      λ room old e.
          let more : (s.idx == max_keys) ≡ false = ground arith in
          let (i, found, there, lt, at) = lookup-some (atoi word) s e in
          rw (key_token, more, found) refl,
      λ full.
          let no_more : (s.idx == max_keys) ≡ true = ground arith in rw (key_token, no_more) refl,
    )

    -- On a valid store, for a key other than -1 and a value of at most 3 characters, which is what the
    -- new memory holds: `update` of a key with a value gives it the new one and changes no other key,
    -- and the store stays valid with as many slots; otherwise it answers that there is no such key.
    pub update_pair_lem :
        length value ≤ 3
        → ((old : List ℕ)
            → lookup (atoi word) s ≡ some old
            → (s' : Store) × (update_pair tokens s ≡ ok (updated, s'))
              × Maps (atoi word) (some value) s s'
              × (s'.idx ≡ s.idx))
          × (lookup (atoi word) s ≡ none → update_pair tokens s ≡ ok (no_such_key, s))
    unfolding update_pair update_found free_value strcpy
    update_pair_lem short = (
      λ old e.
          let (i, found, there, lt, at) = lookup-some (atoi word) s e in
          let fits : ltb_ℤ (pos (length value)) (pos 4) ≡ true = ground arith in
          (
            changed (atoi word) s v ne value (atoi size_word) i lt at,
            rw (key_token, found, update_found, there, size_token, value_token, fits) refl,
            changed-Maps (atoi word) s v ne value (atoi size_word) i lt at,
            refl,
          ),
      λ e. rw (key_token, lookup-none (atoi word) s v ne e) refl,
    )
