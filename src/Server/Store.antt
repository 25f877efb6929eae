-- ===== src/Server/Store.antt =====
-- my_server.c: the three arrays, and the commands on them.
use os_modules.Prelude.{ℕ, zero, suc, ◌+◌, Option, none, some, List, ◌==◌, if◌then◌else◌}
use os_modules.Prelude.Array.{Array, update}
use os_modules.Prelude.Int.{ℤ, pos, negsuc, eqb_ℤ, ltb_ℤ}
use os_modules.Prelude.Text.{length}
use os_modules.Prelude.Result.{Result, ok, fault, use_after_free, ◌>>=◌, ◌>>◌, within}
use os_modules.Server.Tokens.{token_at, atoi}

abbrev pub max_keys : ℕ
max_keys = 20

-- key_arr, value_len, value_arr and idx; a value is `none` when its pointer is to freed memory.
pub record Store : Type 0 where
  pub key_arr : Array ℤ
  pub value_len : Array ℤ
  pub value_arr : Array (Option (List ℕ))
  pub idx : ℕ

-- The messages of the server.
pub data Reply : Type 0 where
  storage_full already_key_exists pair_added no_such_key updated deleted_key : Reply
  disconnecting got_message : Reply
  the_value : List ℕ → Reply

-- The loop that every command has.
unfoldable pub find_key : Array ℤ → (key : ℤ) → (left i : ℕ) → Option ℕ
find_key key_arr key zero i = none
find_key key_arr key (suc left) i =
    let rest = find_key key_arr key left (i + 1) in if eqb_ℤ (key_arr i) key then some i else rest

-- malloc(size), and strcpy into it; with a negative size malloc fails.
unfoldable pub strcpy : (size : ℤ) → List ℕ → Result (List ℕ)
strcpy size value = within (ltb_ℤ (pos (length value)) size) >> ok value

unfoldable pub free_value : Option (List ℕ) → Result (Unit {0})
free_value none = fault use_after_free
free_value (some v) = ok tt

-- The end of `create_key_value_pair`.
unfoldable pub add_pair : (key : ℤ) → (tokens : List (List ℕ)) → Store → Result (Reply × Store)
unfolding token_at atoi strcpy update
add_pair key tokens s = do
  size ← token_at 2 tokens
  value ← token_at 3 tokens
  copied ← strcpy (atoi size) value
  ok (
    pair_added,
    record {
      key_arr = update s.key_arr s.idx key;
      value_len = update s.value_len s.idx (atoi size);
      value_arr = update s.value_arr s.idx (some copied);
      idx = s.idx + 1;
    },
  )

unfoldable pub create_at :
    (found : Option ℕ) → (key : ℤ) → (tokens : List (List ℕ)) → Store → Result (Reply × Store)
unfolding add_pair
create_at none key tokens s = add_pair key tokens s
create_at (some i) key tokens s = ok (already_key_exists, s)

unfoldable pub create_key_value_pair : (tokens : List (List ℕ)) → Store → Result (Reply × Store)
unfolding token_at atoi find_key create_at
create_key_value_pair tokens s = do
  key ← token_at 1 tokens
  if s.idx == max_keys
      then ok (storage_full, s)
      else create_at (find_key s.key_arr (atoi key) s.idx 0) (atoi key) tokens s

unfoldable pub read_at : (found : Option ℕ) → Store → Result (Reply × Store)
read_at none s = ok (no_such_key, s)
read_at (some i) s = elim (s.value_arr i) [
  | none ↦ fault use_after_free
  | some v ↦ ok (the_value v, s)
]

unfoldable pub read_pair : (tokens : List (List ℕ)) → Store → Result (Reply × Store)
unfolding token_at atoi find_key read_at
read_pair tokens s = do key ← token_at 1 tokens; read_at (find_key s.key_arr (atoi key) s.idx 0) s

-- The new memory has sizeof(value_len[idx]) bytes, which is 4.
unfoldable pub update_found :
    (found : Option ℕ) → (tokens : List (List ℕ)) → Store → Result (Reply × Store)
unfolding free_value token_at atoi strcpy update
update_found none tokens s = ok (no_such_key, s)
update_found (some i) tokens s = do
  free_value (s.value_arr i)
  size ← token_at 2 tokens
  value ← token_at 3 tokens
  copied ← strcpy (pos 4) value
  ok (
    updated,
    record s {
      value_len = update s.value_len i (atoi size);
      value_arr = update s.value_arr i (some copied);
    },
  )

unfoldable pub update_pair : (tokens : List (List ℕ)) → Store → Result (Reply × Store)
unfolding token_at atoi find_key update_found
update_pair tokens s = do
  key ← token_at 1 tokens
  update_found (find_key s.key_arr (atoi key) s.idx 0) tokens s

-- The slot stays below idx, with the key -1.
unfoldable pub delete_at : (found : Option ℕ) → Store → Result (Reply × Store)
unfolding free_value update
delete_at none s = ok (no_such_key, s)
delete_at (some i) s = do
  free_value (s.value_arr i)
  ok (
    deleted_key,
    record s {
      key_arr = update s.key_arr i (negsuc 0);
      value_len = update s.value_len i (negsuc 0);
      value_arr = update s.value_arr i none;
    },
  )

unfoldable pub delete_pair : (tokens : List (List ℕ)) → Store → Result (Reply × Store)
unfolding token_at atoi find_key delete_at
delete_pair tokens s = do
  key ← token_at 1 tokens
  delete_at (find_key s.key_arr (atoi key) s.idx 0) s
