-- ===== src/Server/Map.antt =====
-- my_server.c: the server as a map from numbers to strings.
use os_modules.Prelude.{
  ℕ, ◌+◌, ◌≤◌, ◌≡◌, ◌≢◌, true, Option, none, some, List, [], ◌∷◌, ltb, if◌then◌else◌, ◌==◌,
}
use os_modules.Prelude.Int.{ℤ, pos, ltb_ℤ, eqb_ℤ}
use os_modules.Prelude.Text.{length}
use os_modules.Prelude.Result.{ok}
use os_modules.Server.Tokens.{tokenize, token_at, atoi}
use os_modules.Server.Store.{
  Store, Reply, storage_full, already_key_exists, pair_added, no_such_key, updated, deleted_key,
  the_value, max_keys,
}
use os_modules.Server.Loop.{create_word, read_word, update_word, delete_word}
use os_modules.Server.Valid.{IsValid, no_key}
use os_modules.Server.Lookup.{lookup}

pub data Request : Type 0 where
  create : (key : ℤ) → (value : List ℕ) → Request
  read : (key : ℤ) → Request
  update : (key : ℤ) → (value : List ℕ) → Request
  delete : (key : ℤ) → Request

-- The values of the keys, and how many pairs have been created.
pub record KeyMap : Type 0 where
  pub value : ℤ → Option (List ℕ)
  pub created : ℕ

unfoldable pub assign : (key : ℤ) → (value : Option (List ℕ)) → KeyMap → KeyMap
assign key value m = record m { value = λ k. if eqb_ℤ key k then value else m.value k }

-- The answer to a request, for what the map has at its key.
unfoldable pub answer : Request → (old : Option (List ℕ)) → KeyMap → Reply × KeyMap
unfolding assign
answer (create key value) none m =
    if m.created == max_keys
    then (storage_full, m)
    else (pair_added, record (assign key (some value) m) { created = m.created + 1 })
answer (create key value) (some old) m =
    if m.created == max_keys then (storage_full, m) else (already_key_exists, m)
answer (read key) none m = (no_such_key, m)
answer (read key) (some old) m = (the_value old, m)
answer (update key value) none m = (no_such_key, m)
answer (update key value) (some old) m = (updated, assign key (some value) m)
answer (delete key) none m = (no_such_key, m)
answer (delete key) (some old) m = (deleted_key, assign key none m)

abbrev pub key_of : Request → ℤ
key_of (create key value) = key
key_of (read key) = key
key_of (update key value) = key
key_of (delete key) = key

abbrev pub reply_to : Request → KeyMap → Reply × KeyMap
reply_to r m = answer r (m.value (key_of r)) m

unfoldable pub replies_to : List Request → KeyMap → List Reply × KeyMap
replies_to [] m = ([], m)
replies_to (r ∷ requests) m =
    let (reply, m') = reply_to r m in
    let (replies, m'') = replies_to requests m' in (reply ∷ replies, m'')

-- The store holds the map, at the keys other than -1.
pub record Holds (s : Store) (m : KeyMap) : Type 0 where
  pub valid : IsValid s
  pub values : (key : ℤ) → key ≢ no_key → lookup key s ≡ m.value key
  pub slots : s.idx ≡ m.created

-- The tokens of a request with its key.
pub record IsNamed (buffer command_word : List ℕ) (key : ℤ) : Type 0 where
  pub some_bytes : ltb 0 (length buffer) ≡ true
  pub word : List ℕ
  pub command_token : token_at 0 (tokenize buffer) ≡ ok command_word
  pub key_token : token_at 1 (tokenize buffer) ≡ ok word
  pub key_eq : atoi word ≡ key
  pub not_deleted : key ≢ no_key

-- The message is that request. The value of a `create` is shorter than the size that is given; that of an `update` has at
-- most 3 characters.
abbrev pub IsRequest : (buffer : List ℕ) → Request → Type 0
IsRequest buffer (create key value) =
    IsNamed buffer create_word key
    × ((size_word : List ℕ) × (token_at 2 (tokenize buffer) ≡ ok size_word)
        × (token_at 3 (tokenize buffer) ≡ ok value)
        × (ltb_ℤ (pos (length value)) (atoi size_word) ≡ true))
IsRequest buffer (read key) = IsNamed buffer read_word key
IsRequest buffer (update key value) =
    IsNamed buffer update_word key
    × ((size_word : List ℕ) × (token_at 2 (tokenize buffer) ≡ ok size_word)
        × (token_at 3 (tokenize buffer) ≡ ok value)
        × (length value ≤ 3))
IsRequest buffer (delete key) = IsNamed buffer delete_word key
