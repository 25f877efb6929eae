-- ===== src/Server/Tests.antt =====
-- A run of the server: `create 7 4 abc`, then commands on the pair.
mod Session
use os_modules.Prelude.{
  ℕ, ◌+◌, ◌≡◌, ◌≢◌, ◌<◌, refl, true, false, none, some, List, [], ◌∷◌, ◌++◌, arith,
}
use os_modules.Prelude.Array.{update}
use os_modules.Prelude.Int.{pos, negsuc}
use os_modules.Prelude.Text.{zeros, string, same_string}
use os_modules.Prelude.Result.{ok, fault, out_of_bounds, use_after_free}
use os_modules.Server.Tokens.{tokenize, split, token_at, atoi, signed, digits}
use os_modules.Server.Store.{
  Store, storage_full, already_key_exists, pair_added, no_such_key, deleted_key, the_value,
  max_keys, find_key, strcpy, free_value, add_pair, create_at, create_key_value_pair, read_at,
  read_pair, delete_at, delete_pair,
}
use os_modules.Server.Loop.{
  create_word, read_word, delete_word, disconnect_word, command, round, serve,
}
use os_modules.Server.Valid.{IsValid, no_key}
use os_modules.Server.Lookup.{lookup}
use os_modules.Server.Changes.{Maps}
use os_modules.Server.Commands.{create_key_value_pair_lem}
use os_modules.Server.Client.{connect_word, disconnecting_word, done, message, client_loop}
use os_modules.Server.Talk.{
  text, server, shown, connected, unconnected, messages, client_loop-serve,
}
use os_modules.Server.Map.{create, read, KeyMap, answer, assign, replies_to, Holds, IsNamed}
use os_modules.Server.Requests.{serve-replies_to}
use os_modules.Prelude.Run.{gives}
use os_modules.Server.Sockets.{
  Sockets, make_server, accept_client, main_loop, main_round, after_round, receive_msg,
  answer_client, send_msg, main,
}

abbrev pub seven : List ℕ
seven = b'7' ∷ []

abbrev pub abc : List ℕ
abc = b'a' ∷ b'b' ∷ b'c' ∷ []

abbrev pub create_message : List ℕ
create_message = create_word ++ (32 ∷ b'7' ∷ 32 ∷ b'4' ∷ 32 ∷ b'a' ∷ b'b' ∷ b'c' ∷ 10 ∷ [])

abbrev delete_message : List ℕ
delete_message = delete_word ++ (32 ∷ b'7' ∷ [])

abbrev pub read_message : List ℕ
read_message = read_word ++ (32 ∷ b'7' ∷ [])

abbrev create_tokens : List (List ℕ)
create_tokens = create_word ∷ seven ∷ (b'4' ∷ []) ∷ abc ∷ []

tokenize_create : tokenize create_message ≡ create_tokens
unfolding tokenize split string
tokenize_create = refl

-- The arrays as static data.
abbrev pub empty : Store
empty = record { key_arr = λ _. pos 0; value_len = λ _. pos 0; value_arr = λ _. none; idx = 0 }

abbrev pub one_pair : Store
one_pair = record {
  key_arr = update empty.key_arr 0 (pos 7);
  value_len = update empty.value_len 0 (pos 4);
  value_arr = update empty.value_arr 0 (some abc);
  idx = 1;
}

pub empty-IsValid : IsValid empty
empty-IsValid = record {
  room = omega arith;
  single = λ i j hi hj u e. absurd (omega arith);
  stored = λ i hi u. absurd (omega arith);
}

one_pair-IsValid : IsValid one_pair
unfolding update
one_pair-IsValid = record {
  room = omega arith;
  single = λ i j hi hj u e. omega arith;
  stored = λ i hi u. (abc, ground arith);
}

seven_is_key : atoi seven ≢ no_key
unfolding atoi signed digits
seven_is_key e = cc

-- The pair is created, read and deleted; its slot stays in use.
serve_run :
    serve
      ((create_message, true)
        ∷ (read_message, true)
        ∷ (delete_message, true)
        ∷ (read_message, false)
        ∷ [])
      empty
    ≡ ok (
      pair_added ∷ the_value abc ∷ deleted_key ∷ no_such_key ∷ [],
      record {
        key_arr = update one_pair.key_arr 0 (negsuc 0);
        value_len = update one_pair.value_len 0 (negsuc 0);
        value_arr = update one_pair.value_arr 0 none;
        idx = 1;
      },
    )
unfolding serve round command tokenize split string token_at same_string create_key_value_pair
    create_at add_pair strcpy read_pair read_at delete_pair delete_at free_value find_key atoi
    signed digits
serve_run = refl

-- A value as long as its size leaves no byte for its end.
long_value :
    round (create_word ++ (32 ∷ b'7' ∷ 32 ∷ b'3' ∷ 32 ∷ b'a' ∷ b'b' ∷ b'c' ∷ [])) empty
    ≡ fault out_of_bounds
unfolding round command tokenize split string token_at same_string create_key_value_pair create_at
    add_pair strcpy find_key atoi signed digits
long_value = refl

-- Nothing is read at the end of a connection, and no token is there to compare.
end_of_input : round [] empty ≡ fault out_of_bounds
unfolding round tokenize split string token_at
end_of_input = refl

-- The key -1 finds a slot that has been deleted.
read_freed :
    round (read_word ++ (32 ∷ b'-' ∷ b'1' ∷ [])) (record one_pair {
      key_arr = update one_pair.key_arr 0 (negsuc 0);
      value_arr = update one_pair.value_arr 0 none;
    })
    ≡ fault use_after_free
unfolding round command tokenize split string token_at same_string read_pair read_at find_key update
    atoi signed digits
read_freed = refl

create_key_value_pair_lem_example :
    (empty.idx < max_keys
      → lookup (atoi seven) empty ≡ none
      → (s' : Store) × (create_key_value_pair create_tokens empty ≡ ok (pair_added, s'))
        × Maps (atoi seven) (some abc) empty s'
        × (s'.idx ≡ empty.idx + 1))
    × (empty.idx < max_keys
        → (old : List ℕ) → lookup (atoi seven) empty ≡ some old
        → create_key_value_pair create_tokens empty ≡ ok (already_key_exists, empty))
    × (empty.idx ≡ max_keys → create_key_value_pair create_tokens empty ≡ ok (storage_full, empty))
unfolding token_at atoi signed digits
create_key_value_pair_lem_example =
    create_key_value_pair_lem create_tokens seven empty empty-IsValid refl seven_is_key (b'4' ∷ [])
      abc refl refl refl
