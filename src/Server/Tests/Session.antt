-- ===== src/Server/Tests/Session.antt =====
-- Sessions with the server: a client, requests, and main with a system that delivers messages.
use os_modules.Prelude.{ℕ, ◌≡◌, refl, ◌⊎◌, true, none, some, List, [], ◌∷◌, ◌++◌}
use os_modules.Prelude.Int.{ℤ, pos}
use os_modules.Prelude.Text.{zeros, string, same_string}
use os_modules.Prelude.Result.{ok}
use os_modules.Server.Tokens.{tokenize, split, token_at, atoi, signed, digits}
use os_modules.Server.Store.{
  Store, pair_added, the_value, find_key, strcpy, add_pair, create_at, create_key_value_pair,
}
use os_modules.Server.Loop.{create_word, read_word, disconnect_word, command, round, serve}
use os_modules.Server.Lookup.{lookup}
use os_modules.Server.Client.{connect_word, disconnecting_word, done, message, client_loop}
use os_modules.Server.Talk.{
  text, server, shown, connected, unconnected, messages, client_loop-serve,
}
use os_modules.Server.Map.{create, read, KeyMap, answer, assign, replies_to, Holds, IsNamed}
use os_modules.Server.Requests.{serve-replies_to}
use os_modules.Prelude.Run.{exits, gives}
use os_modules.Server.Sockets.{
  Sockets, make_server, accept_client, main_loop, main_round, after_round, receive_msg,
  answer_client, send_msg, main,
}
use os_modules.Server.Dialogue.{Started, StartFails, Explained}
use os_modules.Server.Connection.{main-Explained}
use os_modules.Server.Tests.{
  seven, abc, create_message, read_message, empty, one_pair, empty-IsValid,
}

abbrev connect_line : List ℕ
connect_line = connect_word ++ (32 ∷ b'h' ∷ 32 ∷ b'9' ∷ 10 ∷ [])

abbrev disconnect_line : List ℕ
disconnect_line = disconnect_word ++ (10 ∷ [])

created : serve (messages (create_message ∷ [])) empty ≡ ok (pair_added ∷ [], one_pair)
unfolding serve round command tokenize split string token_at same_string create_key_value_pair
    create_at add_pair strcpy find_key atoi signed digits message zeros
created = refl

client_loop-serve_example :
    client_loop server (connect_line ∷ create_message ∷ disconnect_line ∷ []) (unconnected empty)
    ≡ ok (done (connected (shown pair_added ∷ disconnecting_word ∷ []) one_pair))
unfolding text string same_string tokenize split round command token_at message zeros
client_loop-serve_example =
    client_loop-serve connect_line (create_message ∷ []) disconnect_line [] empty (b'h' ∷ [])
      (b'9' ∷ []) [] refl created (refl, tt) refl

abbrev no_pairs : KeyMap
no_pairs = record { value = λ _. none; created = 0 }

empty-Holds : Holds empty no_pairs
unfolding lookup find_key
empty-Holds = record { valid = empty-IsValid; values = λ key ne. refl; slots = refl }

IsNamed-create : IsNamed create_message create_word (pos 7)
unfolding tokenize split string token_at atoi signed digits
IsNamed-create = record {
  some_bytes = refl;
  word = seven;
  command_token = refl;
  key_token = refl;
  key_eq = refl;
  not_deleted = λ e. cc;
}

IsNamed-read : IsNamed read_message read_word (pos 7)
unfolding tokenize split string token_at atoi signed digits
IsNamed-read = record {
  some_bytes = refl;
  word = seven;
  command_token = refl;
  key_token = refl;
  key_eq = refl;
  not_deleted = λ e. cc;
}

serve-replies_to_example :
    (s' : Store) × (serve ((create_message, true) ∷ (read_message, true) ∷ []) empty
      ≡ ok (pair_added ∷ the_value abc ∷ [], s'))
    × Holds s' (replies_to (create (pos 7) abc ∷ read (pos 7) ∷ []) no_pairs).1
unfolding replies_to answer assign tokenize split string token_at atoi signed digits
serve-replies_to_example =
    serve-replies_to ((create_message, create (pos 7) abc) ∷ (read_message, read (pos 7)) ∷ [])
      empty no_pairs ((IsNamed-create, (b'4' ∷ [], refl, refl, refl)), (IsNamed-read, tt))
      empty-Holds

-- A system that delivers the messages of a list.
abbrev messenger : Sockets (List (List ℕ))
messenger = record {
  socket = λ w. (pos 3, w);
  bind = λ sockfd port w. (pos 0, w);
  listen = λ sockfd w. w;
  accept = λ sockfd w. (pos 4, w);
  close = λ newsockfd w. w;
  read = λ newsockfd w. elim w [ [] ↦ (some [], []) | buffer ∷ more ↦ (some buffer, more) ];
  write = λ newsockfd message w. (some true, w);
}

main_run :
    main messenger (pos 80) 1 empty (create_message ∷ [])
    ≡ gives (
      pair_added ∷ [],
      record { sockfd = pos 3; newsockfd = pos 4; store = one_pair; world = [] },
    )
unfolding main make_server accept_client main_loop main_round after_round receive_msg answer_client
    send_msg round command tokenize split string token_at same_string create_key_value_pair
    create_at add_pair strcpy find_key atoi signed digits
main_run = refl

main-Explained_example :
    ((w : List (List ℕ)) × StartFails messenger (pos 80) (create_message ∷ []) w
      × (main messenger (pos 80) 1 empty (create_message ∷ []) ≡ exits w))
    ⊎ ((sockfd fd : ℤ) × (w : List (List ℕ)) × Started messenger
          (pos 80)
          (create_message ∷ [])
          sockfd
          fd
          w
        × Explained messenger sockfd 1 empty fd w
            (main messenger (pos 80) 1 empty (create_message ∷ [])))
main-Explained_example = main-Explained messenger (pos 80) 1 empty (create_message ∷ [])
