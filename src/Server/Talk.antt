-- ===== src/Server/Talk.antt =====
-- my_server.c and my_client.c together: a client whose socket leads to the server.
use mathlib.Core.List.{map, append_assoc, append-nil}
use mathlib.Core.Path.{ap₂, subst}
use os_modules.Prelude.{
  ℕ, ◌≡◌, refl, sym, ap, ◌∙◌, Bool, true, false, some, List, [], ◌∷◌, ◌++◌, ltb, if◌then◌else◌,
  arith,
}
use os_modules.Prelude.Text.{zeros, length, string, same_string, take}
use os_modules.Prelude.Result.{Result, ok, fault, ◌>>=◌, >>=-eq-ok, ok_pair}
use os_modules.Server.Tokens.{tokenize, token_at}
use os_modules.Server.Store.{
  Store, Reply, storage_full, already_key_exists, pair_added, no_such_key, updated, deleted_key,
  disconnecting, got_message, the_value,
}
use os_modules.Server.Loop.{round, serve}
use os_modules.Server.Client.{
  connect_word, disconnecting_word, Net, Client, running, done, message, make_connection, join,
  receive, exchange, client_round, client_loop, go_on,
}

-- The bytes of a reply, up to the end of the string; send_msg writes 100.
unfoldable pub text : Reply → List ℕ
text storage_full =
    b's' ∷ b't' ∷ b'o' ∷ b'r' ∷ b'a' ∷ b'g' ∷ b'e' ∷ b' ' ∷ b'f' ∷ b'u' ∷ b'l' ∷ b'l' ∷ []
text already_key_exists =
    b'a' ∷ b'l' ∷ b'r' ∷ b'e' ∷ b'a' ∷ b'd' ∷ b'y' ∷ b' ' ∷ b'k' ∷ b'e' ∷ b'y' ∷ b' ' ∷ b'e' ∷ b'x'
    ∷ b'i' ∷ b's' ∷ b't' ∷ b's' ∷ []
text pair_added =
    b'K' ∷ b'e' ∷ b'y' ∷ b' ' ∷ b'V' ∷ b'a' ∷ b'l' ∷ b'u' ∷ b'e' ∷ b' ' ∷ b'p' ∷ b'a' ∷ b'i' ∷ b'r'
    ∷ b' ' ∷ b'A' ∷ b'd' ∷ b'd' ∷ b'e' ∷ b'd' ∷ []
text no_such_key = b'N' ∷ b'o' ∷ b' ' ∷ b's' ∷ b'u' ∷ b'c' ∷ b'h' ∷ b' ' ∷ b'k' ∷ b'e' ∷ b'y' ∷ []
text updated = b'U' ∷ b'p' ∷ b'd' ∷ b'a' ∷ b't' ∷ b'e' ∷ b'd' ∷ []
text deleted_key = b'D' ∷ b'e' ∷ b'l' ∷ b'e' ∷ b't' ∷ b'e' ∷ b'd' ∷ b' ' ∷ b'k' ∷ b'e' ∷ b'y' ∷ []
text disconnecting = disconnecting_word
text got_message =
    b'I' ∷ b' ' ∷ b'g' ∷ b'o' ∷ b't' ∷ b' ' ∷ b'y' ∷ b'o' ∷ b'u' ∷ b'r' ∷ b' ' ∷ b'm' ∷ b'e' ∷ b's'
    ∷ b's' ∷ b'a' ∷ b'g' ∷ b'e' ∷ []
text (the_value value) = take 100 value

-- The other end of the socket: the server's store, and the reply that was not yet read.
abbrev pub Wire : Type 0
Wire = Store × List ℕ

-- A server that stops at a fault leaves nothing to read.
abbrev answer : Store → Result (Reply × Store) → Wire
answer s (fault f) = (s, [])
answer s (ok (reply, s')) = (s', text reply)

unfoldable pub server : Net Wire
unfolding text round
server = record {
  connect = λ host port w. some w;
  write = λ bytes w. (true, answer w.0 (round bytes w.0));
  read = λ w. (w.1, (w.0, []));
}

-- What the client prints of a reply.
abbrev pub shown : Reply → List ℕ
shown reply = string (text reply)

-- The client is connected to a server in state `s`.
abbrev pub connected : (printed : List (List ℕ)) → Store → Client Wire
connected printed s = record { connection_flag = true; printed = printed; world = (s, []) }

-- The replies that do not end the session.
abbrev pub GoesOn : List Reply → Type 0
GoesOn [] = Unit
GoesOn (reply ∷ replies) = (same_string disconnecting_word (shown reply) ≡ false) × GoesOn replies

-- What the server reads of the lines, all of whose replies are written.
abbrev pub messages : List (List ℕ) → List (List ℕ × Bool)
messages lines = map (λ line. (message line, true)) lines

message-some : (line : List ℕ) → ltb 0 (length (message line)) ≡ true
unfolding message zeros
message-some [] = refl
message-some (c ∷ line) = ground arith

serve-first :
    (line : List ℕ) (more : List (List ℕ × Bool)) (s : Store) {replies : List Reply} {s' : Store}
    → serve ((message line, true) ∷ more) s ≡ ok (replies, s')
    → (reply : Reply) × (s₁ : Store) × (rest : List Reply) × (round (message line) s
        ≡ ok (reply, s₁))
      × (serve more s₁ ≡ ok (rest, s'))
      × (replies ≡ reply ∷ rest)
unfolding serve
serve-first line more s e =
    let ((reply, s₁), first, later) = >>=-eq-ok (round (message line) s) _ e in
    let later' = rw (message-some line) at later in
    let ((rest, s₂), second, both) = >>=-eq-ok (serve more s₁) _ later' in
    let (same_replies, same_store) = ok_pair both in
    (reply, s₁, rest, first, second ∙ ap (λ z. ok (rest, z)) same_store, sym same_replies)

exchange-answer :
    (line : List ℕ) (printed : List (List ℕ)) (s s' : Store) (reply : Reply)
    → round (message line) s ≡ ok (reply, s')
    → exchange server line (connected printed s) ≡ (
        if same_string disconnecting_word (shown reply)
        then done (connected (printed ++ (shown reply ∷ [])) s')
        else running (connected (printed ++ (shown reply ∷ [])) s'))
unfolding exchange receive server
exchange-answer line printed s s' reply e = rw e refl

-- A connected client.
talk :
    (lines later : List (List ℕ)) (printed : List (List ℕ)) (s : Store) {replies : List Reply}
    {s' : Store}
    → serve (messages lines) s ≡ ok (replies, s')
    → GoesOn replies
    → client_loop server (lines ++ later) (connected printed s)
      ≡ client_loop server later (connected (printed ++ map shown replies) s')
unfolding client_loop client_round serve
talk [] later printed s e goes =
    let (same_replies, same_store) = ok_pair e in
    ap₂ (λ p z. client_loop server later (connected p z))
      (sym (append-nil printed) ∙ ap (λ l. printed ++ map shown l) same_replies) same_store
talk (line ∷ lines) later printed s {s' = s'} e goes =
    let (reply, s₁, rest, first, second, all) = serve-first line (messages lines) s e in
    let (goes_first, goes_rest) = subst GoesOn all goes in
    let printed' = printed ++ (shown reply ∷ []) in
    let answered : exchange server line (connected printed s) ≡ running (connected printed' s₁) =
      exchange-answer line printed s s₁ reply first ∙ rw goes_first refl in
    let list : printed' ++ map shown rest ≡ printed ++ map shown (reply ∷ rest) =
      append_assoc printed (shown reply ∷ []) (map shown rest) in
    ap (go_on (client_loop server (lines ++ later))) answered
    ∙ (talk lines later printed' s₁ second goes_rest
        ∙ ap (λ p. client_loop server later (connected p s'))
            (list ∙ ap (λ l. printed ++ map shown l) (sym all)))

-- What the client knows at the start.
abbrev pub unconnected : Store → Client Wire
unconnected s = record { connection_flag = false; printed = []; world = (s, []) }

-- The line `connect <host> <port>` connects the client.
join-connected :
    (line : List ℕ) (s : Store) (host port : List ℕ) (more : List (List ℕ))
    → tokenize line ≡ connect_word ∷ host ∷ port ∷ more
    → join server line (unconnected s) ≡ ok (running (connected [] s))
unfolding join make_connection server token_at same_string
join-connected line s host port more tokens = rw tokens refl

-- A session: a line that connects, lines that the server answers with `replies`, none of which ends the session, and
-- a line that it answers with `disconnecting`. The client prints what the server replied to the first 20 bytes of every
-- line, in order, and leaves its loop without reading further lines; the server keeps its store.
pub client_loop-serve :
    (first : List ℕ) (lines : List (List ℕ)) (last : List ℕ) (later : List (List ℕ)) (s : Store)
    (host port : List ℕ) (more : List (List ℕ)) {replies : List Reply} {s' s'' : Store}
    → tokenize first ≡ connect_word ∷ host ∷ port ∷ more
    → serve (messages lines) s ≡ ok (replies, s')
    → GoesOn replies
    → round (message last) s' ≡ ok (disconnecting, s'')
    → client_loop server (first ∷ lines ++ (last ∷ later)) (unconnected s)
      ≡ ok (done (connected (map shown replies ++ (disconnecting_word ∷ [])) s''))
unfolding client_loop client_round go_on text string same_string
client_loop-serve first lines last later s host port more {replies} {s'} {s''} tokens serves goes
      ends =
    let left : exchange server last (connected (map shown replies) s')
        ≡ done (connected (map shown replies ++ (disconnecting_word ∷ [])) s'') =
      exchange-answer last (map shown replies) s' s'' disconnecting ends in
    ap (λ r. r >>= go_on (client_loop server (lines ++ (last ∷ later))))
      (join-connected first s host port more tokens)
    ∙ (talk lines (last ∷ later) [] s serves goes ∙ ap (go_on (client_loop server later)) left)
