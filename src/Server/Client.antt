-- ===== src/Server/Client.antt =====
-- my_client.c: the client of the server. What fgets returns for a line, and what the sockets do, is given.
use os_modules.Prelude.{ℕ, Bool, true, Option, none, some, List, [], ◌∷◌, ◌++◌, if◌then◌else◌}
use os_modules.Prelude.Int.{ℤ}
use os_modules.Prelude.Text.{take, string, same_string, zeros}
use os_modules.Prelude.Result.{Result, ok, ◌>>=◌}
use os_modules.Server.Tokens.{tokenize, token_at, atoi}

abbrev pub token_size : ℕ
token_size = 20

abbrev pub connect_word : List ℕ
connect_word = b'c' ∷ b'o' ∷ b'n' ∷ b'n' ∷ b'e' ∷ b'c' ∷ b't' ∷ []

abbrev pub disconnecting_word : List ℕ
disconnecting_word =
    b'd' ∷ b'i' ∷ b's' ∷ b'c' ∷ b'o' ∷ b'n' ∷ b'n' ∷ b'e' ∷ b'c' ∷ b't' ∷ b'i' ∷ b'n' ∷ b'g' ∷ []

-- The calls on the socket, on a state of what stands at the other end.
pub record Net (World : Type 0) : Type 0 where
  -- socket, gethostbyname and connect; `none` when one of them fails and the client exits
  pub connect : (host : List ℕ) → (port : ℤ) → World → Option World
  -- Whether the bytes were written; when not, the client exits.
  pub write : List ℕ → World → Bool × World
  pub read : World → List ℕ × World

pub record Client (World : Type 0) : Type 0 where
  pub connection_flag : Bool
  pub printed : List (List ℕ)
  pub world : World

-- After a round: in the loop, behind it, or left by exit.
pub data RoundResult (World : Type 0) : Type 0 where
  running : Client World → RoundResult World
  done : Client World → RoundResult World
  failed : Client World → RoundResult World

-- The loop goes on, unless it was left.
unfoldable pub go_on :
    {World : Type 0}
    → (rest : Client World → Result (RoundResult World)) → RoundResult World
    → Result (RoundResult World)
go_on rest (running c) = rest c
go_on rest (done c) = ok (done c)
go_on rest (failed c) = ok (failed c)

-- The bytes that are written: the first 20 of the buffer, which has zeros behind the line.
unfoldable pub message : (line : List ℕ) → List ℕ
unfolding zeros
message line = take token_size (line ++ zeros token_size)

module _ {World : Type 0} (net : Net World) where
  unfoldable pub make_connection :
      (tokens : List (List ℕ)) → Client World → Result (RoundResult World)
  unfolding token_at atoi
  make_connection tokens c = do
    port ← token_at 2 tokens
    host ← token_at 1 tokens
    ok (elim (net.connect host (atoi port) c.world) [
      | none ↦ failed c
      | some world' ↦ running (record c { connection_flag = true; world = world' })
    ])

  -- Not connected: only the word `connect` does something.
  unfoldable pub join : (line : List ℕ) → Client World → Result (RoundResult World)
  unfolding tokenize make_connection same_string
  join line c = do
    word ← token_at 0 (tokenize line)
    if same_string word connect_word then make_connection (tokenize line) c else ok (running c)

  unfoldable pub receive : Client World → RoundResult World
  unfolding string same_string
  receive c =
      let (reply, world') = net.read c.world in
      let c' : Client World = record c {
        printed = c.printed ++ (string reply ∷ []);
        world = world';
      } in
      if same_string disconnecting_word (string reply) then done c' else running c'

  -- Connected.
  unfoldable pub exchange : (line : List ℕ) → Client World → RoundResult World
  unfolding message receive
  exchange line c =
      let (sent, world') = net.write (message line) c.world in
      let c' : Client World = record c { world = world' } in if sent then receive c' else failed c'

  unfoldable pub client_round : (line : List ℕ) → Client World → Result (RoundResult World)
  unfolding join exchange
  client_round line c = if c.connection_flag then ok (exchange line c) else join line c

  -- The loop of `main`, for the lines that are typed.
  unfoldable pub client_loop : (lines : List (List ℕ)) → Client World → Result (RoundResult World)
  unfolding client_round go_on
  client_loop [] c = ok (running c)
  client_loop (line ∷ lines) c = client_round line c >>= go_on (client_loop lines)
