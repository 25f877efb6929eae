-- ===== src/Server/Sockets.antt =====
-- my_server.c: the sockets, and `main` with them.
use os_modules.Prelude.{
  ℕ, zero, suc, Bool, ◌&&◌, Option, none, some, List, [], ◌∷◌, ltb, if◌then◌else◌,
}
use os_modules.Prelude.Int.{ℤ, pos, negsuc, ltb_ℤ}
use os_modules.Prelude.Text.{length}
use os_modules.Prelude.Run.{Run, exits, gives, ◌>>=◌, returns}
use os_modules.Server.Store.{Store, Reply, disconnecting}
use os_modules.Server.Loop.{round}

-- What the calls do on a state of the system.
pub record Sockets (World : Type 0) : Type 0 where
  pub socket : World → ℤ × World
  pub bind : (sockfd port : ℤ) → World → ℤ × World
  pub listen : (sockfd : ℤ) → World → World
  pub accept : (sockfd : ℤ) → World → ℤ × World
  pub close : (newsockfd : ℤ) → World → World
  -- The bytes that came, whose number is n1; `none` when n1 is -1.
  pub read : (newsockfd : ℤ) → World → Option (List ℕ) × World
  -- Whether n2 is positive; `none` when it is -1.
  pub write : (newsockfd : ℤ) → (message : Reply) → World → Option Bool × World

pub record Server (World : Type 0) : Type 0 where
  pub sockfd : ℤ
  pub newsockfd : ℤ
  pub store : Store
  pub world : World

module _ {World : Type 0} (os : Sockets World) where
  unfoldable pub accept_client : Server World → Run World (Server World)
  accept_client s =
      let (newsockfd, world') = os.accept s.sockfd (os.listen s.sockfd s.world) in
      if ltb_ℤ newsockfd (pos 0)
      then exits world'
      else gives (record s { newsockfd = newsockfd; world = world' })

  unfoldable pub make_server : (port : ℤ) → Store → World → Run World (Server World)
  unfolding accept_client
  make_server port store world =
      let (sockfd, world') = os.socket world in
      let (bound, world'') = os.bind sockfd port world' in
      if ltb_ℤ sockfd (pos 0)
      then exits world'
      else (if ltb_ℤ bound (pos 0)
          then exits world''
          else accept_client
              (record { sockfd = sockfd; newsockfd = pos 0; store = store; world = world'' }))

  unfoldable pub disconnect : Server World → Run World (Server World)
  unfolding accept_client
  disconnect s =
      let closed : Server World = record s {
        newsockfd = negsuc 0;
        world = os.close s.newsockfd s.world;
      } in
      accept_client (if ltb_ℤ s.newsockfd (pos 0) then s else closed)

  unfoldable pub send_msg : Reply → Server World → Run World (Bool × Server World)
  send_msg message s =
      let (sent, world') = os.write s.newsockfd message s.world in
      elim sent [
        | none ↦ exits world'
        | some n2_positive ↦ gives (n2_positive, record s { world = world' })
      ]

  -- Behind the command: only `disconnect` does more than to send its message.
  unfoldable pub answer_client : Reply → Server World → Run World (Bool × Server World)
  unfolding send_msg disconnect
  answer_client disconnecting s = do
    (sent, s') ← send_msg disconnecting s
    s'' ← disconnect s'
    gives (sent, s'')
  answer_client message s = send_msg message s

  unfoldable pub receive_msg : Server World → Run World (List ℕ × Server World)
  receive_msg s =
      let (bytes, world') = os.read s.newsockfd s.world in
      elim bytes [ none ↦ exits world' | some buffer ↦ gives (buffer, record s { world = world' }) ]

  -- The body of the loop: the reply, whether the loop goes on, and the new state.
  unfoldable pub main_round : Server World → Run World (List ℕ × Bool × Reply × Server World)
  unfolding receive_msg round answer_client
  main_round s = do
    (buffer, s') ← receive_msg s
    (reply, store') ← returns (round buffer s'.store)
    (sent, s'') ← answer_client reply (record s' { store = store' })
    gives (buffer, sent, reply, s'')

  -- The test of the loop.
  unfoldable pub after_round :
      (rest : Server World → Run World (List Reply × Server World))
      → List ℕ × Bool × Reply × Server World
      → Run World (List Reply × Server World)
  after_round rest (buffer, sent, reply, s) =
      if ltb 0 (length buffer) && sent
      then (rest s >>= λ (replies, s'). gives (reply ∷ replies, s'))
      else gives (reply ∷ [], s)

  -- At most `rounds` rounds of the loop.
  unfoldable pub main_loop : (rounds : ℕ) → Server World → Run World (List Reply × Server World)
  unfolding main_round after_round
  main_loop zero s = gives ([], s)
  main_loop (suc rounds) s = main_round s >>= after_round (main_loop rounds)

  unfoldable pub main :
      (port : ℤ) → (rounds : ℕ) → Store → World → Run World (List Reply × Server World)
  unfolding make_server main_loop
  main port rounds store world = make_server port store world >>= main_loop rounds
