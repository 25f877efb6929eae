-- ===== src/Server/Connection.antt =====
-- my_server.c: `main`, in terms of the messages that pass between it and its clients.
use os_modules.Prelude.{
  ℕ, zero, suc, ◌≡◌, refl, ◌⊎◌, inl, inr, Bool, true, List, [], ◌∷◌, Bool-cases,
}
use os_modules.Prelude.Int.{ℤ}
use os_modules.Prelude.Result.{ok}
use os_modules.Prelude.Run.{Run, exits, faults, gives, ◌>>=◌}
use os_modules.Server.Store.{Store, Reply}
use os_modules.Server.Loop.{round, serve}
use os_modules.Server.Sockets.{
  Sockets, Server, make_server, main_round, after_round, main_loop, main,
}
use os_modules.Server.Dialogue.{
  IsOpen, goes_on, all_go_on, is_none, is_over, Exchange, nothing, one_more, Explained, Started,
  StartFails,
}
use os_modules.Server.Accepted.{StartEnd, start_fails, starts, make_server-StartEnd}
use os_modules.Server.Answered.{RoundEnd, call_fails, stops, answers, main_round-RoundEnd}

module _ {World : Type 0} (os : Sockets World) (sockfd : ℤ) where
  -- A first exchange, before a later part of the loop.
  Explained-first :
      {buffer : List ℕ} {sent : Bool} {reply : Reply} {fd fd' : ℤ} {w w' : World}
      (store store' : Store) (rounds : ℕ) (r : Run World (List Reply × Server World))
      → Exchange os sockfd fd w buffer sent reply fd' w'
      → round buffer store ≡ ok (reply, store')
      → goes_on (buffer, sent) ≡ true
      → Explained os sockfd rounds store' fd' w' r
      → Explained os sockfd
          (suc rounds)
          store
          fd
          w
          (r >>= λ (replies, s''). gives (reply ∷ replies, s''))
  unfolding serve all_go_on is_over
  Explained-first {buffer} {sent} store store' rounds (exits w'') x first on
        (messages, replies, store'', fd'', w₁, e, served, all, fails) =
      (
        (buffer, sent) ∷ messages,
        _,
        store'',
        fd'',
        w₁,
        one_more x e,
        rw (first, on, served) refl,
        rw (on, all) refl,
        fails,
      )
  Explained-first {buffer} {sent} store store' rounds (faults f) x first on
        (messages, replies, store'', fd'', w₁, next, w₂, e, served, all, got, faulty) =
      (
        (buffer, sent) ∷ messages,
        _,
        store'',
        fd'',
        w₁,
        next,
        w₂,
        one_more x e,
        rw (first, on, served) refl,
        rw (on, all) refl,
        got,
        faulty,
      )
  Explained-first {buffer} {sent} store store' rounds (gives (replies, s'')) x first on
        (messages, e, served, over) =
      ((buffer, sent) ∷ messages, one_more x e, rw (first, on, served) refl, rw (on, over) refl)

  -- The loop from a round on.
  after_round-Explained :
      (rounds : ℕ) (s : Server World) (rest : Server World → Run World (List Reply × Server World))
      (r : Run World (List ℕ × Bool × Reply × Server World))
      → RoundEnd os (record s { sockfd = sockfd }) r
      → ((s' : Server World)
          → s'.sockfd ≡ sockfd
          → IsOpen s'.newsockfd
          → Explained os sockfd rounds s'.store s'.newsockfd s'.world (rest s'))
      → Explained os sockfd (suc rounds) s.store s.newsockfd s.world (r >>= after_round os rest)
  unfolding serve all_go_on is_over is_none after_round
  after_round-Explained rounds s rest r (call_fails fails) later =
      ([], [], s.store, s.newsockfd, s.world, nothing, refl, refl, fails)
  after_round-Explained rounds s rest r (stops {buffer} {w} got faulty) later =
      ([], [], s.store, s.newsockfd, s.world, buffer, w, nothing, refl, refl, got, faulty)
  after_round-Explained rounds s rest r
        (answers {buffer} {sent} {reply} {store'} {fd} {w} x first is_open) later =
      let s' : Server World = record {
        sockfd = sockfd;
        newsockfd = fd;
        store = store';
        world = w;
      } in
      elim (Bool-cases (goes_on (buffer, sent))) [
        | inl on ↦
            rw on
              (Explained-first s.store store' rounds (rest s') x first on (later s' refl is_open))
        | inr last ↦
            rw last ((buffer, sent) ∷ [], one_more x nothing, rw (first, last) refl, rw last refl)
      ]

  main_loop-Explained :
      (rounds : ℕ) (s : Server World)
      → s.sockfd ≡ sockfd
      → IsOpen s.newsockfd
      → Explained os sockfd rounds s.store s.newsockfd s.world (main_loop os rounds s)
  unfolding main_loop serve is_over
  main_loop-Explained zero s e is_open = ([], nothing, refl, refl)
  main_loop-Explained (suc rounds) s e is_open =
      after_round-Explained rounds s (main_loop os rounds) (main_round os s)
        (rw (← e) (main_round-RoundEnd os s is_open)) (main_loop-Explained rounds)

module _ {World : Type 0} (os : Sockets World) where
  -- Whatever the system does: a call fails before the first client is accepted, and `main` exits there; or `main`
  -- exchanges messages with the clients that it accepts. The replies that it writes are those of the server without
  -- sockets for the messages that it reads, up to a call that fails, at which it exits, or a message at whose command the
  -- server without sockets stops too, or the end of the loop, which comes with the last of the rounds, or with the first
  -- message that has no byte or whose reply is not sent; the store is then the one of the server without sockets.
  pub main-Explained :
      (port : ℤ) (rounds : ℕ) (store : Store) (world : World)
      → ((w : World) × StartFails os port world w × (main os port rounds store world ≡ exits w))
        ⊎ ((sockfd fd : ℤ) × (w : World) × Started os port world sockfd fd w
            × Explained os sockfd rounds store fd w (main os port rounds store world))
  unfolding main
  main-Explained port rounds store world =
      from_start (make_server os port store world) (make_server-StartEnd os port store world)
    where
      from_start :
          (r : Run World (Server World))
          → StartEnd os port store world r
          → ((w : World) × StartFails os port world w × ((r >>= main_loop os rounds) ≡ exits w))
            ⊎ ((sockfd fd : ℤ) × (w : World) × Started os port world sockfd fd w
                × Explained os sockfd rounds store fd w (r >>= main_loop os rounds))
      from_start r (start_fails {w'} fails) = inl (w', fails, refl)
      from_start r (starts {sockfd} {fd} {w'} start is_open) = inr (
        sockfd,
        fd,
        w',
        start,
        main_loop-Explained os sockfd rounds
            (record { sockfd = sockfd; newsockfd = fd; store = store; world = w' }) refl is_open,
      )
