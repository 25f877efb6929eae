-- ===== src/Server/Accepted.antt =====
-- my_server.c: make_server, connect_again and disconnect, in terms of what the calls return.
use os_modules.Prelude.{◌≡◌, refl, ap, if◌then◌else◌, inl, inr, Bool-cases}
use os_modules.Prelude.Int.{ℤ, pos, negsuc, ltb_ℤ}
use os_modules.Prelude.Run.{Run, exits, gives}
use os_modules.Server.Store.{Store}
use os_modules.Server.Sockets.{Sockets, Server, accept_client, make_server, disconnect}
use os_modules.Server.Dialogue.{
  IsOpen, next_client, Started, started, StartFails, socket_fails, bind_fails, first_accept_fails,
}

module _ {World : Type 0} (os : Sockets World) where
  -- `accept_client` exits when accept fails.
  pub accept_client-eq :
      (s : Server World) (fd : ℤ) (w : World)
      → next_client os s.sockfd s.world ≡ (fd, w)
      → accept_client os s
        ≡ (if ltb_ℤ fd (pos 0) then exits w else gives (record s { newsockfd = fd; world = w }))
  unfolding accept_client
  accept_client-eq s fd w e =
      ap
        (λ p.
          if ltb_ℤ p.0 (pos 0)
          then exits p.1
          else gives (record s { newsockfd = p.0; world = p.1 }))
        e

  pub disconnect-eq :
      (s : Server World)
      → IsOpen s.newsockfd
      → disconnect os s
        ≡ accept_client os (record s { newsockfd = negsuc 0; world = os.close s.newsockfd s.world })
  unfolding disconnect
  disconnect-eq s is_open = rw is_open refl

  -- How `make_server` ends.
  pub data StartEnd (port : ℤ) (store : Store) (w : World) : Run World (Server World) → Type 0 where
    start_fails : {w' : World} → StartFails os port w w' → StartEnd port store w (exits w')
    starts :
        {sockfd fd : ℤ} {w' : World}
        → Started os port w sockfd fd w'
        → IsOpen fd
        → StartEnd port store w
            (gives (record { sockfd = sockfd; newsockfd = fd; store = store; world = w' }))

  pub make_server-StartEnd :
      (port : ℤ) (store : Store) (w : World) → StartEnd port store w (make_server os port store w)
  unfolding make_server
  make_server-StartEnd port store w =
      let made = os.socket w in
      let bound = os.bind made.0 port made.1 in
      let accepted = next_client os made.0 bound.1 in
      let listening : Server World = record {
        sockfd = made.0;
        newsockfd = pos 0;
        store = store;
        world = bound.1;
      } in
      elim (Bool-cases (ltb_ℤ made.0 (pos 0))) [
        | inl negative ↦ rw negative (start_fails (socket_fails refl negative))
        | inr socket_open ↦ elim (Bool-cases (ltb_ℤ bound.0 (pos 0))) [
          | inl negative ↦
              rw (socket_open, negative) (start_fails (bind_fails refl socket_open refl negative))
          | inr is_bound ↦ elim (Bool-cases (ltb_ℤ accepted.0 (pos 0))) [
            | inl negative ↦
                rw
                  (
                    socket_open,
                    is_bound,
                    accept_client-eq listening accepted.0 accepted.1 refl,
                    negative,
                  )
                  (start_fails (first_accept_fails refl socket_open refl is_bound refl negative))
            | inr is_open ↦
                rw
                  (
                    socket_open,
                    is_bound,
                    accept_client-eq listening accepted.0 accepted.1 refl,
                    is_open,
                  )
                  (starts (started refl socket_open refl is_bound refl is_open) is_open)
          ]
        ]
      ]
