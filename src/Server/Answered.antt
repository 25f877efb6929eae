-- ===== src/Server/Answered.antt =====
-- my_server.c: a round of the loop of main, in terms of what the calls return.
use os_modules.Prelude.{
  ◌≡◌, ◌≢◌, refl, ap, ◌∙◌, Bool, none, some, List, ℕ, ◌⊎◌, inl, inr, Bool-cases, Option-cases,
}
use os_modules.Prelude.Int.{ℤ, pos, negsuc, ltb_ℤ}
use os_modules.Prelude.Result.{Fault, Result, ok, fault}
use os_modules.Prelude.Run.{Run, exits, faults, gives, ◌>>=◌}
use os_modules.Server.Store.{
  Store, Reply, disconnecting, storage_full, already_key_exists, pair_added, no_such_key, updated,
  deleted_key, got_message, the_value,
}
use os_modules.Server.Loop.{round}
use os_modules.Server.Sockets.{Sockets, Server, send_msg, answer_client, receive_msg, main_round}
use os_modules.Server.Dialogue.{
  IsOpen, next_client, Exchange, answered, disconnected, CallFails, read_fails, write_fails,
  accept_fails,
}
use os_modules.Server.Accepted.{accept_client-eq, disconnect-eq}

module _ {World : Type 0} (os : Sockets World) where
  -- Only `disconnecting` does more than to be sent.
  reply-cases :
      (reply : Reply)
      → (reply ≡ disconnecting)
        ⊎ ((reply ≢ disconnecting)
            × ((s : Server World) → answer_client os reply s ≡ send_msg os reply s))
  unfolding answer_client
  reply-cases disconnecting = inl refl
  reply-cases storage_full = inr ((λ e. cc), λ s. refl)
  reply-cases already_key_exists = inr ((λ e. cc), λ s. refl)
  reply-cases pair_added = inr ((λ e. cc), λ s. refl)
  reply-cases no_such_key = inr ((λ e. cc), λ s. refl)
  reply-cases updated = inr ((λ e. cc), λ s. refl)
  reply-cases deleted_key = inr ((λ e. cc), λ s. refl)
  reply-cases got_message = inr ((λ e. cc), λ s. refl)
  reply-cases (the_value v) = inr ((λ e. cc), λ s. refl)

  -- How a round ends.
  pub data RoundEnd (s : Server World)
      : Run World (List ℕ × Bool × Reply × Server World) → Type 0 where
    call_fails :
        {w : World} → CallFails os s.sockfd s.store s.newsockfd s.world w → RoundEnd s (exits w)
    stops :
        {buffer : List ℕ} {w : World} {f : Fault}
        → os.read s.newsockfd s.world ≡ (some buffer, w)
        → round buffer s.store ≡ fault f
        → RoundEnd s (faults f)
    answers :
        {buffer : List ℕ} {sent : Bool} {reply : Reply} {store' : Store} {fd : ℤ} {w : World}
        → Exchange os s.sockfd s.newsockfd s.world buffer sent reply fd w
        → round buffer s.store ≡ ok (reply, store')
        → IsOpen fd
        → RoundEnd s
            (gives (buffer, sent, reply, record s { newsockfd = fd; store = store'; world = w }))

  module _ (s : Server World) (is_open : IsOpen s.newsockfd) (buffer : List ℕ) (w₁ : World)
      (got : os.read s.newsockfd s.world ≡ (some buffer, w₁)) where
    -- The rest of a round, behind the command.
    abbrev rest :
        (reply : Reply) → (store' : Store) → Run World (List ℕ × Bool × Reply × Server World)
    rest reply store' =
        answer_client os reply (record s { store = store'; world = w₁ }) >>= λ (sent, s').
        gives (buffer, sent, reply, s')

    send_msg-exits :
        (reply : Reply) (store' : Store)
        → (os.write s.newsockfd reply w₁).0 ≡ none
        → send_msg os reply (record s { store = store'; world = w₁ })
          ≡ exits (os.write s.newsockfd reply w₁).1
    unfolding send_msg
    send_msg-exits reply store' failed = rw (send_msg, failed) refl

    send_msg-gives :
        (reply : Reply) (store' : Store) (sent : Bool)
        → (os.write s.newsockfd reply w₁).0 ≡ some sent
        → send_msg os reply (record s { store = store'; world = w₁ })
          ≡ gives (sent, record s { store = store'; world = (os.write s.newsockfd reply w₁).1 })
    unfolding send_msg
    send_msg-gives reply store' sent e = rw (send_msg, e) refl

    plain-RoundEnd :
        (reply : Reply) (store' : Store)
        → round buffer s.store ≡ ok (reply, store')
        → reply ≢ disconnecting
        → ((s : Server World) → answer_client os reply s ≡ send_msg os reply s)
        → RoundEnd s (rest reply store')
    plain-RoundEnd reply store' first ne plain =
        let written = os.write s.newsockfd reply w₁ in
        elim (Option-cases written.0) [
          | inl failed ↦
              rw (plain, send_msg-exits reply store' failed)
                (call_fails (write_fails got first (ap (λ o. (o, written.1)) failed)))
          | inr (sent, e) ↦
              rw (plain, send_msg-gives reply store' sent e)
                (answers (answered got (ap (λ o. (o, written.1)) e) ne) first is_open)
        ]

    disconnected-RoundEnd :
        (store' : Store)
        → round buffer s.store ≡ ok (disconnecting, store')
        → RoundEnd s (rest disconnecting store')
    unfolding answer_client
    disconnected-RoundEnd store' first =
        let written = os.write s.newsockfd disconnecting w₁ in
        let accepted = next_client os s.sockfd (os.close s.newsockfd written.1) in
        elim (Option-cases written.0) [
          | inl failed ↦
              rw (send_msg-exits disconnecting store' failed)
                (call_fails (write_fails got first (ap (λ o. (o, written.1)) failed)))
          | inr (sent, e) ↦
              let wrote : written ≡ (some sent, written.1) = ap (λ o. (o, written.1)) e in
              let s' : Server World = record s { store = store'; world = written.1 } in
              let closed : Server World = record s' {
                newsockfd = negsuc 0;
                world = os.close s.newsockfd written.1;
              } in
              elim (Bool-cases (ltb_ℤ accepted.0 (pos 0))) [
                | inl negative ↦
                    rw
                      (
                        send_msg-gives disconnecting store' sent e,
                        disconnect-eq os s' is_open,
                        accept_client-eq os closed accepted.0 accepted.1 refl,
                        negative,
                      )
                      (call_fails (accept_fails got first wrote refl negative))
                | inr next_open ↦
                    rw
                      (
                        send_msg-gives disconnecting store' sent e,
                        disconnect-eq os s' is_open,
                        accept_client-eq os closed accepted.0 accepted.1 refl,
                        next_open,
                      )
                      (answers (disconnected got wrote refl next_open) first next_open)
              ]
        ]

    answer-RoundEnd :
        (reply : Reply) (store' : Store)
        → round buffer s.store ≡ ok (reply, store')
        → RoundEnd s (rest reply store')
    answer-RoundEnd reply store' first = elim (reply-cases reply) [
      | inr (ne, plain) ↦ plain-RoundEnd reply store' first ne plain
      | inl e ↦ rw e (disconnected-RoundEnd store' (first ∙ ap (λ r. ok (r, store')) e))
    ]

    command-RoundEnd :
        receive_msg os s ≡ gives (buffer, record s { world = w₁ })
        → (r : Result (Reply × Store)) → round buffer s.store ≡ r
        → RoundEnd s (main_round os s)
    unfolding main_round
    command-RoundEnd received (fault f) e = rw (received, e) (stops got e)
    command-RoundEnd received (ok (reply, store')) e =
        rw (received, e) (answer-RoundEnd reply store' e)

  pub main_round-RoundEnd : (s : Server World) → IsOpen s.newsockfd → RoundEnd s (main_round os s)
  unfolding receive_msg main_round
  main_round-RoundEnd s is_open =
      let got = os.read s.newsockfd s.world in
      elim (Option-cases got.0) [
        | inl failed ↦
            let stop : receive_msg os s ≡ exits got.1 = rw (receive_msg, failed) refl in
            rw stop (call_fails (read_fails (ap (λ o. (o, got.1)) failed)))
        | inr (buffer, e) ↦
            command-RoundEnd s is_open buffer got.1 (ap (λ o. (o, got.1)) e)
              (rw (receive_msg, e) refl) (round buffer s.store) refl
      ]
