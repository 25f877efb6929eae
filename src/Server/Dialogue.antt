-- ===== src/Server/Dialogue.antt =====
-- my_server.c: what passes between the server and the system, read off the calls alone. A failed call has a negative
-- result, or none.
use os_modules.Prelude.{
  ℕ, zero, suc, ◌≡◌, ◌≢◌, Bool, true, false, ◌&&◌, none, some, List, [], ◌∷◌, ltb, if◌then◌else◌,
}
use os_modules.Prelude.Int.{ℤ, pos, ltb_ℤ}
use os_modules.Prelude.Text.{length}
use os_modules.Prelude.Result.{ok, fault}
use os_modules.Prelude.Run.{Run, exits, faults, gives}
use os_modules.Server.Store.{Store, Reply, disconnecting}
use os_modules.Server.Loop.{round, serve}
use os_modules.Server.Sockets.{Sockets, Server}

abbrev pub IsNegative : ℤ → Type 0
IsNegative z = ltb_ℤ z (pos 0) ≡ true

abbrev pub IsOpen : ℤ → Type 0
IsOpen z = ltb_ℤ z (pos 0) ≡ false

-- Whether the loop goes on behind a message with a byte (n1 > 0) and a reply that was sent (n2 > 0).
abbrev pub goes_on : List ℕ × Bool → Bool
goes_on (buffer, sent) = ltb 0 (length buffer) && sent

unfoldable pub all_go_on : List (List ℕ × Bool) → Bool
all_go_on [] = true
all_go_on (m ∷ messages) = goes_on m && all_go_on messages

unfoldable pub is_none : List (List ℕ × Bool) → Bool
is_none [] = true
is_none (m ∷ messages) = false

-- The loop has had its rounds, or stops at the last message and at no other one.
unfoldable pub is_over : (rounds : ℕ) → List (List ℕ × Bool) → Bool
unfolding is_none
is_over zero [] = true
is_over zero (m ∷ messages) = false
is_over (suc rounds) [] = false
is_over (suc rounds) (m ∷ messages) =
    if goes_on m then is_over rounds messages else is_none messages

module _ {World : Type 0} (os : Sockets World) where
  module _ (sockfd : ℤ) where
    abbrev pub next_client : World → ℤ × World
    next_client w = os.accept sockfd (os.listen sockfd w)

    -- A message that is read from the client, and the reply that is written to it, with the client and the system
    -- behind them.
    pub data Exchange (fd : ℤ) (w : World) (buffer : List ℕ) (sent : Bool)
        : Reply → ℤ → World → Type 0 where
      answered :
          {w₁ w₂ : World} {reply : Reply}
          → os.read fd w ≡ (some buffer, w₁)
          → os.write fd reply w₁ ≡ (some sent, w₂)
          → reply ≢ disconnecting
          → Exchange fd w buffer sent reply fd w₂
      disconnected :
          {w₁ w₂ w₃ : World} {fd' : ℤ}
          → os.read fd w ≡ (some buffer, w₁)
          → os.write fd disconnecting w₁ ≡ (some sent, w₂)
          → next_client (os.close fd w₂) ≡ (fd', w₃)
          → IsOpen fd'
          → Exchange fd w buffer sent disconnecting fd' w₃

    pub data Exchanged : ℤ → World → List (List ℕ × Bool) → List Reply → ℤ → World → Type 0 where
      nothing : {fd : ℤ} {w : World} → Exchanged fd w [] [] fd w
      one_more :
          {buffer : List ℕ} {sent : Bool} {reply : Reply} {fd fd₁ fd₂ : ℤ} {w w₁ w₂ : World}
          {messages : List (List ℕ × Bool)} {replies : List Reply}
          → Exchange fd w buffer sent reply fd₁ w₁
          → Exchanged fd₁ w₁ messages replies fd₂ w₂
          → Exchanged fd w ((buffer, sent) ∷ messages) (reply ∷ replies) fd₂ w₂

    -- A call that fails while the server, with the store given, answers the next message.
    pub data CallFails (store : Store) (fd : ℤ) (w : World) : World → Type 0 where
      read_fails : {w' : World} → os.read fd w ≡ (none, w') → CallFails store fd w w'
      write_fails :
          {buffer : List ℕ} {reply : Reply} {store' : Store} {w₁ w' : World}
          → os.read fd w ≡ (some buffer, w₁)
          → round buffer store ≡ ok (reply, store')
          → os.write fd reply w₁ ≡ (none, w')
          → CallFails store fd w w'
      accept_fails :
          {buffer : List ℕ} {sent : Bool} {store' : Store} {w₁ w₂ w' : World} {fd' : ℤ}
          → os.read fd w ≡ (some buffer, w₁)
          → round buffer store ≡ ok (disconnecting, store')
          → os.write fd disconnecting w₁ ≡ (some sent, w₂)
          → next_client (os.close fd w₂) ≡ (fd', w')
          → IsNegative fd'
          → CallFails store fd w w'

    -- How a run of the loop ends: messages were exchanged, and their replies are those of the server without sockets;
    -- and then a call fails, or the next message is one that its command stops at, or the loop is over.
    abbrev pub Explained :
        (rounds : ℕ) → Store → ℤ → World → Run World (List Reply × Server World) → Type 0
    Explained rounds store fd w (exits w') =
        (messages : List (List ℕ × Bool)) × (replies : List Reply) × (store' : Store) × (fd' : ℤ)
        × (w₁ : World) × Exchanged fd w messages replies fd' w₁
        × (serve messages store ≡ ok (replies, store'))
        × (all_go_on messages ≡ true)
        × CallFails store' fd' w₁ w'
    Explained rounds store fd w (faults f) =
        (messages : List (List ℕ × Bool)) × (replies : List Reply) × (store' : Store) × (fd' : ℤ)
        × (w₁ : World) × (buffer : List ℕ) × (w₂ : World) × Exchanged fd w messages replies fd' w₁
        × (serve messages store ≡ ok (replies, store'))
        × (all_go_on messages ≡ true)
        × (os.read fd' w₁ ≡ (some buffer, w₂))
        × (round buffer store' ≡ fault f)
    Explained rounds store fd w (gives (replies, s')) =
        (messages : List (List ℕ × Bool)) × Exchanged fd w messages replies s'.newsockfd s'.world
        × (serve messages store ≡ ok (replies, s'.store))
        × (is_over rounds messages ≡ true)

  -- The first client is accepted.
  pub data Started (port : ℤ) (w : World) (sockfd fd : ℤ) (w' : World) : Type 0 where
    started :
        {bound : ℤ} {w₁ w₂ : World}
        → os.socket w ≡ (sockfd, w₁)
        → IsOpen sockfd
        → os.bind sockfd port w₁ ≡ (bound, w₂)
        → IsOpen bound
        → next_client sockfd w₂ ≡ (fd, w')
        → IsOpen fd
        → Started port w sockfd fd w'

  -- A call before that fails.
  pub data StartFails (port : ℤ) (w w' : World) : Type 0 where
    socket_fails :
        {sockfd : ℤ} → os.socket w ≡ (sockfd, w') → IsNegative sockfd → StartFails port w w'
    bind_fails :
        {sockfd bound : ℤ} {w₁ : World}
        → os.socket w ≡ (sockfd, w₁)
        → IsOpen sockfd
        → os.bind sockfd port w₁ ≡ (bound, w')
        → IsNegative bound
        → StartFails port w w'
    first_accept_fails :
        {sockfd bound fd : ℤ} {w₁ w₂ : World}
        → os.socket w ≡ (sockfd, w₁)
        → IsOpen sockfd
        → os.bind sockfd port w₁ ≡ (bound, w₂)
        → IsOpen bound
        → next_client sockfd w₂ ≡ (fd, w')
        → IsNegative fd
        → StartFails port w w'
