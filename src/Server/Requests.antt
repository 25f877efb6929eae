-- ===== src/Server/Requests.antt =====
-- my_server.c: the loop of `main` answers requests as the map does.
use mathlib.Core.List.{map}
use mathlib.Core.Path.{subst}
use os_modules.Prelude.{
  ℕ, ◌+◌, ◌<◌, ◌≡◌, ◌≢◌, refl, sym, ap, ◌∙◌, true, Option, none, some, List, [], ◌∷◌, ltb, ◌==◌,
  arith, Option-cases, Bool-cases, inl, inr,
}
use os_modules.Prelude.Int.{ℤ, eqb_ℤ, eqb_ℤ→eq, eqb_ℤ→ne}
use os_modules.Prelude.Text.{length, same_string}
use os_modules.Prelude.Result.{Result, ok}
use os_modules.Server.Tokens.{tokenize, token_at, atoi}
use os_modules.Server.Store.{
  Store, Reply, max_keys, create_key_value_pair, read_pair, update_pair, delete_pair,
}
use os_modules.Server.Loop.{create_word, read_word, update_word, delete_word, command, round, serve}
use os_modules.Server.Valid.{no_key}
use os_modules.Server.Lookup.{lookup, read_pair_lem}
use os_modules.Server.Changes.{Maps}
use os_modules.Server.Commands.{create_key_value_pair_lem, update_pair_lem, delete_pair_lem}
use os_modules.Server.Map.{
  Request, create, read, update, delete, KeyMap, assign, answer, reply_to, replies_to, Holds,
  IsNamed, IsRequest,
}

eqb_ℤ-self : (z : ℤ) → eqb_ℤ z z ≡ true
eqb_ℤ-self z = ground arith

-- A change of one key, in the store and in the map.
assign-Holds :
    (s s' : Store) (m : KeyMap) (key : ℤ) (value : Option (List ℕ))
    → Holds s m
    → Maps key value s s'
    → s'.idx ≡ s.idx
    → Holds s' (assign key value m)
unfolding assign
assign-Holds s s' m key value h maps e = record {
  valid = maps.valid;
  values = λ k ne. elim (Bool-cases (eqb_ℤ key k)) [
    | inl same ↦ rw same (ap (λ z. lookup z s') (sym (eqb_ℤ→eq key k same)) ∙ maps.here)
    | inr other ↦ rw other (maps.elsewhere k ne (λ e. eqb_ℤ→ne key k other (sym e)) ∙ h.values k ne)
  ];
  slots = e ∙ h.slots;
}

added-Holds :
    (s s' : Store) (m : KeyMap) (key : ℤ) (value : List ℕ)
    → Holds s m
    → Maps key (some value) s s'
    → s'.idx ≡ s.idx + 1
    → Holds s' (record (assign key (some value) m) { created = m.created + 1 })
unfolding assign
added-Holds s s' m key value h maps e = record {
  valid = maps.valid;
  values = λ k ne. elim (Bool-cases (eqb_ℤ key k)) [
    | inl same ↦ rw same (ap (λ z. lookup z s') (sym (eqb_ℤ→eq key k same)) ∙ maps.here)
    | inr other ↦ rw other (maps.elsewhere k ne (λ e. eqb_ℤ→ne key k other (sym e)) ∙ h.values k ne)
  ];
  slots = e ∙ ap (λ n. n + 1) h.slots;
}

-- The store answers as the map.
abbrev Answers : Result (Reply × Store) → Reply × KeyMap → Type 0
Answers r (reply, m) = (s' : Store) × (r ≡ ok (reply, s')) × Holds s' m

round-command :
    (buffer word : List ℕ) (s : Store)
    → token_at 0 (tokenize buffer) ≡ ok word
    → round buffer s ≡ command word (tokenize buffer) s
unfolding round
round-command buffer word s e = rw e refl

module _ (buffer : List ℕ) (s : Store) (m : KeyMap) (h : Holds s m) where
  -- What the store has at the key of the message.
  value_of :
      {command_word : List ℕ} {key : ℤ} (n : IsNamed buffer command_word key)
      → lookup (atoi n.word) s ≡ m.value key
  value_of {key = key} n = ap (λ k. lookup k s) n.key_eq ∙ h.values key n.not_deleted

  named-key :
      {command_word : List ℕ} {key : ℤ} (n : IsNamed buffer command_word key) → atoi n.word ≢ no_key
  named-key n e = n.not_deleted (sym n.key_eq ∙ e)

  delete-Answers :
      (key : ℤ)
      → IsNamed buffer delete_word key
      → Answers (delete_pair (tokenize buffer) s) (reply_to (delete key) m)
  unfolding answer
  delete-Answers key n =
      let lem = delete_pair_lem (tokenize buffer) n.word s h.valid n.key_token (named-key n) in
      elim (Option-cases (m.value key)) [
        | inl absent ↦ rw absent (s, lem.1 (value_of n ∙ absent), h)
        | inr (old, present) ↦
            let (s', deletes, maps, slots) = lem.0 old (value_of n ∙ present) in
            let maps' = subst (λ k. Maps k none s s') n.key_eq maps in
            rw present (s', deletes, assign-Holds s s' m key none h maps' slots)
      ]

  read-Answers :
      (key : ℤ)
      → IsNamed buffer read_word key
      → Answers (read_pair (tokenize buffer) s) (reply_to (read key) m)
  unfolding answer
  read-Answers key n =
      elim (read_pair_lem (tokenize buffer) n.word s h.valid n.key_token (named-key n)) [
        | inl (v, present, reads) ↦ rw (sym (value_of n) ∙ present) (s, reads, h)
        | inr (absent, reads) ↦ rw (sym (value_of n) ∙ absent) (s, reads, h)
      ]

  update-Answers :
      (key : ℤ) (value : List ℕ)
      → IsRequest buffer (update key value)
      → Answers (update_pair (tokenize buffer) s) (reply_to (update key value) m)
  unfolding answer
  update-Answers key value (n, (size_word, size_token, value_token, short)) =
      let lem =
        update_pair_lem (tokenize buffer) n.word s h.valid n.key_token (named-key n) size_word value
          size_token value_token short in
      elim (Option-cases (m.value key)) [
        | inl absent ↦ rw absent (s, lem.1 (value_of n ∙ absent), h)
        | inr (old, present) ↦
            let (s', updates, maps, slots) = lem.0 old (value_of n ∙ present) in
            let maps' = subst (λ k. Maps k (some value) s s') n.key_eq maps in
            rw present (s', updates, assign-Holds s s' m key (some value) h maps' slots)
      ]

  create-Answers :
      (key : ℤ) (value : List ℕ)
      → IsRequest buffer (create key value)
      → Answers (create_key_value_pair (tokenize buffer) s) (reply_to (create key value) m)
  unfolding answer
  create-Answers key value (n, (size_word, size_token, value_token, fits)) =
      let lem =
        create_key_value_pair_lem (tokenize buffer) n.word s h.valid n.key_token (named-key n)
          size_word value size_token value_token fits in
      elim (Bool-cases (m.created == max_keys)) [
        | inl full ↦
            let stays = lem.2 (ground (arith, h.slots)) in
            elim (Option-cases (m.value key)) [
              | inl absent ↦ rw (absent, full) (s, stays, h)
              | inr (old, present) ↦ rw (present, full) (s, stays, h)
            ]
        | inr left ↦
            let room : s.idx < max_keys = ground (arith, h.slots, h.valid.room) in
            elim (Option-cases (m.value key)) [
              | inl absent ↦
                  let (s', creates, maps, slots) = lem.0 room (value_of n ∙ absent) in
                  let maps' = subst (λ k. Maps k (some value) s s') n.key_eq maps in
                  rw (absent, left) (s', creates, added-Holds s s' m key value h maps' slots)
              | inr (old, present) ↦
                  rw (present, left) (s, lem.1 room old (value_of n ∙ present), h)
            ]
      ]

  round-Answers : (r : Request) → IsRequest buffer r → Answers (round buffer s) (reply_to r m)
  unfolding command same_string
  round-Answers (create key value) q =
      rw (round-command buffer create_word s q.0.command_token) (create-Answers key value q)
  round-Answers (read key) q =
      rw (round-command buffer read_word s q.command_token) (read-Answers key q)
  round-Answers (update key value) q =
      rw (round-command buffer update_word s q.0.command_token) (update-Answers key value q)
  round-Answers (delete key) q =
      rw (round-command buffer delete_word s q.command_token) (delete-Answers key q)

  IsRequest-some : (r : Request) → IsRequest buffer r → ltb 0 (length buffer) ≡ true
  IsRequest-some (create key value) q = q.0.some_bytes
  IsRequest-some (read key) q = q.some_bytes
  IsRequest-some (update key value) q = q.0.some_bytes
  IsRequest-some (delete key) q = q.some_bytes

-- Messages with the requests that they are.
abbrev pub AreRequests : List (List ℕ × Request) → Type 0
AreRequests [] = Unit
AreRequests ((buffer, r) ∷ messages) = IsRequest buffer r × AreRequests messages

-- From a store that holds a map, the server answers messages that are requests with the replies of the map, one after
-- the other and with no fault, and the store holds the map that they lead to. Keys other than -1, values shorter than
-- the size that `create` gives, and values of at most 3 characters for `update`.
pub serve-replies_to :
    (messages : List (List ℕ × Request)) (s : Store) (m : KeyMap)
    → AreRequests messages
    → Holds s m
    → (s' : Store) × (serve (map (λ p. (p.0, true)) messages) s
        ≡ ok ((replies_to (map (λ p. p.1) messages) m).0, s'))
      × Holds s' (replies_to (map (λ p. p.1) messages) m).1
unfolding serve replies_to
serve-replies_to [] s m q h = (s, refl, h)
serve-replies_to ((buffer, r) ∷ messages) s m (q, more) h =
    let (s₁, answers, h₁) = round-Answers buffer s m h r q in
    let (s', serves, h') = serve-replies_to messages s₁ (reply_to r m).1 more h₁ in
    (s', rw (answers, IsRequest-some buffer s m h r q, serves) refl, h')
