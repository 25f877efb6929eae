-- ===== src/Server/Loop.antt =====
-- my_server.c: the loop of `main`.
use os_modules.Prelude.{ℕ, Bool, ◌&&◌, List, [], ◌∷◌, ltb, if◌then◌else◌}
use os_modules.Prelude.Text.{length, same_string}
use os_modules.Prelude.Result.{Result, ok, ◌>>=◌}
use os_modules.Server.Tokens.{tokenize, token_at}
use os_modules.Server.Store.{
  Store, Reply, disconnecting, got_message, create_key_value_pair, read_pair, update_pair,
  delete_pair,
}

abbrev pub create_word : List ℕ
create_word = b'c' ∷ b'r' ∷ b'e' ∷ b'a' ∷ b't' ∷ b'e' ∷ []

abbrev pub read_word : List ℕ
read_word = b'r' ∷ b'e' ∷ b'a' ∷ b'd' ∷ []

abbrev pub update_word : List ℕ
update_word = b'u' ∷ b'p' ∷ b'd' ∷ b'a' ∷ b't' ∷ b'e' ∷ []

abbrev pub delete_word : List ℕ
delete_word = b'd' ∷ b'e' ∷ b'l' ∷ b'e' ∷ b't' ∷ b'e' ∷ []

abbrev pub disconnect_word : List ℕ
disconnect_word = b'd' ∷ b'i' ∷ b's' ∷ b'c' ∷ b'o' ∷ b'n' ∷ b'n' ∷ b'e' ∷ b'c' ∷ b't' ∷ []

-- The command that the first token names. After `disconnect` the next client finds the same store.
unfoldable pub command : (word : List ℕ) → (tokens : List (List ℕ)) → Store → Result (Reply × Store)
unfolding same_string create_key_value_pair read_pair update_pair delete_pair
command word tokens s =
    if same_string word create_word
    then create_key_value_pair tokens s
    else (if same_string word read_word
        then read_pair tokens s
        else (if same_string word update_word
            then update_pair tokens s
            else (if same_string word delete_word
                then delete_pair tokens s
                else (if same_string word disconnect_word
                    then ok (disconnecting, s)
                    else ok (got_message, s)))))

unfoldable pub round : (buffer : List ℕ) → Store → Result (Reply × Store)
unfolding tokenize token_at command
round buffer s = do word ← token_at 0 (tokenize buffer); command word (tokenize buffer) s

-- The rounds for what `read` puts into the buffer, each with the answer of `write` to whether
-- the reply was sent (n2 > 0).
unfoldable pub serve : List (List ℕ × Bool) → Store → Result (List Reply × Store)
unfolding round
serve [] s = ok ([], s)
serve ((buffer, sent) ∷ more) s = round buffer s >>= λ (reply, s').
    if ltb 0 (length buffer) && sent
    then (serve more s' >>= λ (replies, s''). ok (reply ∷ replies, s''))
    else ok (reply ∷ [], s')
