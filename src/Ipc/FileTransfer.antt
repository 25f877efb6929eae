-- ===== src/Ipc/FileTransfer.antt =====
-- ipc-code/socket_client.c and socket_server.c: a client that sends a file in datagrams, and a server that prints what
-- it receives.
pub mod Whole
mod Tests
use os_modules.Prelude.{
  ℕ, zero, suc, ◌+◌, ◌-◌, Bool, true, false, ◌||◌, Option, none, some, List, [], ◌∷◌, ◌++◌, ltb,
  ◌==◌, if◌then◌else◌,
}
use os_modules.Prelude.Text.{length, take, drop, string, zeros}
use os_modules.Prelude.Result.{Result, ok, ◌>>=◌, ◌>>◌, within}

abbrev pub buffer_size : ℕ
buffer_size = 256

-- Whether strlen finds the end of the string in the buffer.
unfoldable pub has_end : (buffer : List ℕ) → Bool
has_end [] = false
has_end (c ∷ buffer) = c == 0 || has_end buffer

-- read(fd, buffer, sizeof(buffer)): the bytes behind those that are read stay.
unfoldable pub read_chunk : (file buffer : List ℕ) → List ℕ
read_chunk file buffer = take buffer_size file ++ drop (length (take buffer_size file)) buffer

-- The loop of the client: the datagrams for what is left of the file. It ends when read returns 0.
unfoldable pub send_loop : (fuel : ℕ) → (file buffer : List ℕ) → Result (List (List ℕ))
unfolding read_chunk has_end string
send_loop zero file buffer = ok []
send_loop (suc fuel) [] buffer = ok []
send_loop (suc fuel) (c ∷ file) buffer =
    let buffer' = read_chunk (c ∷ file) buffer in
    let rest = send_loop fuel (drop buffer_size (c ∷ file)) buffer' in
    within (has_end buffer') >> (rest >>= λ sent. ok (string buffer' ∷ sent))

-- The datagrams for a file. Each round reads a byte at least.
unfoldable pub send_file : (file : List ℕ) → Result (List (List ℕ))
unfolding send_loop zeros
send_file file = send_loop (suc (length file)) file (zeros buffer_size)

-- The loop of the server: it ends at the first datagram that is not larger than the buffer, and `none` says that it waits
-- for another one.
unfoldable pub receive_loop : (datagrams : List (List ℕ)) → (buffer : List ℕ) → Option (List ℕ)
receive_loop [] buffer = none
receive_loop (d ∷ datagrams) buffer =
    let received = take (buffer_size - 1) d in
    let buffer' = received ++ drop (length received) buffer in
    let rest = receive_loop datagrams buffer' in
    if ltb (length received) buffer_size then some buffer' else rest

-- What the server prints.
unfoldable pub print_received : (datagrams : List (List ℕ)) → Option (List ℕ)
unfolding receive_loop string zeros
print_received datagrams = elim (receive_loop datagrams (zeros buffer_size)) [
  | none ↦ none
  | some buffer ↦ some (string buffer)
]

-- Both programs.
unfoldable pub transfer : (file : List ℕ) → Result (Option (List ℕ))
unfolding send_file print_received
transfer file = do sent ← send_file file; ok (print_received sent)
