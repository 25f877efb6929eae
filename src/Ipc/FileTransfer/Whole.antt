-- ===== src/Ipc/FileTransfer/Whole.antt =====
-- socket_client.c, socket_server.c: which files arrive.
use mathlib.Core.List.{append-nil}
use mathlib.Core.Path.{ap₂}
use os_modules.Prelude.{
  ℕ, zero, suc, ◌-◌, ◌≤◌, ◌<◌, ◌≡◌, ◌≢◌, refl, ap, ◌∙◌, true, false, Option, none, some, List, [],
  ◌∷◌, ◌++◌, ltb, lt→ltb, ltb→lt, ltb→le, ◌==◌, if◌then◌else◌, Bool-cases, inl, inr, arith,
}
use os_modules.Prelude.Text.{length, take, drop, string, zeros}
use os_modules.Prelude.Result.{Result, ok, fault, out_of_bounds, ◌>>=◌, ◌>>◌, within}
use os_modules.Ipc.FileTransfer.{
  buffer_size, has_end, read_chunk, send_loop, send_file, receive_loop, print_received, transfer,
}

-- Text: no byte is 0.
abbrev pub LacksZero : List ℕ → Type 0
LacksZero [] = Unit
LacksZero (c ∷ m) = (c ≢ 0) × LacksZero m

take-short : (n : ℕ) (m : List ℕ) → length m ≤ n → take n m ≡ m
take-short zero [] h = refl
take-short zero (c ∷ m) h = absurd (omega arith)
take-short (suc n) [] h = refl
take-short (suc n) (c ∷ m) h = ap (λ l. c ∷ l) (take-short n m (omega arith))

drop-short : (n : ℕ) (m : List ℕ) → length m ≤ n → drop n m ≡ []
drop-short zero [] h = refl
drop-short zero (c ∷ m) h = absurd (omega arith)
drop-short (suc n) [] h = refl
drop-short (suc n) (c ∷ m) h = drop-short n m (omega arith)

drop-zeros : (k n : ℕ) → k ≤ n → drop k (zeros n) ≡ zeros (n - k)
unfolding zeros
drop-zeros zero n h = ap zeros (omega arith)
drop-zeros (suc k) zero h = absurd (omega arith)
drop-zeros (suc k) (suc n) h = drop-zeros k n (omega arith) ∙ ap zeros (omega arith)

string-zeros : (m : List ℕ) (n : ℕ) → LacksZero m → string (m ++ zeros n) ≡ m
unfolding string zeros
string-zeros [] zero l = refl
string-zeros [] (suc n) l = refl
string-zeros (c ∷ m) n (ne, l) =
    let no : (c == 0) ≡ false = ground arith in rw no (ap (λ s. c ∷ s) (string-zeros m n l))

has_end-zeros : (m : List ℕ) (n : ℕ) → 0 < n → has_end (m ++ zeros n) ≡ true
unfolding has_end zeros
has_end-zeros [] zero h = absurd (omega arith)
has_end-zeros [] (suc n) h = refl
has_end-zeros (c ∷ m) n h = ground (arith, has_end-zeros m n h)

has_end-take : (n : ℕ) (m : List ℕ) → LacksZero m → has_end (take n m) ≡ false
unfolding has_end
has_end-take zero m l = refl
has_end-take (suc n) [] l = refl
has_end-take (suc n) (c ∷ m) (ne, l) = ground (arith, has_end-take n m l)

length-take : (n : ℕ) (m : List ℕ) → n ≤ length m → length (take n m) ≡ n
length-take zero m h = refl
length-take (suc n) [] h = absurd (omega arith)
length-take (suc n) (c ∷ m) h = ap suc (length-take n m (omega arith))

-- A short text in a buffer of zeros.
short-chunk :
    (n : ℕ) (m : List ℕ)
    → length m ≤ n
    → n ≤ buffer_size
    → take n m ++ drop (length (take n m)) (zeros buffer_size) ≡ m ++ zeros (buffer_size - length m)
short-chunk n m h h' =
    ap (λ t. t ++ drop (length t) (zeros buffer_size)) (take-short n m h)
    ∙ ap (λ z. m ++ z) (drop-zeros (length m) buffer_size (omega arith))

long-chunk :
    (m : List ℕ) → buffer_size ≤ length m → read_chunk m (zeros buffer_size) ≡ take buffer_size m
unfolding read_chunk zeros
long-chunk m h =
    ap (λ k. take buffer_size m ++ drop k (zeros buffer_size)) (length-take buffer_size m h)
    ∙ append-nil (take buffer_size m)

-- A round of the client, with its buffer.
sends : (fuel : ℕ) → (rest buffer : List ℕ) → Result (List (List ℕ))
sends fuel rest buffer =
    within (has_end buffer) >> (send_loop fuel rest buffer >>= λ sent. ok (string buffer ∷ sent))

send_loop-sends :
    (fuel c : ℕ) (file buffer : List ℕ)
    → send_loop (suc fuel) (c ∷ file) buffer
      ≡ sends fuel (drop buffer_size (c ∷ file)) (read_chunk (c ∷ file) buffer)
unfolding send_loop sends
send_loop-sends fuel c file buffer = refl

sends-last :
    (fuel : ℕ) (m : List ℕ) (n : ℕ)
    → LacksZero m
    → 0 < n
    → sends (suc fuel) [] (m ++ zeros n) ≡ ok (m ∷ [])
unfolding sends send_loop
sends-last fuel m n l h = rw (has_end-zeros m n h, string-zeros m n l) refl

sends-endless :
    (fuel : ℕ) (rest buffer : List ℕ)
    → has_end buffer ≡ false
    → sends fuel rest buffer ≡ fault out_of_bounds
unfolding sends
sends-endless fuel rest buffer no_end = rw no_end refl

send_file-short :
    (c : ℕ) (m : List ℕ)
    → LacksZero (c ∷ m)
    → length (c ∷ m) < buffer_size
    → send_file (c ∷ m) ≡ ok ((c ∷ m) ∷ [])
unfolding send_file read_chunk
send_file-short c m l h =
    send_loop-sends (suc (length m)) c m (zeros buffer_size)
    ∙ (ap₂ (sends (suc (length m))) (drop-short buffer_size (c ∷ m) (omega arith))
          (short-chunk buffer_size (c ∷ m) (omega arith) (omega arith))
        ∙ sends-last (length m) (c ∷ m) (buffer_size - length (c ∷ m)) l (omega arith))

send_file-long :
    (c : ℕ) (m : List ℕ)
    → LacksZero (c ∷ m)
    → buffer_size ≤ length (c ∷ m)
    → send_file (c ∷ m) ≡ fault out_of_bounds
unfolding send_file
send_file-long c m l h =
    let no_end : has_end (read_chunk (c ∷ m) (zeros buffer_size)) ≡ false =
      ap has_end (long-chunk (c ∷ m) h) ∙ has_end-take buffer_size (c ∷ m) l in
    send_loop-sends (suc (length m)) c m (zeros buffer_size)
    ∙ sends-endless (suc (length m)) (drop buffer_size (c ∷ m))
        (read_chunk (c ∷ m) (zeros buffer_size)) no_end

-- The buffer of the server, when it has received all of a short text.
received : List ℕ → Option (List ℕ)
received text =
    let buffer' = text ++ drop (length text) (zeros buffer_size) in
    if ltb (length text) buffer_size then some buffer' else none

receive_loop-received :
    (d : List ℕ) → receive_loop (d ∷ []) (zeros buffer_size) ≡ received (take (buffer_size - 1) d)
unfolding receive_loop received
receive_loop-received d = refl

received-short :
    (m : List ℕ) → length m < buffer_size → received m ≡ some (m ++ zeros (buffer_size - length m))
unfolding received
received-short m h =
    rw (lt→ltb (length m) buffer_size h)
      (ap (λ z. some (m ++ z)) (drop-zeros (length m) buffer_size (omega arith)))

print_received-short :
    (m : List ℕ) → LacksZero m → length m < buffer_size → print_received (m ∷ []) ≡ some m
unfolding print_received
print_received-short m l h =
    let buffer : receive_loop (m ∷ []) (zeros buffer_size)
        ≡ some (m ++ zeros (buffer_size - length m)) =
      receive_loop-received m
      ∙ (ap received (take-short (buffer_size - 1) m (omega arith)) ∙ received-short m h) in
    ap (λ o. elim o as (λ _. Option (List ℕ)) [ none ↦ none | some b ↦ some (string b) ]) buffer
    ∙ ap some (string-zeros m (buffer_size - length m) l)

-- What the server prints: nothing for an empty file, for which it waits.
abbrev pub arrived : List ℕ → Option (List ℕ)
arrived [] = none
arrived (c ∷ m) = some (c ∷ m)

-- The datagrams that go to the server.
abbrev pub datagrams : List ℕ → List (List ℕ)
datagrams [] = []
datagrams (c ∷ m) = (c ∷ m) ∷ []

-- For a text file of less than 256 bytes the client sends one datagram, the text as it is, which the server prints; for
-- an empty one it sends none and the server waits. For a longer text the client reads behind its buffer, in which no byte
-- ends the string.
pub transfer-text :
    (file : List ℕ)
    → LacksZero file
    → (send_file file
        ≡ (if ltb (length file) buffer_size then ok (datagrams file) else fault out_of_bounds))
      × (transfer file
          ≡ (if ltb (length file) buffer_size then ok (arrived file) else fault out_of_bounds))
unfolding transfer send_file send_loop print_received receive_loop
transfer-text [] l = (refl, refl)
transfer-text (c ∷ m) l = elim (Bool-cases (ltb (length (c ∷ m)) buffer_size)) [
  | inl short ↦
      let h = ltb→lt (length (c ∷ m)) buffer_size short in
      (
        rw (send_file-short c m l h, short) refl,
        rw (send_file-short c m l h, print_received-short (c ∷ m) l h, short) refl,
      )
  | inr long ↦
      let over = send_file-long c m l (ltb→le (length (c ∷ m)) buffer_size long) in
      (rw (over, long) refl, rw (over, long) refl)
]

length-drop : (n : ℕ) (m : List ℕ) → length (drop n m) ≤ length m
length-drop zero m = omega arith
length-drop (suc n) [] = omega arith
length-drop (suc n) (c ∷ m) = omega (arith, length-drop n m)

-- Fuel for a round a byte is enough: more does not change the result.
pub send_loop-fuel :
    (fuel fuel' : ℕ) (file buffer : List ℕ)
    → length file < fuel
    → length file < fuel'
    → send_loop fuel file buffer ≡ send_loop fuel' file buffer
unfolding send_loop
send_loop-fuel zero fuel' file buffer h h' = absurd (omega arith)
send_loop-fuel (suc fuel) zero file buffer h h' = absurd (omega arith)
send_loop-fuel (suc fuel) (suc fuel') [] buffer h h' = refl
send_loop-fuel (suc fuel) (suc fuel') (c ∷ file) buffer h h' =
    let buffer' = read_chunk (c ∷ file) buffer in
    let less = length-drop 255 file in
    ap (λ r. within (has_end buffer') >> (r >>= λ sent. ok (string buffer' ∷ sent)))
      (send_loop-fuel fuel fuel' (drop buffer_size (c ∷ file)) buffer' (omega (arith, less))
        (omega (arith, less)))
