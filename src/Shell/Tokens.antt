-- ===== src/Shell/Tokens.antt =====
-- my_shell.c: `tokenize`, which cuts a line into tokens character by character, and what it computes.
use os_modules.Prelude.{
  ℕ, suc, ◌+◌, ◌≤◌, ◌≡◌, refl, ap, ◌∙◌, Bool, true, false, ◌&&◌, List, [], ◌∷◌, ◌++◌, inl, inr,
  Bool-cases, ltb, if◌then◌else◌, arith,
}
use mathlib.Core.List.{append_assoc, append-nil}
use os_modules.Prelude.Text.{length, length-snoc}
use os_modules.Prelude.Result.{Result, ok, fault, out_of_bounds, ◌>>◌, within}
use os_modules.Server.Tokens.{is_delimiter, split}

abbrev pub max_token_size : ℕ
max_token_size = 64

abbrev pub max_num_tokens : ℕ
max_num_tokens = 64

-- token[tokenIndex] = …, of a token of which `token` has been read
abbrev pub token_room : (token : List ℕ) → Result (Unit {0})
token_room token = within (ltb (length token) max_token_size)

-- tokens[tokenNo] = …
abbrev pub tokens_room : (tokens : List (List ℕ)) → Result (Unit {0})
tokens_room tokens = within (ltb (length tokens) max_num_tokens)

-- The loop over the line. The characters behind the last separator are dropped.
unfoldable pub tokenize_loop :
    (token : List ℕ) → (tokens : List (List ℕ)) → (line : List ℕ) → Result (List (List ℕ))
tokenize_loop token tokens [] = tokens_room tokens >> ok tokens
tokenize_loop [] tokens (c ∷ line) =
    let next = tokenize_loop [] tokens line in
    let longer = tokenize_loop (c ∷ []) tokens line in if is_delimiter c then next else longer
tokenize_loop (d ∷ token) tokens (c ∷ line) =
    let stored = tokenize_loop [] (tokens ++ ((d ∷ token) ∷ [])) line in
    let longer = tokenize_loop ((d ∷ token) ++ (c ∷ [])) tokens line in
    token_room (d ∷ token) >> (if is_delimiter c then tokens_room tokens >> stored else longer)

unfoldable pub tokenize : (line : List ℕ) → Result (List (List ℕ))
unfolding tokenize_loop
tokenize line = tokenize_loop [] [] line

-- All tokens leave a byte for their end.
unfoldable pub all_short : List (List ℕ) → Bool
all_short [] = true
all_short (t ∷ ts) = ltb (length t) max_token_size && all_short ts

-- A token that is too long stays too long.
long-split :
    (d : ℕ) (token m : List ℕ)
    → max_token_size ≤ length (d ∷ token)
    → all_short (split (d ∷ token) m) ≡ false
unfolding split all_short
long-split d token [] h = ground arith
long-split d token (c ∷ m) h = elim (Bool-cases (is_delimiter c)) [
  | inl ends ↦ rw (split, ends) (ground arith)
  | inr goes_on ↦
      rw (split, goes_on) (long-split d (token ++ (c ∷ [])) m (omega (arith, length-snoc token c)))
]

-- The tokens behind those already stored, if all fit.
abbrev outcome : (tokens found : List (List ℕ)) → Result (List (List ℕ))
outcome tokens found =
    if all_short found && ltb (length tokens + length found) max_num_tokens
    then ok (tokens ++ found)
    else fault out_of_bounds

finish : (tokens : List (List ℕ)) → (tokens_room tokens >> ok tokens) ≡ outcome tokens []
unfolding all_short
finish tokens =
    let none_more : length tokens + 0 ≡ length tokens = omega arith in
    elim (Bool-cases (ltb (length tokens) max_num_tokens)) [
      | inl room ↦ rw (none_more, room, append-nil tokens) refl
      | inr full ↦ rw (none_more, full) refl
    ]

store :
    (t : List ℕ) (tokens found : List (List ℕ))
    → (token_room t >> (tokens_room tokens >> outcome (tokens ++ (t ∷ [])) found))
      ≡ outcome tokens (t ∷ found)
unfolding all_short
store t tokens found =
    let same_count : length (tokens ++ (t ∷ [])) + length found
        ≡ length tokens + suc (length found) =
      omega (arith, length-snoc tokens t) in
    elim (Bool-cases (ltb (length t) max_token_size)) [
      | inr long ↦ rw long refl
      | inl short ↦ elim (Bool-cases (ltb (length tokens) max_num_tokens)) [
        | inl room ↦ rw (short, room, same_count, append_assoc tokens (t ∷ []) found) refl
        | inr full ↦
            let full' : ltb (length tokens + suc (length found)) max_num_tokens ≡ false =
              ground arith in
            rw (short, full, full') (ground arith)
      ]
    ]

tokenize_loop_lem :
    (m token : List ℕ) (tokens : List (List ℕ))
    → tokenize_loop token tokens (m ++ (10 ∷ [])) ≡ outcome tokens (split token m)
unfolding tokenize_loop split
tokenize_loop_lem [] [] tokens = finish tokens
tokenize_loop_lem [] (d ∷ token) tokens =
    ap (λ r. token_room (d ∷ token) >> (tokens_room tokens >> r))
      (finish (tokens ++ ((d ∷ token) ∷ [])))
    ∙ store (d ∷ token) tokens []
tokenize_loop_lem (c ∷ m) [] tokens = elim (Bool-cases (is_delimiter c)) [
  | inl ends ↦ rw (tokenize_loop, split, ends) (tokenize_loop_lem m [] tokens)
  | inr goes_on ↦ rw (tokenize_loop, split, goes_on) (tokenize_loop_lem m (c ∷ []) tokens)
]
tokenize_loop_lem (c ∷ m) (d ∷ token) tokens = elim (Bool-cases (is_delimiter c)) [
  | inl ends ↦
      rw (tokenize_loop, split, ends)
        (ap (λ r. token_room (d ∷ token) >> (tokens_room tokens >> r))
            (tokenize_loop_lem m [] (tokens ++ ((d ∷ token) ∷ [])))
          ∙ store (d ∷ token) tokens (split [] m))
  | inr goes_on ↦ elim (Bool-cases (ltb (length (d ∷ token)) max_token_size)) [
    | inl short ↦
        rw (tokenize_loop, split, goes_on, short)
          (tokenize_loop_lem m ((d ∷ token) ++ (c ∷ [])) tokens)
    | inr long ↦
        let too_long = long-split d (token ++ (c ∷ [])) m (ground (arith, length-snoc token c)) in
        rw (tokenize_loop, split, goes_on, long, too_long) refl
  ]
]

-- For a line that ends in a newline, the tokenizer of the shell gives the tokens that strtok gives for the
-- characters before it, when there are at most 63 and each has at most 63 characters; otherwise it writes
-- behind an array.
pub tokenize-eq-split :
    (line : List ℕ)
    → tokenize (line ++ (10 ∷ [])) ≡ (
        if all_short (split [] line) && ltb (length (split [] line)) max_num_tokens
        then ok (split [] line)
        else fault out_of_bounds)
unfolding tokenize
tokenize-eq-split line =
    let same : 0 + length (split [] line) ≡ length (split [] line) = omega arith in
    tokenize_loop_lem line [] [] ∙ rw same refl
