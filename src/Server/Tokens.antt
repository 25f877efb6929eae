-- ===== src/Server/Tokens.antt =====
-- my_server.c: the message cut into tokens, and `atoi` on a token.
use os_modules.Prelude.{
  ℕ, zero, suc, ◌+◌, ◌-◌, ◌*◌, Bool, ◌&&◌, ◌||◌, List, [], ◌∷◌, ◌++◌, leb, ◌==◌, if◌then◌else◌,
}
use os_modules.Prelude.Int.{ℤ, pos, sub_ℕ}
use os_modules.Prelude.Text.{take, string}
use os_modules.Prelude.Result.{Result, ok, fault, out_of_bounds}

abbrev pub max_tokens : ℕ
max_tokens = 20

-- The characters of " \t\n".
abbrev pub is_delimiter : ℕ → Bool
is_delimiter c = c == 32 || (c == 9 || c == 10)

-- strtok passes over empty tokens.
abbrev pub emit : List ℕ → List (List ℕ) → List (List ℕ)
emit [] rest = rest
emit (c ∷ token) rest = (c ∷ token) ∷ rest

-- The tokens that strtok returns one after the other; `token` is what is read of one.
unfoldable pub split : (token : List ℕ) → List ℕ → List (List ℕ)
split token [] = emit token []
split token (c ∷ m) =
    let ended = split [] m in
    let longer = split (token ++ (c ∷ [])) m in if is_delimiter c then emit token ended else longer

unfoldable pub tokenize : (buffer : List ℕ) → List (List ℕ)
unfolding split string
tokenize buffer = take max_tokens (split [] (string buffer))

-- tokens[k]; an entry behind the tokens is a pointer that nothing has set.
unfoldable pub token_at : (k : ℕ) → List (List ℕ) → Result (List ℕ)
token_at k [] = fault out_of_bounds
token_at zero (t ∷ ts) = ok t
token_at (suc k) (t ∷ ts) = token_at k ts

abbrev pub is_digit : ℕ → Bool
is_digit c = leb 48 c && leb c 57

abbrev pub is_space : ℕ → Bool
is_space c = c == 32 || (leb 9 c && leb c 13)

unfoldable pub digits : (read : ℕ) → List ℕ → ℕ
digits n [] = n
digits n (c ∷ m) = let rest = digits (n * 10 + (c - 48)) m in if is_digit c then rest else n

unfoldable pub signed : List ℕ → ℤ
unfolding digits
signed [] = pos 0
signed (c ∷ m) =
    if c == b'-'
    then sub_ℕ 0 (digits 0 m)
    else (if c == b'+' then pos (digits 0 m) else pos (digits 0 (c ∷ m)))

-- atoi, of a number that fits an int
unfoldable pub atoi : List ℕ → ℤ
unfolding signed
atoi [] = pos 0
atoi (c ∷ m) = let rest = atoi m in if is_space c then rest else signed (c ∷ m)
