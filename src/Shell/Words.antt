-- ===== src/Shell/Words.antt =====
-- How cs537/P3/wsh.c takes a line apart: `wsh_split_line`, and the split at `|` in `wsh_execute`.
pub mod RoundTrip
mod Tests
use schoolwork.Common.{ℕ, ◌+◌, ◌-◌, ◌*◌, Bool, ◌&&◌, ◌||◌, List, [], ◌∷◌, leb, ◌==◌, if◌then◌else◌}
use schoolwork.Common.Bytes.{Bytes, str_eq, tokens}
use schoolwork.Common.Int.{ℤ, pos, sub_ℕ, signed32, unsigned}

abbrev pub space : ℕ
space = b' '

-- `wsh_split_line`; the array of tokens grows as needed and ends with NULL.
unfoldable pub wsh_split_line : Bytes → List Bytes
unfolding tokens
wsh_split_line line = tokens space line

abbrev pub pipe_word : Bytes
pipe_word = b'|' ∷ []

-- The loop of `wsh_execute` that counts the pipes.
unfoldable pub num_pipes : List Bytes → ℕ
num_pipes [] = 0
num_pipes (a ∷ args) = let rest = num_pipes args in if str_eq a pipe_word then rest + 1 else rest

-- The loop that puts NULL in place of each `|`: the arguments of the commands in order.
abbrev cons_first : Bytes → List (List Bytes) → List (List Bytes)
cons_first a [] = (a ∷ []) ∷ []
cons_first a (c ∷ cs) = (a ∷ c) ∷ cs

pub split_commands : List Bytes → List (List Bytes)
split_commands [] = [] ∷ []
split_commands (a ∷ args) =
    let rest = split_commands args in if str_eq a pipe_word then [] ∷ rest else cons_first a rest

is_space : ℕ → Bool
is_space c = c == space || (leb 9 c && leb c 13)

is_digit : ℕ → Bool
is_digit c = leb b'0' c && leb c b'9'

digits_value : ℕ → Bytes → ℕ
digits_value acc [] = acc
digits_value acc (c ∷ s) =
    let rest = digits_value (acc * 10 + (c - b'0')) s in if is_digit c then rest else acc

abbrev signed_value : Bytes → ℤ
signed_value [] = pos 0
signed_value (c ∷ s) =
    if c == b'-'
    then sub_ℕ 0 (digits_value 0 s)
    else if c == b'+'
    then pos (digits_value 0 s)
    else pos (digits_value 0 (c ∷ s))

skip_spaces : Bytes → Bytes
skip_spaces [] = []
skip_spaces (c ∷ s) = let rest = skip_spaces s in if is_space c then rest else c ∷ s

-- `(int) strtol (s, NULL, 10)` for a value that a `long` can hold.
unfoldable pub strtol_int : Bytes → ℤ
unfolding is_space is_digit digits_value skip_spaces
strtol_int s = signed32 (unsigned 32 (signed_value (skip_spaces s)))

-- What is left of a string in memory once `strtok` has cut its first token out: a NUL byte stands
-- behind the token.
unfoldable pub cut_word : Bytes → Bytes
cut_word [] = []
cut_word (c ∷ s) = let rest = cut_word s in if c == space then [] else c ∷ rest

unfoldable pub cut_first_token : Bytes → Bytes
unfolding cut_word
cut_first_token [] = []
cut_first_token (c ∷ s) =
    let rest = cut_first_token s in if c == space then c ∷ rest else c ∷ cut_word s
