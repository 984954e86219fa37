-- ===== src/Counter/Chars/Laws.antt =====
-- The character counts against the list of bytes.
use schoolwork.Common.{
  ℕ, zero, suc, ◌+◌, ◌^◌, ◌<◌, ◌≡◌, refl, ◌∙◌, List, [], ◌∷◌, arith, leb, ◌==◌, if◌then◌else◌,
  length, get_or, replicate, length-set, get_or-set_self, get_or-set_ne,
}
use schoolwork.Counter.Chars.{
  CharInfo, no_char, CharState, start_chars, see_char, char_step, count_chars, char_counter,
}

-- How often a number occurs.
abbrev pub occurrences : ℕ → List ℕ → ℕ
occurrences c [] = 0
occurrences c (x ∷ xs) = if x == c then occurrences c xs + 1 else occurrences c xs

-- The position of the first occurrence, counted from `n`.
abbrev pub first_position : ℕ → ℕ → List ℕ → ℕ
first_position c n [] = 0
first_position c n (x ∷ xs) = if x == c then n else first_position c (n + 1) xs

abbrev pub ascii_count : List ℕ → ℕ
ascii_count [] = 0
ascii_count (x ∷ xs) = if leb x 127 then ascii_count xs + 1 else ascii_count xs

length-count_chars :
    (s : CharState) (file : List ℕ) → length (count_chars s file).char_array ≡ length s.char_array
unfolding count_chars char_step
length-count_chars s [] = refl
length-count_chars s (x ∷ file) =
    length-count_chars (char_step s x) file
    ∙ ground
        (arith, length-set s.char_array x (see_char (get_or s.char_array x no_char) x s.position))

-- What the record of a character is after the rest of the file.
abbrev seen : ℕ → CharInfo → ℕ → List ℕ → CharInfo
seen c info n file =
    if occurrences c file == 0
    then info
    else if info.count == 0
    then record {
      ascii_value = c;
      character = c;
      count = occurrences c file;
      initial_position = first_position c n file;
    }
    else record info { count = info.count + occurrences c file }

seen-count_chars :
    (s : CharState) (file : List ℕ) (c : ℕ)
    → c < 128
    → length s.char_array ≡ 128
    → (get_or s.char_array c no_char).count + length file < 2 ^ 32
    → s.position + length file < 2 ^ 32
    → get_or (count_chars s file).char_array c no_char
      ≡ seen c (get_or s.char_array c no_char) s.position file
unfolding count_chars char_step see_char
seen-count_chars s [] c h l few far = refl
seen-count_chars s (x ∷ file) c h l few far = ground (
  arith,
  few,
  far,
  seen-count_chars (char_step s x) file c h (length-count_chars s (x ∷ []) ∙ l)
      (ground (
        arith,
        few,
        get_or-set_self s.char_array x (see_char (get_or s.char_array x no_char) x s.position)
            no_char,
        get_or-set_ne s.char_array x c (see_char (get_or s.char_array x no_char) x s.position)
            no_char,
      ))
      (ground (arith, far)),
  get_or-set_self s.char_array x (see_char (get_or s.char_array x no_char) x s.position) no_char,
  get_or-set_ne s.char_array x c (see_char (get_or s.char_array x no_char) x s.position) no_char,
)

get_or-replicate : (n i : ℕ) → get_or (replicate n no_char) i no_char ≡ no_char
get_or-replicate zero i = refl
get_or-replicate (suc n) zero = refl
get_or-replicate (suc n) (suc i) = get_or-replicate n i

-- For every ASCII character that occurs in a file of fewer than 2^31 bytes, the array holds how
-- often it occurs and the position of its first occurrence.
pub char_array_lem :
    (file : List ℕ) (c : ℕ)
    → c < 128
    → 0 < occurrences c file
    → length file < 2 ^ 31
    → get_or (count_chars start_chars file).char_array c no_char ≡ record {
      ascii_value = c;
      character = c;
      count = occurrences c file;
      initial_position = first_position c 0 file;
    }
unfolding start_chars
char_array_lem file c h o few =
    seen-count_chars start_chars file c h refl (rw (get_or-replicate 128 c) (omega (arith, few)))
      (omega (arith, few))
    ∙ rw (get_or-replicate 128 c) (ground arith)

total-count_chars :
    (s : CharState) (file : List ℕ)
    → s.total_chars + length file < 2 ^ 32
    → (count_chars s file).total_chars ≡ s.total_chars + ascii_count file
unfolding count_chars char_step
total-count_chars s [] few = omega arith
total-count_chars s (x ∷ file) few =
    ground (arith, few, total-count_chars (char_step s x) file (ground (arith, few)))

-- For a file of fewer than 2^31 bytes, the total that is printed is the number of ASCII characters.
pub char_counter_total :
    (file : List ℕ) → length file < 2 ^ 31 → (char_counter file).total ≡ ascii_count file
unfolding char_counter start_chars
char_counter_total file few = omega (arith, total-count_chars start_chars file (omega (arith, few)))
