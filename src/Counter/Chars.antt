-- ===== src/Counter/Chars.antt =====
-- `charCounter` of cs537/P1/MADCounter.c. The counters are ints, given by their 32 bits.
pub mod Laws
use schoolwork.Common.Int.{increment}
use schoolwork.Common.{ℕ, List, [], ◌∷◌, ◌++◌, leb, ◌==◌, if◌then◌else◌, get_or, set, replicate}

-- `CharInfo`; a byte and its `char` are the same number here.
pub record CharInfo : Type 0 where
  pub ascii_value : ℕ
  pub character : ℕ
  pub count : ℕ
  pub initial_position : ℕ

abbrev pub no_char : CharInfo
no_char = record { ascii_value = 0; character = 0; count = 0; initial_position = 0 }

-- The variables of the function, with the characters outside ASCII that it reports, and where.
pub record CharState : Type 0 where
  pub char_array : List CharInfo
  pub total_chars : ℕ
  pub unique_chars : ℕ
  pub position : ℕ
  pub errors : List (ℕ × ℕ)

unfoldable pub start_chars : CharState
start_chars = record {
  char_array = replicate 128 no_char;
  total_chars = 0;
  unique_chars = 0;
  position = 0;
  errors = [];
}

-- The update of a character's record.
unfoldable pub see_char : CharInfo → ℕ → ℕ → CharInfo
see_char info ch position =
    if info.count == 0
    then record { ascii_value = ch; character = ch; count = 1; initial_position = position }
    else record info { count = increment info.count }

-- The body of the loop over the characters.
unfoldable pub char_step : CharState → ℕ → CharState
unfolding see_char
char_step s ch =
    if leb ch 127
    then record s {
      char_array = set s.char_array ch (see_char (get_or s.char_array ch no_char) ch s.position);
      total_chars = increment s.total_chars;
      unique_chars =
          if (get_or s.char_array ch no_char).count == 0
          then increment s.unique_chars
          else s.unique_chars;
      position = increment s.position;
    }
    else record s { position = increment s.position; errors = s.errors ++ ((ch, s.position) ∷ []) }

unfoldable pub count_chars : CharState → List ℕ → CharState
unfolding char_step
count_chars s [] = s
count_chars s (ch ∷ file) = count_chars (char_step s ch) file

-- What is printed: the records of the characters that occur.
unfoldable pub printed_chars : List CharInfo → List CharInfo
printed_chars [] = []
printed_chars (info ∷ infos) =
    let rest = printed_chars infos in if info.count == 0 then rest else info ∷ rest

pub record CharReport : Type 0 where
  pub total : ℕ
  pub unique : ℕ
  pub lines : List CharInfo

-- `charCounter`
unfoldable pub char_counter : List ℕ → CharReport
unfolding start_chars count_chars printed_chars
char_counter file =
    let s = count_chars start_chars file in
    record { total = s.total_chars; unique = s.unique_chars; lines = printed_chars s.char_array }
