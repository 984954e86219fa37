-- ===== src/Counter/Tests.antt =====
-- The reports at a short file.
use schoolwork.Common.{◌≡◌, some, List, [], ◌∷◌, arith, get_or}
use schoolwork.Common.Bytes.{Bytes, codes, str_eq}
use schoolwork.Counter.Chars.{no_char, start_chars, count_chars}
use schoolwork.Counter.Chars.Laws.{char_array_lem}
use schoolwork.Counter.Words.{start_words, count_words}
use schoolwork.Counter.Words.Order.{find_word}
use schoolwork.Counter.Words.Sorted.{find-count_words_start}

abbrev text : Bytes
text = codes "to be or not to be"

abbrev words : List Bytes
words = codes "to" ∷ codes "be" ∷ codes "to" ∷ []

char_array_lem_example :
    get_or (count_chars start_chars text).char_array b'o' no_char
    ≡ record { ascii_value = b'o'; character = b'o'; count = 4; initial_position = 1 }
char_array_lem_example = char_array_lem text b'o' (omega arith) (omega arith) (omega arith)

find-count_words_start_example :
    find_word (count_words start_words words).head (codes "be")
    ≡ some (record { contents = codes "be"; num_chars = 2; frequency = 1; order_appeared = 1 })
unfolding str_eq
find-count_words_start_example = find-count_words_start words (codes "be") (omega arith)
