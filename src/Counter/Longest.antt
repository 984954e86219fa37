-- ===== src/Counter/Longest.antt =====
-- `longestLine` and `longestWord` of cs537/P1/MADCounter.c.
pub mod Laws
use schoolwork.Common.{
  ℕ, Bool, false, ◌||◌, Option, none, some, List, [], ◌∷◌, map, ltb, ◌==◌, if◌then◌else◌, length,
}
use schoolwork.Common.Bytes.{Bytes, str_eq}
use schoolwork.Counter.Input.{scan_words, fgets_buffers, c_string}
use schoolwork.Counter.Words.{Word, create_word_node, insert_sorted}

-- The removal of a newline at the end of a line. The code reads `buffer[length - 1]`, which for an
-- empty string lies before the buffer: that gives `none`.
unfoldable pub chomp : Bytes → Option Bytes
chomp [] = none
chomp (c ∷ []) = some (if c == 10 then [] else c ∷ [])
chomp (c ∷ d ∷ s) = elim (chomp (d ∷ s)) [ none ↦ none | some t ↦ some (c ∷ t) ]

pub record LineState : Type 0 where
  pub longest_line : Bytes
  pub others : List Word  -- `longestLinesHead`
  pub longest_length : ℕ

unfoldable pub start_lines : LineState
start_lines = record { longest_line = []; others = []; longest_length = 0 }

-- The body of the loop of `longestLine`, for a line without its newline.
unfoldable pub line_step : LineState → Bytes → LineState
unfolding create_word_node insert_sorted
line_step s line =
    if ltb s.longest_length (length line)
    then record { longest_line = line; others = []; longest_length = length line }
    else if length line == s.longest_length
    then record s { others = insert_sorted s.others (create_word_node line 0) }
    else s

unfoldable pub longest_of : LineState → List Bytes → LineState
unfolding line_step
longest_of s [] = s
longest_of s (line ∷ lines) = longest_of (line_step s line) lines

unfoldable pub chomp_all : List Bytes → Option (List Bytes)
unfolding chomp
chomp_all [] = some []
chomp_all (b ∷ bs) = elim (chomp b) [
  | none ↦ none
  | some t ↦ elim (chomp_all bs) [ none ↦ none | some ts ↦ some (t ∷ ts) ]
]

-- `longestLine`: the line printed first, those of the same length, and the length.
unfoldable pub longest_line : Bytes → Option LineState
unfolding chomp_all longest_of start_lines fgets_buffers c_string
longest_line file = elim (chomp_all (map c_string (fgets_buffers file))) [
  | none ↦ none
  | some lines ↦ some (longest_of start_lines lines)
]

pub record LongestWords : Type 0 where
  pub head : List Word  -- `longestWordsHead`
  pub length_so_far : ℕ

unfoldable pub start_longest : LongestWords
start_longest = record { head = []; length_so_far = 0 }

unfoldable pub contains : List Word → Bytes → Bool
contains [] b = false
contains (w ∷ ws) b = str_eq w.contents b || contains ws b

-- The body of the loop of `longestWord`. A word that was read holds no newline.
unfoldable pub longest_word_step : LongestWords → Bytes → LongestWords
unfolding contains create_word_node insert_sorted
longest_word_step s word =
    if contains s.head word
    then s
    else if ltb s.length_so_far (length word)
    then record { head = insert_sorted [] (create_word_node word 0); length_so_far = length word }
    else if length word == s.length_so_far
    then record s { head = insert_sorted s.head (create_word_node word 0) }
    else s

unfoldable pub longest_words : LongestWords → List Bytes → LongestWords
unfolding longest_word_step
longest_words s [] = s
longest_words s (word ∷ words) = longest_words (longest_word_step s word) words

-- `longestWord`
unfoldable pub longest_word : Bytes → LongestWords
unfolding longest_words start_longest scan_words
longest_word file = longest_words start_longest (scan_words file)
