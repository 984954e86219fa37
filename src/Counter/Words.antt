-- ===== src/Counter/Words.antt =====
-- `wordCounter` and `lineCounter` of cs537/P1/MADCounter.c, over a list kept in `strcmp` order. The
-- counters are ints, given by their 32 bits.
pub mod Order
pub mod Sorted
use schoolwork.Common.{ℕ, Option, none, some, List, [], ◌∷◌, map, if◌then◌else◌, length}
use schoolwork.Common.Bytes.{Bytes, str_eq, str_lt}
use schoolwork.Common.Int.{increment}
use schoolwork.Counter.Input.{scan_words, fgets_buffers, cut_newline}

-- `WORD`, without its links.
pub record Word : Type 0 where
  pub contents : Bytes
  pub num_chars : ℕ
  pub frequency : ℕ
  pub order_appeared : ℕ

unfoldable pub create_word_node : Bytes → ℕ → Word
create_word_node contents order = record {
  contents = contents;
  num_chars = length contents;
  frequency = 1;
  order_appeared = order;
}

unfoldable pub insert_sorted : List Word → Word → List Word
insert_sorted [] w = w ∷ []
insert_sorted (v ∷ vs) w =
    let rest = insert_sorted vs w in if str_lt v.contents w.contents then v ∷ rest else w ∷ v ∷ vs

-- The search for a word that is in the list already: the list with its frequency raised.
unfoldable pub raise_frequency : List Word → Bytes → Option (List Word)
raise_frequency [] buffer = none
raise_frequency (v ∷ vs) buffer =
    let rest = raise_frequency vs buffer in
    if str_eq v.contents buffer
    then some (record v { frequency = increment v.frequency } ∷ vs)
    else elim rest [ none ↦ none | some ws ↦ some (v ∷ ws) ]

pub record WordState : Type 0 where
  pub head : List Word
  pub total : ℕ
  pub unique : ℕ
  pub position : ℕ

unfoldable pub start_words : WordState
start_words = record { head = []; total = 0; unique = 0; position = 0 }

-- The body of the loop of both functions.
unfoldable pub word_step : WordState → Bytes → WordState
unfolding create_word_node insert_sorted raise_frequency
word_step s buffer = elim (raise_frequency s.head buffer) [
  | some head ↦ record {
    head = head;
    total = increment s.total;
    unique = s.unique;
    position = increment s.position;
  }
  | none ↦ record {
    head = insert_sorted s.head (create_word_node buffer s.position);
    total = increment s.total;
    unique = increment s.unique;
    position = increment s.position;
  }
]

unfoldable pub count_words : WordState → List Bytes → WordState
unfolding word_step
count_words s [] = s
count_words s (buffer ∷ buffers) = count_words (word_step s buffer) buffers

-- `wordCounter`: the totals and the list that are printed.
unfoldable pub word_counter : Bytes → WordState
unfolding start_words count_words scan_words
word_counter file = count_words start_words (scan_words file)

-- `lineCounter`
unfoldable pub line_counter : Bytes → WordState
unfolding start_words count_words fgets_buffers cut_newline
line_counter file = count_words start_words (map cut_newline (fgets_buffers file))
