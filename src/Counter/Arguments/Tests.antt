-- ===== src/Counter/Arguments/Tests.antt =====
-- Command lines over one readable file.
use schoolwork.Common.{◌≡◌, refl, true, some, List, [], ◌∷◌, arith}
use schoolwork.Common.Bytes.{Bytes, codes, str_eq}
use schoolwork.Counter.Arguments.{
  count_characters, count_words, report_of, Files, reports, endless, main_command, batch_line,
}
use schoolwork.Counter.Arguments.Agree.{batch_line-main_command}
use schoolwork.Counter.Arguments.Endless.{IsUnknown, IsReport, batch_line_endless}

abbrev files : Files
files = record { read = λ name. some (codes "ab cd"); write = λ name. true }

abbrev words : List Bytes
words = codes "-f" ∷ codes "in" ∷ codes "-c" ∷ codes "-o" ∷ codes "out" ∷ codes "-w" ∷ []

main_words :
    main_command files words
    ≡ reports (codes "ab cd") (some (codes "out")) (count_characters ∷ count_words ∷ [])
unfolding main_command report_of
main_words = refl

batch_line-main_command_example :
    batch_line 7 files words
    ≡ reports (codes "ab cd") (some (codes "out")) (count_characters ∷ count_words ∷ [])
batch_line-main_command_example =
    batch_line-main_command files words 7 (codes "ab cd") (some (codes "out"))
      (count_characters ∷ count_words ∷ []) (omega arith) main_words

characters_flag : IsReport (codes "-c")
unfolding report_of
characters_flag = (count_characters, refl)

not_a_flag : IsUnknown (codes "-x")
unfolding report_of str_eq
not_a_flag = record { no_input_flag = refl; no_output_flag = refl; no_report = refl }

batch_line_endless_example :
    batch_line 1000 files (codes "-c" ∷ codes "-x" ∷ codes "-f" ∷ codes "in" ∷ []) ≡ endless
batch_line_endless_example =
    batch_line_endless 1000 files (codes "-c" ∷ []) (codes "-f" ∷ codes "in" ∷ []) (codes "-x")
      (characters_flag, tt) (omega arith) not_a_flag
