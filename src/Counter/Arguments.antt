-- ===== src/Counter/Arguments.antt =====
-- The command line of cs537/P1/MADCounter.c, `main`, and the lines of a batch file, `batchMode`.
-- An argument is its bytes, and the arguments stand without the name of the program.
pub mod Agree
pub mod Endless
mod Tests
use schoolwork.Common.{
  ℕ, zero, suc, Bool, false, ◌||◌, Option, none, some, List, [], ◌∷◌, ◌++◌, map, ltb, ◌==◌,
  if◌then◌else◌, length,
}
use schoolwork.Common.Bytes.{Bytes, codes, str_eq, tokens}
use schoolwork.Counter.Input.{fgets_buffers, cut_newline, c_string}

-- The functions that a flag stands for.
pub data Report : Type 0 where
  count_characters : Report
  count_words : Report
  count_lines : Report
  find_long_word : Report
  find_long_line : Report

-- The `strcmp` of an argument with the flags of the reports.
unfoldable pub report_of : Bytes → Option Report
unfolding str_eq
report_of a =
    if str_eq a (codes "-c")
    then some count_characters
    else if str_eq a (codes "-w")
    then some count_words
    else if str_eq a (codes "-l")
    then some count_lines
    else if str_eq a (codes "-Lw")
    then some find_long_word
    else if str_eq a (codes "-Ll")
    then some find_long_line
    else none

abbrev pub is_input : Bytes → Bool
is_input a = str_eq a (codes "-f")

abbrev pub is_output : Bytes → Bool
is_output a = str_eq a (codes "-o")

abbrev pub is_batch : Bytes → Bool
is_batch a = str_eq a (codes "-B")

-- `inputFile` and `outputFile`
pub record Options : Type 0 where
  pub input_file : Option Bytes
  pub output_file : Option Bytes

abbrev pub no_options : Options
no_options = record { input_file = none; output_file = none }

-- What the first loop of `main` comes to: the options, the batch file, or a missing file name.
pub data Scanned : Type 0 where
  scanned : Options → Scanned
  batch : Bytes → Scanned
  missing : Scanned

unfoldable pub read_options : Options → List Bytes → Scanned
read_options o [] = scanned o
read_options o (a ∷ []) = if is_input a || (is_batch a || is_output a) then missing else scanned o
read_options o (a ∷ b ∷ rest) =
    let with_input = read_options (record o { input_file = some b }) rest in
    let with_output = read_options (record o { output_file = some b }) rest in
    let next = read_options o (b ∷ rest) in
    if is_input a
    then with_input
    else if is_batch a
    then batch b
    else if is_output a
    then with_output
    else next

abbrev pub max_functions : ℕ
max_functions = 16

-- What the loops over the flags come to: the reports in order, a flag that is not known, or a
-- write behind the array `functions`.
pub data Listed : Type 0 where
  listed : List Report → Listed
  invalid : Listed
  outside : Listed

-- The second loop of `main`, with the `counter` entries of `functions` so far.
unfoldable pub read_reports : List Report → List Bytes → Listed
read_reports rs [] = listed rs
read_reports rs (a ∷ []) = elim (report_of a) [
  | some r ↦ if ltb (length rs) max_functions then listed (rs ++ r ∷ []) else outside
  | none ↦ if is_output a || (is_batch a || is_input a) then listed rs else invalid
]
read_reports rs (a ∷ b ∷ rest) = elim (report_of a) [
  | some r ↦
      if ltb (length rs) max_functions then read_reports (rs ++ r ∷ []) (b ∷ rest) else outside
  | none ↦ if is_output a || (is_batch a || is_input a) then read_reports rs rest else invalid
]

-- The files: the contents of one that can be read, and whether one can be written.
pub record Files : Type 0 where
  pub read : Bytes → Option Bytes
  pub write : Bytes → Bool

-- What the options lead to, up to the reports: an error message, or the contents of the input.
pub data Opened : Type 0 where
  no_input : Opened
  no_output : Opened
  input_unreadable : Opened
  input_empty : Opened
  output_unwritable : Opened
  opened : Bytes → Option Bytes → Opened

abbrev starts_with_dash : Bytes → Bool
starts_with_dash [] = false
starts_with_dash (c ∷ s) = c == b'-'

abbrev bad_output : Option Bytes → Bool
bad_output none = false
bad_output (some name) = starts_with_dash name

abbrev open_output : Files → Bytes → Option Bytes → Opened
open_output fs content none = opened content none
open_output fs content (some name) =
    if fs.write name then opened content (some name) else output_unwritable

abbrev open_input : Files → Option Bytes → Option Bytes → Opened
open_input fs none output = input_unreadable
open_input fs (some content) output =
    if length content == 0 then input_empty else open_output fs content output

-- The checks on the options, which `main` and `batchMode` share.
unfoldable pub open_files : Files → Options → Opened
open_files fs o = elim o.input_file [
  | none ↦ no_input
  | some name ↦
      if starts_with_dash name
      then no_input
      else if bad_output o.output_file
      then no_output
      else open_input fs (fs.read name) o.output_file
]

-- What a command comes to: the reports that are written, on which input and to which file, or what
-- stopped it.
pub data Outcome : Type 0 where
  usage : Outcome
  refused : Opened → Outcome
  in_batch : Bytes → Outcome
  bad_flag : Outcome
  overrun : Outcome
  endless : Outcome
  reports : Bytes → Option Bytes → List Report → Outcome

abbrev pub after_listing : Bytes → Option Bytes → Listed → Outcome
after_listing content output (listed rs) = reports content output rs
after_listing content output invalid = bad_flag
after_listing content output outside = overrun

abbrev pub after_opening : Opened → Listed → Outcome
after_opening (opened content output) l = after_listing content output l
after_opening e l = refused e

-- `main`, up to the run of the reports.
unfoldable pub main_command : Files → List Bytes → Outcome
unfolding read_options read_reports open_files
main_command fs args = if ltb (length args) 2 then usage else elim (read_options no_options args) [
  | missing ↦ usage
  | batch name ↦ in_batch name
  | scanned o ↦ after_opening (open_files fs o) (read_reports [] args)
]

-- The loop of `batchMode` over the tokens of a line, the current one first, `none` where the fuel
-- runs out. A missing file name ends the line, and a flag that is not known is looked at again.
unfoldable pub read_line : ℕ → Options → List Report → List Bytes → Option (Options × Listed)
read_line zero o rs ts = none
read_line (suc fuel) o rs [] = some (o, listed rs)
read_line (suc fuel) o rs (a ∷ ts) =
    if is_input a
    then elim ts [
      | [] ↦ some (o, listed rs)
      | b ∷ rest ↦ read_line fuel (record o { input_file = some b }) rs rest
    ]
    else if is_output a
    then elim ts [
      | [] ↦ some (o, listed rs)
      | b ∷ rest ↦ read_line fuel (record o { output_file = some b }) rs rest
    ]
    else elim (report_of a) [
      | some r ↦
          if ltb (length rs) max_functions
          then read_line fuel o (rs ++ r ∷ []) ts
          else some (o, outside)
      | none ↦ read_line fuel o rs (a ∷ ts)
    ]

-- One line of `batchMode`, up to the run of the reports. Where the array overruns, what follows is
-- not known.
unfoldable pub batch_line : ℕ → Files → List Bytes → Outcome
unfolding read_line open_files
batch_line fuel fs ts = elim (read_line fuel no_options [] ts) [
  | none ↦ endless
  | some (o, outside) ↦ overrun
  | some (o, invalid) ↦ bad_flag
  | some (o, listed rs) ↦ after_opening (open_files fs o) (listed rs)
]

-- `batchMode`: a line is what one `fgets` reads, without its newline.
unfoldable pub batch_mode : ℕ → Files → Bytes → Option (List Outcome)
unfolding batch_line
batch_mode fuel fs file =
    if length file == 0
    then none
    else some (
        map (λ line. batch_line fuel fs (tokens b' ' (c_string (cut_newline line))))
          (fgets_buffers file))
