-- ===== src/Counter/Arguments/Endless.antt =====
-- Lines of a batch file at which `batchMode` never gets past a word.
use schoolwork.Common.{
  ℕ, zero, suc, ◌+◌, ◌≤◌, ◌<◌, ◌≡◌, refl, sym, ◌∙◌, ◌≢◌, inl, inr, false, none, some, List, [], ◌∷◌,
  ◌++◌, arith, ltb, ltb→lt, lt→ltb, Bool-cases, length, length-append, All,
}
use schoolwork.Common.Bytes.{Bytes}
use schoolwork.Counter.Arguments.{
  Report, report_of, is_input, is_output, Options, no_options, outside, Files, endless, overrun,
  read_line, batch_line, max_functions,
}
use schoolwork.Counter.Arguments.Agree.{is_input-report, is_output-report}

-- A word that is no flag.
pub record IsUnknown (a : Bytes) : Type 0 where
  pub no_input_flag : is_input a ≡ false
  pub no_output_flag : is_output a ≡ false
  pub no_report : report_of a ≡ none

-- A word that is the flag of a report.
abbrev pub IsReport : Bytes → Type 0
IsReport a = (r : Report) × (report_of a ≡ some r)

read_line-stuck :
    (fuel : ℕ) (o : Options) (rs : List Report) (a : Bytes) (ts : List Bytes)
    → IsUnknown a
    → read_line fuel o rs (a ∷ ts) ≡ none
unfolding read_line
read_line-stuck zero o rs a ts h = refl
read_line-stuck (suc fuel) o rs a ts h =
    rw (h.no_input_flag, h.no_output_flag)
      (rw (h.no_report, read_line) (read_line-stuck fuel o rs a ts h))

IsReport-no_file : (a : Bytes) → IsReport a → (is_input a ≡ false) × (is_output a ≡ false)
IsReport-no_file a (r, known) = (
  elim (Bool-cases (is_input a)) [
    | inr h ↦ h
    | inl h ↦ absurd (some-ne r (sym known ∙ is_input-report a h))
  ],
  elim (Bool-cases (is_output a)) [
    | inr h ↦ h
    | inl h ↦ absurd (some-ne r (sym known ∙ is_output-report a h))
  ],
)
  where
    some-ne : (r : Report) → some r ≢ none
    some-ne r e = cc

read_line-reports :
    (pre ts : List Bytes) (fuel : ℕ) (o : Options) (rs : List Report) (a : Bytes)
    → All IsReport pre
    → length rs + length pre ≤ max_functions
    → IsUnknown a
    → read_line fuel o rs (pre ++ a ∷ ts) ≡ none
unfolding read_line
read_line-reports [] ts fuel o rs a h few unknown = read_line-stuck fuel o rs a ts unknown
read_line-reports (b ∷ pre) ts zero o rs a h few unknown = refl
read_line-reports (b ∷ pre) ts (suc fuel) o rs a h few unknown =
    let (r, known) = h.0 in
    let (i, u) = IsReport-no_file b h.0 in
    rw (i, u)
      (rw (known, read_line)
        (rw (lt→ltb (length rs) max_functions (omega arith)) (
          read_line-reports pre ts fuel o (rs ++ r ∷ []) a h.1
            (omega (arith, length-append rs (r ∷ []))) unknown)))

-- A line of at most sixteen flags of reports and then a word that is no flag: whatever the fuel,
-- `batchMode` does not come to the end of the line.
pub batch_line_endless :
    (fuel : ℕ) (fs : Files) (pre ts : List Bytes) (a : Bytes)
    → All IsReport pre
    → length pre ≤ max_functions
    → IsUnknown a
    → batch_line fuel fs (pre ++ a ∷ ts) ≡ endless
unfolding batch_line
batch_line_endless fuel fs pre ts a h few unknown =
    rw (read_line-reports pre ts fuel no_options [] a h (omega arith) unknown, batch_line) refl

read_line_overrun :
    (pre ts : List Bytes) (fuel : ℕ) (o : Options) (rs : List Report)
    → All IsReport pre
    → length rs ≤ max_functions
    → max_functions < length rs + length pre
    → length pre < fuel
    → read_line fuel o rs (pre ++ ts) ≡ some (o, outside)
unfolding read_line
read_line_overrun [] ts fuel o rs h at_most many enough = absurd (omega arith)
read_line_overrun (b ∷ pre) ts zero o rs h at_most many enough = absurd (omega arith)
read_line_overrun (b ∷ pre) ts (suc fuel) o rs h at_most many enough =
    let (r, known) = h.0 in
    let (i, u) = IsReport-no_file b h.0 in
    rw (i, u)
      (rw (known, read_line)
        (elim (Bool-cases (ltb (length rs) max_functions)) [
          | inr full ↦ rw full refl
          | inl room ↦ rw room (
              read_line_overrun pre ts fuel o (rs ++ r ∷ []) h.1
                (omega (arith, length-append rs (r ∷ []), ltb→lt (length rs) max_functions room))
                (omega (arith, length-append rs (r ∷ []))) (omega arith))
        ]))

-- A line that starts with more than sixteen flags of reports, whatever follows: `batchMode` writes
-- behind its array of functions.
pub batch_line_overruns :
    (fuel : ℕ) (fs : Files) (pre ts : List Bytes)
    → All IsReport pre
    → max_functions < length pre
    → length pre < fuel
    → batch_line fuel fs (pre ++ ts) ≡ overrun
unfolding batch_line
batch_line_overruns fuel fs pre ts h many enough =
    rw
      (read_line_overrun pre ts fuel no_options [] h (omega arith) (omega arith) enough, batch_line)
      refl
