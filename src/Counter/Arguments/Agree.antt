-- ===== src/Counter/Arguments/Agree.antt =====
-- The arguments of `main` and a line of a batch file with the same words.
use schoolwork.Common.{
  ℕ, zero, suc, ◌<◌, ◌≡◌, refl, sym, subst, ◌≢◌, inl, inr, true, false, Option, none, some, List,
  [], ◌∷◌, ◌++◌, arith, ltb, Bool-cases, Option-cases, length,
}
use schoolwork.Common.Bytes.{Bytes, codes, str_eq, str_eq_iff}
use schoolwork.Counter.Arguments.{
  Report, report_of, is_input, is_output, is_batch, Options, no_options, Scanned, scanned, batch,
  missing, read_options, Listed, listed, invalid, outside, read_reports, Files, Opened, open_files,
  reports, usage, in_batch, main_command, read_line, batch_line, max_functions, after_opening,
  after_listing, opened, no_input, no_output, input_unreadable, input_empty, output_unwritable,
}

-- An argument with a file name behind it is no report.
pub is_input-report : (a : Bytes) → is_input a ≡ true → report_of a ≡ none
unfolding report_of str_eq
is_input-report a h = subst (λ x. report_of x ≡ none) (sym ((str_eq_iff a (codes "-f")).0 h)) refl

pub is_output-report : (a : Bytes) → is_output a ≡ true → report_of a ≡ none
unfolding report_of str_eq
is_output-report a h = subst (λ x. report_of x ≡ none) (sym ((str_eq_iff a (codes "-o")).0 h)) refl

is_input-others : (a : Bytes) → is_input a ≡ true → (is_output a ≡ false) × (is_batch a ≡ false)
unfolding str_eq
is_input-others a h =
    subst (λ x. (is_output x ≡ false) × (is_batch x ≡ false))
      (sym ((str_eq_iff a (codes "-f")).0 h)) (refl, refl)

scanned-inj : {o o' : Options} → scanned o ≡ scanned o' → o ≡ o'
scanned-inj h = cc

listed-inj : {rs rs' : List Report} → listed rs ≡ listed rs' → rs ≡ rs'
listed-inj h = cc

missing-ne-scanned : {o : Options} → missing ≢ scanned o
missing-ne-scanned h = cc

batch-ne-scanned : {b : Bytes} {o : Options} → batch b ≢ scanned o
batch-ne-scanned h = cc

invalid-ne-listed : {rs : List Report} → invalid ≢ listed rs
invalid-ne-listed h = cc

outside-ne-listed : {rs : List Report} → outside ≢ listed rs
outside-ne-listed h = cc

-- Where both loops of `main` succeed, the loop of `batchMode` comes to the same.
pub read_line-agrees :
    (args : List Bytes) (fuel : ℕ) (o o' : Options) (rs rs' : List Report)
    → length args < fuel
    → read_options o args ≡ scanned o'
    → read_reports rs args ≡ listed rs'
    → read_line fuel o rs args ≡ some (o', listed rs')
unfolding read_line read_options read_reports
read_line-agrees args zero o o' rs rs' lt h k = absurd (omega arith)
read_line-agrees [] (suc fuel) o o' rs rs' lt h k = rw (scanned-inj h, listed-inj k) refl
read_line-agrees (a ∷ []) (suc zero) o o' rs rs' lt h k = absurd (omega arith)
read_line-agrees (a ∷ []) (suc (suc fuel)) o o' rs rs' lt h k = elim (Bool-cases (is_input a)) [
  | inl input ↦ absurd (missing-ne-scanned (rw input at h))
  | inr not_input ↦ elim (Bool-cases (is_output a)) [
    | inl output ↦ elim (Bool-cases (is_batch a)) [
      | inl batched ↦ absurd (missing-ne-scanned (rw (not_input, batched) at h))
      | inr not_batch ↦ absurd (missing-ne-scanned (rw (not_input, not_batch, output) at h))
    ]
    | inr not_output ↦ elim (Bool-cases (is_batch a)) [
      | inl batched ↦ absurd (missing-ne-scanned (rw (not_input, batched) at h))
      | inr not_batch ↦ elim (Option-cases (report_of a)) [
        | inl unknown ↦ absurd (
            invalid-ne-listed
              (rw (not_output, not_batch, not_input) at (rw (unknown, read_reports) at k)))
        | inr (r, known) ↦ elim (Bool-cases (ltb (length rs) max_functions)) [
          | inr full ↦ absurd (outside-ne-listed (rw full at (rw (known, read_reports) at k)))
          | inl room ↦
              rw (not_input, not_output)
                (rw (known, read_line)
                  (rw room (
                    rw
                      (
                        scanned-inj (rw (not_input, not_batch, not_output) at h),
                        listed-inj (rw room at (rw (known, read_reports) at k)),
                      )
                      refl)))
        ]
      ]
    ]
  ]
]
read_line-agrees (a ∷ b ∷ rest) (suc fuel) o o' rs rs' lt h k = elim (Bool-cases (is_input a)) [
  | inl input ↦ rw input (
      read_line-agrees rest fuel (record o { input_file = some b }) o' rs rs' (omega arith)
        (rw input at h)
        (rw (input, (is_input-others a input).0, (is_input-others a input).1) at
          (rw (is_input-report a input, read_reports) at k)))
  | inr not_input ↦ elim (Bool-cases (is_batch a)) [
    | inl batched ↦ absurd (batch-ne-scanned (rw (not_input, batched) at h))
    | inr not_batch ↦ elim (Bool-cases (is_output a)) [
      | inl output ↦
          rw (not_input, output)
            (read_line-agrees rest fuel (record o { output_file = some b }) o' rs rs' (omega arith)
              (rw (not_input, not_batch, output) at h)
              (rw output at (rw (is_output-report a output, read_reports) at k)))
      | inr not_output ↦ elim (Option-cases (report_of a)) [
        | inl unknown ↦ absurd (
            invalid-ne-listed
              (rw (not_output, not_batch, not_input) at (rw (unknown, read_reports) at k)))
        | inr (r, known) ↦ elim (Bool-cases (ltb (length rs) max_functions)) [
          | inr full ↦ absurd (outside-ne-listed (rw full at (rw (known, read_reports) at k)))
          | inl room ↦
              rw (not_input, not_output)
                (rw (known, read_line)
                  (rw room (
                    read_line-agrees (b ∷ rest) fuel o o' (rs ++ r ∷ []) rs' (omega arith)
                      (rw (not_input, not_batch, not_output) at h)
                      (rw room at (rw (known, read_reports) at k)))))
        ]
      ]
    ]
  ]
]

shut_listing :
    (content : Bytes) (output : Option Bytes) (l : Listed) (c : Bytes) (out : Option Bytes)
    (rs : List Report)
    → after_listing content output l ≡ reports c out rs
    → l ≡ listed rs
shut_listing content output (listed rs) c out rs' h = ground arith
shut_listing content output invalid c out rs h = cc
shut_listing content output outside c out rs h = cc

after_opening-reports :
    (e : Opened) (l : Listed) (c : Bytes) (out : Option Bytes) (rs : List Report)
    → after_opening e l ≡ reports c out rs
    → l ≡ listed rs
after_opening-reports (opened content output) l c out rs h =
    shut_listing content output l c out rs h
after_opening-reports no_input l c out rs h = cc
after_opening-reports no_output l c out rs h = cc
after_opening-reports input_unreadable l c out rs h = cc
after_opening-reports input_empty l c out rs h = cc
after_opening-reports output_unwritable l c out rs h = cc

-- Arguments on which `main` gets to run its reports, as the words of a line of a batch file: with
-- fuel for one round per word, `batchMode` runs the same reports on the same input to the same
-- output.
pub batch_line-main_command :
    (fs : Files) (args : List Bytes) (fuel : ℕ) (content : Bytes) (output : Option Bytes)
    (rs : List Report)
    → length args < fuel
    → main_command fs args ≡ reports content output rs
    → batch_line fuel fs args ≡ reports content output rs
unfolding batch_line main_command
batch_line-main_command fs args fuel content output rs lt h =
    elim (Bool-cases (ltb (length args) 2)) [
      | inl few ↦ absurd (usage-ne (rw few at h))
      | inr many ↦ by_options (read_options no_options args) refl (rw many at h)
    ]
  where
    usage-ne : usage ≢ reports content output rs
    usage-ne e = cc

    by_options :
        (s : Scanned)
        → read_options no_options args ≡ s
        → (elim s [
          | missing ↦ usage
          | batch name ↦ in_batch name
          | scanned o ↦ after_opening (open_files fs o) (read_reports [] args)
        ])
          ≡ reports content output rs
        → batch_line fuel fs args ≡ reports content output rs
    by_options missing e k = absurd (usage-ne k)
    by_options (batch name) e k = cc
    by_options (scanned o) e k =
        let same =
          after_opening-reports (open_files fs o) (read_reports [] args) content output rs k in
        rw (read_line-agrees args fuel no_options o [] rs lt e same, batch_line) (rw same at k)
