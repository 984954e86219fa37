-- ===== src/Shell/Execute/Termination.antt =====
-- `wsh_execute` always ends, although a stored command can execute stored commands: each
-- execution cuts the stored command down to its first word, and one word starts no other.
use schoolwork.Common.{
  ℕ, zero, suc, ◌+◌, ◌≤◌, ◌<◌, ◌≡◌, ◌≢◌, inl, inr, some, List, [], ◌∷◌, arith, ltb, if◌then◌else◌,
  Option-cases, length, get_elem?, get_or, set, Option,
}
use schoolwork.Common.Bytes.{Bytes, tokens_from}
use schoolwork.Common.Int.{ℤ}
use schoolwork.Shell.Words.{wsh_split_line, cut_word, cut_first_token, strtol_int, space}
use schoolwork.Shell.History.{cut_command, history_position}
use native.Mathlib.Decide.{dec_lt}
use schoolwork.Shell.Variables.{expand_arguments, origins}
use schoolwork.Shell.Variables.Laws.{length-expand_arguments}
use schoolwork.Shell.Execute.{
  ShellState, Outcome, out_of_fuel, wsh_history, call_command, run_arguments, wsh_execute,
}

-- How many stored commands have more than one word.
unfoldable pub long_commands : List Bytes → ℕ
long_commands [] = 0
long_commands (c ∷ cs) =
    if ltb 1 (length (wsh_split_line c)) then long_commands cs + 1 else long_commands cs

length-cut_word : (cur s : Bytes) → length (tokens_from space cur (cut_word s)) ≤ 1
unfolding tokens_from cut_word
length-cut_word [] [] = omega arith
length-cut_word (d ∷ cur) [] = omega arith
length-cut_word [] (c ∷ s) = ground (arith, length-cut_word (c ∷ []) s)
length-cut_word (d ∷ cur) (c ∷ s) = ground (arith, length-cut_word (c ∷ d ∷ cur) s)

pub length-cut_first_token : (c : Bytes) → length (wsh_split_line (cut_first_token c)) ≤ 1
unfolding tokens_from cut_first_token wsh_split_line
length-cut_first_token [] = omega arith
length-cut_first_token (c ∷ s) =
    ground (arith, length-cut_first_token s, length-cut_word (c ∷ []) s)

long_commands-cut :
    (cs : List Bytes) (n : ℕ) (c : Bytes)
    → get_elem? cs n ≡ some c
    → 1 < length (wsh_split_line c)
    → long_commands (set cs n (cut_first_token (get_or cs n []))) < long_commands cs
unfolding long_commands
long_commands-cut [] n c e l = absurd (cc)
long_commands-cut (d ∷ cs) zero c e l = ground (arith, length-cut_first_token d)
long_commands-cut (d ∷ cs) (suc n) c e l = ground (arith, long_commands-cut cs n c e l)

module _ (launch : List Bytes → ℤ) (fork_pipes : List (List Bytes) → ℤ) where
  run_one :
      (execute : ShellState → List Bytes → Outcome) (s : ShellState) (from : List (Option Bytes))
      (es : List Bytes)
      → length es ≤ 1
      → run_arguments launch fork_pipes execute s from es ≢ out_of_fuel
  unfolding run_arguments call_command wsh_history
  run_one execute s from [] h = λ e. cc
  run_one execute s from (c ∷ []) h = ground arith
  run_one execute s from (c ∷ d ∷ es) h = absurd (omega arith)

  run_history :
      (execute : ShellState → List Bytes → Outcome) (s : ShellState) (from : List (Option Bytes))
      (es : List Bytes)
      → ((n : ℕ) (c : Bytes)
          → get_elem? s.history.commands n ≡ some c
          → execute (record s { history = cut_command s.history n }) (wsh_split_line c)
            ≢ out_of_fuel)
      → run_arguments launch fork_pipes execute s from es ≢ out_of_fuel
  unfolding run_arguments call_command wsh_history
  run_history execute s from [] h = λ e. cc
  run_history execute s from (c ∷ []) h = run_one execute s from (c ∷ []) (omega arith)
  run_history execute s from (c ∷ d ∷ es) h =
      elim (Option-cases (history_position s.history (strtol_int d))) [
        | inl e ↦ ground (arith, e)
        | inr (n, e) ↦ elim (Option-cases (get_elem? s.history.commands n)) [
          | inl f ↦ ground (arith, e, f)
          | inr (k, f) ↦ ground (arith, e, f, h n k)
        ]
      ]

  one_word :
      (fuel : ℕ) (s : ShellState) (args : List Bytes)
      → 0 < fuel
      → length args ≤ 1
      → wsh_execute launch fork_pipes fuel s args ≢ out_of_fuel
  unfolding wsh_execute
  one_word zero s args h l = absurd (omega arith)
  one_word (suc fuel) s args h l =
      run_one (wsh_execute launch fork_pipes fuel) s (origins s.env s.vars args)
        (expand_arguments s.env s.vars args)
        (omega (arith, length-expand_arguments s.env s.vars args))

  -- With more fuel than one more than the number of stored commands of several words, the execution
  -- of any command line ends: it does not run out of fuel, whatever the programs and pipelines
  -- return.
  pub wsh_execute-ne-out_of_fuel :
      (fuel : ℕ) (s : ShellState) (args : List Bytes)
      → long_commands s.history.commands + 1 < fuel
      → wsh_execute launch fork_pipes fuel s args ≢ out_of_fuel
  unfolding wsh_execute
  wsh_execute-ne-out_of_fuel zero s args h = absurd (omega arith)
  wsh_execute-ne-out_of_fuel (suc fuel) s args h =
      run_history (wsh_execute launch fork_pipes fuel) s (origins s.env s.vars args)
        (expand_arguments s.env s.vars args)
        λ n c e. elim (dec_lt 1 (length (wsh_split_line c))) [
          | yes long ↦
              wsh_execute-ne-out_of_fuel fuel (record s { history = cut_command s.history n })
                (wsh_split_line c) (omega (arith, fewer n c e long))
          | no short ↦
              one_word fuel (record s { history = cut_command s.history n }) (wsh_split_line c)
                (omega arith) (omega arith)
        ]
    where
      fewer :
          (n : ℕ) (c : Bytes)
          → get_elem? s.history.commands n ≡ some c
          → 1 < length (wsh_split_line c)
          → long_commands (cut_command s.history n).commands < long_commands s.history.commands
      fewer n c e long = unfold cut_command in long_commands-cut s.history.commands n c e long
