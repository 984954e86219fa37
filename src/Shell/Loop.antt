-- ===== src/Shell/Loop.antt =====
-- `wsh_read_line`, `wsh_loop` and `main` of cs537/P3/wsh.c on the bytes of an input.
pub mod Growth
pub mod Ends
mod Tests
use schoolwork.Common.{
  ℕ, zero, suc, ◌+◌, ◌-◌, ◌*◌, ◌/◌, ◌%◌, ◌^◌, ◌≤◌, ◌<◌, bit_and, bit_or, min, ◌≡◌, refl, sym, ap,
  ◌∙◌, subst, fun_ext, ◌≢◌, ◌↔◌, ◌⊎◌, inl, inr, Bool, true, false, ◌&&◌, ◌||◌, not, Option, none,
  some, List, [], ◌∷◌, ◌++◌, map, append-nil, append_assoc, arith, ltb, leb, ◌==◌, if◌then◌else◌,
  ltb→lt, lt→ltb, leb→le, ==_iff, tests, Bool-cases, Option-cases, length, get_elem?, get_or, set,
  take, drop, replicate, length-append, length-set, length-drop, length-replicate, get_or-set_self,
  get_or-set_ne, All,
}
use schoolwork.Common.Bytes.{Bytes}
use schoolwork.Common.Int.{ℤ, pos, eq_ℤ}
use schoolwork.Shell.History.{init_history_list}
use schoolwork.Shell.Variables.{Environment}
use schoolwork.Shell.Execute.{ShellState, Outcome, returned, exited, out_of_fuel, wsh_round}

abbrev newline : ℕ
newline = b'\n'

-- The string in the buffer of `getline`, up to its first newline or NUL byte.
pub line_text : Bytes → Bytes
line_text [] = []
line_text (c ∷ s) = let rest = line_text s in if c == newline || c == 0 then [] else c ∷ rest

-- What `getline` leaves for the next call.
pub after_line : Bytes → Bytes
after_line [] = []
after_line (c ∷ s) = let rest = after_line s in if c == newline then s else rest

-- `wsh_read_line`: the line and the rest of the input; `none` at its end.
pub wsh_read_line : Bytes → Option (Bytes × Bytes)
unfolding line_text after_line
wsh_read_line [] = none
wsh_read_line (c ∷ s) = some (line_text (c ∷ s), after_line (c ∷ s))

-- The state in which the shell starts.
pub initial : Environment → ShellState
initial env = record { history = init_history_list 5; vars = []; env = env }

module _ (launch : List Bytes → ℤ) (fork_pipes : List (List Bytes) → ℤ) where
  -- `wsh_loop`; the first number bounds the rounds, the second the nested executions in each.
  pub wsh_loop : ℕ → ℕ → ShellState → Bytes → Outcome
  unfolding wsh_read_line
  wsh_loop zero fuel s input = out_of_fuel
  wsh_loop (suc rounds) fuel s input = elim (wsh_read_line input) [
    | none ↦ exited
    | some (line, rest) ↦ elim (wsh_round launch fork_pipes fuel s line) [
      | returned status s' ↦
          let again = wsh_loop rounds fuel s' rest in
          if eq_ℤ status (pos 0) then returned status s' else again
      | other ↦ other
    ]
  ]

  -- The value of `main` after the loop.
  pub main_result : Outcome → Outcome
  main_result (returned status s) = returned (pos 0) s
  main_result other = other

  -- `main` with `argc` arguments, the program's name among them: the loop over the standard input,
  -- or over the file that the argument names, if it can be opened.
  pub wsh_main : ℕ → ℕ → ℕ → Environment → Bytes → Option Bytes → Outcome
  wsh_main rounds fuel argc env stdin file =
      if argc == 1
      then main_result (wsh_loop rounds fuel (initial env) stdin)
      else if argc == 2
      then elim file [
        | none ↦ returned (pos 1) (initial env)
        | some input ↦ main_result (wsh_loop rounds fuel (initial env) input)
      ]
      else returned (pos 0) (initial env)
