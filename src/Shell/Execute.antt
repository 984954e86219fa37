-- ===== src/Shell/Execute.antt =====
-- `wsh_execute`, the builtins that it calls, and `wsh_loop` of cs537/P3/wsh.c. The processes that
-- it starts are parameters: `launch` is what `wsh_launch` returns in the parent for a command, and
-- `fork_pipes` what that function returns for a pipeline.
pub mod Termination
pub mod Stored
mod Tests
use schoolwork.Common.{
  ℕ, zero, suc, Bool, false, ◌||◌, none, some, List, [], ◌∷◌, ◌==◌, if◌then◌else◌, get_elem?,
  get_or, Option,
}
use schoolwork.Common.Bytes.{Bytes, str_eq, codes}
use schoolwork.Common.Int.{ℤ, pos, negsuc, eq_ℤ}
use schoolwork.Shell.Words.{wsh_split_line, num_pipes, split_commands, strtol_int, pipe_word}
use schoolwork.Shell.History.{
  HistoryList, add_command_to_history, set_history_size, history_position, cut_command,
}
use schoolwork.Shell.Variables.{
  Variables, Environment, wsh_local, wsh_export, expand_arguments, origins, cut_origin, frees_own,
}

pub record ShellState : Type 0 where
  pub history : HistoryList
  pub vars : Variables
  pub env : Environment

pub data Outcome : Type 0 where
  returned : (status : ℤ) → ShellState → Outcome
  exited : Outcome  -- the shell ends
  faulted : Outcome  -- a null pointer is followed
  freed : Outcome  -- a string is read that was freed: what happens is not defined
  out_of_fuel : Outcome

abbrev pub no_command : ℤ
no_command = pos 10

abbrev pub child_failed : ℤ
child_failed = pos 99999999

abbrev pub builtin_str : List Bytes
builtin_str =
    codes "cd" ∷ codes "export" ∷ codes "local" ∷ codes "vars" ∷ codes "history" ∷ codes "exit" ∷ []

is_one_of : List Bytes → Bytes → Bool
is_one_of [] a = false
is_one_of (b ∷ bs) a = str_eq a b || is_one_of bs a

unfoldable pub is_builtin : Bytes → Bool
unfolding is_one_of
is_builtin a = is_one_of builtin_str a

-- `wsh_history`. The recursive call executes a stored command.
unfoldable pub wsh_history : (ShellState → List Bytes → Outcome) → ShellState → List Bytes → Outcome
wsh_history execute s args = elim (get_elem? args 1) [
  | none ↦ returned (negsuc 0) s
  | some arg ↦
      if str_eq arg (codes "set")
      then elim (get_elem? args 2) [
        | none ↦ faulted
        | some size ↦
            returned (negsuc 0)
              (record s { history = set_history_size s.history (strtol_int size) })
      ]
      else elim (history_position s.history (strtol_int arg)) [
        | none ↦ returned (negsuc 0) s
        | some n ↦ elim (get_elem? s.history.commands n) [
          | none ↦ faulted
          | some command ↦
              elim (execute (record s { history = cut_command s.history n })
                (wsh_split_line command)) [
                  | returned status s' ↦ returned (negsuc 0) s'
                  | other ↦ other
                ]
        ]
      ]
]

module _ (launch : List Bytes → ℤ) (fork_pipes : List (List Bytes) → ℤ) where
  -- The call of one command, a builtin or a program. `from` has for each argument the
  -- variable whose string it is.
  unfoldable pub call_command :
      (ShellState → List Bytes → Outcome)
      → ShellState
      → List (Option Bytes)
      → Bytes
      → List Bytes
      → Outcome
  unfolding wsh_history
  call_command execute s from command rest =
      if str_eq command (codes "cd")
      then returned (pos 1) s
      else if str_eq command (codes "export")
      then (let (env, vars) = cut_origin s.env s.vars (get_or from 1 none) (get_elem? rest 0) in
          returned (pos 1) (record s { env = wsh_export env (get_elem? rest 0); vars = vars }))
      else if str_eq command (codes "local")
      then (let (env, vars) = cut_origin s.env s.vars (get_or from 1 none) (get_elem? rest 0) in
          if frees_own s.env (get_or from 1 none) (get_elem? rest 0)
          then freed
          else returned (pos 1) (record s { env = env; vars = wsh_local vars (get_elem? rest 0) }))
      else if str_eq command (codes "vars")
      then returned (pos 1) s
      else if str_eq command (codes "history")
      then wsh_history execute s (command ∷ rest)
      else if str_eq command (codes "exit")
      then exited
      else returned (launch (command ∷ rest)) s

  -- What follows the expansion.
  unfoldable pub run_arguments :
      (ShellState → List Bytes → Outcome) → ShellState → List (Option Bytes) → List Bytes → Outcome
  unfolding call_command
  run_arguments execute s from [] = returned (pos 1) s
  run_arguments execute s from (command ∷ rest) =
      if num_pipes (command ∷ rest) == 0
      then call_command execute s from command rest
      else returned (fork_pipes (split_commands (command ∷ rest))) s

  -- `wsh_execute`; the fuel bounds the nested executions from the history.
  unfoldable pub wsh_execute : ℕ → ShellState → List Bytes → Outcome
  unfolding run_arguments
  wsh_execute zero s args = out_of_fuel
  wsh_execute (suc fuel) s args =
      run_arguments (wsh_execute fuel) s (origins s.env s.vars args)
        (expand_arguments s.env s.vars args)

  -- The line goes to the history unless a builtin or no program ran.
  unfoldable pub record_line : ℤ → ShellState → Bytes → Bytes → Outcome
  record_line status s command line =
      if is_builtin command
      then returned status s
      else elim (add_command_to_history s.history line) [
        | none ↦ faulted
        | some h ↦ returned status (record s { history = h })
      ]

  unfoldable pub after_execute : Bytes → List Bytes → Outcome → Outcome
  unfolding record_line
  after_execute line [] (returned status s) = returned (pos 1) s
  after_execute line (command ∷ rest) (returned status s) =
      if str_eq command pipe_word
      then returned (pos 1) s
      else if eq_ℤ status child_failed
      then exited
      else if eq_ℤ status no_command
      then returned status s
      else record_line status s command line
  after_execute line args other = other

  -- One round of `wsh_loop`, for a line that `wsh_read_line` returned.
  unfoldable pub wsh_round : ℕ → ShellState → Bytes → Outcome
  unfolding wsh_execute after_execute
  wsh_round fuel s line = elim (wsh_split_line line) [
    | [] ↦ returned (pos 1) s
    | command ∷ rest ↦
        if str_eq command (codes "exit")
        then exited
        else after_execute line (expand_arguments s.env s.vars (command ∷ rest))
            (wsh_execute fuel s (command ∷ rest))
  ]
