-- ===== src/Shell/Loop/Tests.antt =====
-- Runs of the whole shell.
use schoolwork.Common.{◌≡◌, refl, none, some, List}
use schoolwork.Common.Bytes.{Bytes, codes, str_eq}
use schoolwork.Common.Int.{ℤ, pos}
use schoolwork.Shell.Variables.{Environment, expand_arguments}
use schoolwork.Shell.Words.{wsh_split_line, num_pipes, strtol_int, cut_first_token}
use schoolwork.Shell.History.{init_history_list, add_command_to_history, cut_command}
use schoolwork.Shell.Execute.{wsh_round, is_builtin, exited}
use schoolwork.Shell.Loop.{wsh_read_line, initial, wsh_loop, main_result, wsh_main}

abbrev launch : List Bytes → ℤ
launch args = pos 1

abbrev fork_pipes : List (List Bytes) → ℤ
fork_pipes commands = pos 1

abbrev no_environment : Environment
no_environment name = none

-- A program, and the command that executes it again, twice.
abbrev script : Bytes
script = codes "ls -l\nhistory 1\nhistory 1\n"

two_lines : wsh_read_line (codes "ls -l\npwd") ≡ some (codes "ls -l", codes "pwd")
unfolding wsh_read_line
two_lines = refl

at_the_end : wsh_main launch fork_pipes 40 40 1 no_environment script none ≡ exited
unfolding wsh_main main_result wsh_loop wsh_round wsh_split_line str_eq expand_arguments num_pipes
    is_builtin add_command_to_history initial init_history_list strtol_int cut_command
    cut_first_token
at_the_end = refl
