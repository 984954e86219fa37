-- ===== src/Shell/Execute/Tests.antt =====
-- The execution of a stored command.
use schoolwork.Common.{◌≡◌, refl, none, List, [], ◌∷◌, get_or}
use schoolwork.Common.Bytes.{Bytes, codes, str_eq}
use schoolwork.Common.Int.{ℤ, pos, negsuc}
use schoolwork.Shell.Words.{wsh_split_line, strtol_int, num_pipes}
use schoolwork.Shell.Variables.{expand_arguments}
use schoolwork.Shell.Execute.{is_builtin, ShellState, returned, wsh_execute}
use schoolwork.Shell.Execute.Stored.{history_cuts_command}

abbrev launch : List Bytes → ℤ
launch args = pos 1

abbrev fork_pipes : List (List Bytes) → ℤ
fork_pipes commands = pos 1

abbrev stored_ls : ShellState
stored_ls = record {
  history = record { commands = codes "ls -l" ∷ []; count = 1; max_count = pos 5 };
  vars = [];
  env = λ name. none;
}

abbrev history_1 : List Bytes
history_1 = codes "history" ∷ codes "1" ∷ []

history_cuts_command_example :
    (s : ShellState) × (wsh_execute launch fork_pipes 2 stored_ls history_1 ≡ returned (negsuc 0) s)
    × (wsh_split_line (get_or s.history.commands 0 []) ≡ codes "ls" ∷ [])
unfolding strtol_int str_eq wsh_split_line expand_arguments is_builtin num_pipes
history_cuts_command_example =
    history_cuts_command launch fork_pipes 0 stored_ls (codes "1") (codes "ls -l") (codes "ls")
      (codes "-l" ∷ []) 0 refl refl refl refl refl refl refl refl refl
