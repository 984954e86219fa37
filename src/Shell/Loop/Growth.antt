-- ===== src/Shell/Loop/Growth.antt =====
-- How many commands of several words the history of cs537/P3/wsh.c holds: only a round of
-- `wsh_loop` can add one.
use schoolwork.Common.{
  ℕ, zero, suc, ◌+◌, ◌≤◌, ◌≡◌, refl, ◌⊎◌, inl, inr, some, List, [], ◌∷◌, ◌++◌, arith, Bool-cases,
  Option-cases, length, get_elem?, get_or, set, drop, Option,
}
use schoolwork.Common.Bytes.{Bytes, str_eq, codes}
use schoolwork.Common.Int.{ℤ, pos, negsuc, unsigned, ltb_ℤ, ◌-ℤ◌}
use schoolwork.Shell.Words.{wsh_split_line, cut_first_token, strtol_int}
use schoolwork.Shell.History.{
  HistoryList, append_command, remove_oldest, add_command_to_history, remove_nodes,
  set_history_size, cut_command, history_position,
}
use schoolwork.Shell.Variables.{expand_arguments, origins}
use schoolwork.Shell.Execute.{
  ShellState, Outcome, returned, exited, faulted, freed, out_of_fuel, wsh_history, call_command,
  run_arguments, wsh_execute, record_line, after_execute,
}
use schoolwork.Shell.Execute.Termination.{long_commands, length-cut_first_token}
use schoolwork.Shell.Loop.{after_line}

long_commands-set :
    (cs : List Bytes) (n : ℕ)
    → long_commands (set cs n (cut_first_token (get_or cs n []))) ≤ long_commands cs
unfolding long_commands
long_commands-set [] n = omega arith
long_commands-set (d ∷ cs) zero = ground (arith, length-cut_first_token d)
long_commands-set (d ∷ cs) (suc n) = ground (arith, long_commands-set cs n)

long_commands-drop : (n : ℕ) (cs : List Bytes) → long_commands (drop n cs) ≤ long_commands cs
unfolding long_commands
long_commands-drop zero cs = omega arith
long_commands-drop (suc n) [] = omega arith
long_commands-drop (suc n) (c ∷ cs) = ground (arith, long_commands-drop n cs)

long_commands-append :
    (cs : List Bytes) (c : Bytes) → long_commands (cs ++ (c ∷ [])) ≤ long_commands cs + 1
unfolding long_commands
long_commands-append [] c = ground arith
long_commands-append (d ∷ cs) c = ground (arith, long_commands-append cs c)

pub List-cases {ℓ} :
    {A : Type ℓ} (xs : List A) → (xs ≡ []) ⊎ ((x : A) × (ys : List A) × (xs ≡ x ∷ ys))
List-cases [] = inl refl
List-cases (x ∷ ys) = inr (x, ys, refl)

abbrev pub stored : ShellState → ℕ
stored s = long_commands s.history.commands

-- Where the shell goes on, at most `n` commands of several words are stored.
abbrev pub Within : ℕ → Outcome → Type 0
Within n (returned status s) = stored s ≤ n
Within n exited = Unit
Within n faulted = Unit
Within n freed = Unit
Within n out_of_fuel = Unit

Within-mono : (n k : ℕ) (o : Outcome) → n ≤ k → Within n o → Within k o
Within-mono n k (returned status s) h w = omega arith
Within-mono n k exited h w = tt
Within-mono n k faulted h w = tt
Within-mono n k freed h w = tt
Within-mono n k out_of_fuel h w = tt

-- The value -1 in place of the status.
Within-negative :
    (n : ℕ) (o : Outcome)
    → Within n o
    → Within n (elim o [ returned status s ↦ returned (negsuc 0) s | other ↦ other ])
Within-negative n (returned status s) w = w
Within-negative n exited w = tt
Within-negative n faulted w = tt
Within-negative n freed w = tt
Within-negative n out_of_fuel w = tt

cut_command-le :
    (h : HistoryList) (n : ℕ) → long_commands (cut_command h n).commands ≤ long_commands h.commands
unfolding cut_command
cut_command-le h n = long_commands-set h.commands n

set_history_size-le :
    (h : HistoryList) (n : ℤ)
    → long_commands (set_history_size h n).commands ≤ long_commands h.commands
unfolding set_history_size remove_nodes
set_history_size-le h n =
    ground (arith, long_commands-drop (unsigned 64 (pos h.count -ℤ n)) h.commands)

remove_oldest-le :
    (h h' : HistoryList)
    → remove_oldest h ≡ some h'
    → long_commands h'.commands ≤ long_commands h.commands
unfolding remove_oldest long_commands
remove_oldest-le h h' e = ground arith

append_command-le :
    (h h' : HistoryList) (c : Bytes)
    → append_command h c ≡ some h'
    → long_commands h'.commands ≤ long_commands h.commands + 1
unfolding append_command
append_command-le h h' c e =
    let grown : HistoryList = record h { commands = h.commands ++ (c ∷ []); count = h.count + 1 } in
    let longer = long_commands-append h.commands c in
    elim (Bool-cases (ltb_ℤ h.max_count (pos (h.count + 1)))) [
      | inl over ↦ omega (arith, remove_oldest-le grown h' (rw over at e), longer)
      | inr fits ↦
          let same : some grown ≡ some h' = rw fits at e in
          let commands : grown.commands ≡ h'.commands = ground (arith, same) in
          rw (← commands) longer
    ]

add_command_to_history-le :
    (h h' : HistoryList) (c : Bytes)
    → add_command_to_history h c ≡ some h'
    → long_commands h'.commands ≤ long_commands h.commands + 1
unfolding add_command_to_history
add_command_to_history-le h h' c e = ground (arith, append_command-le h h' c)

pub length-after_line : (c : ℕ) (s : Bytes) → length (after_line (c ∷ s)) ≤ length s
unfolding after_line
length-after_line c [] = ground arith
length-after_line c (d ∷ s) = ground (arith, length-after_line d s)

module _ (launch : List Bytes → ℤ) (fork_pipes : List (List Bytes) → ℤ) where
  wsh_history-Within :
      (execute : ShellState → List Bytes → Outcome) (s : ShellState) (args : List Bytes)
      → ((t : ShellState) (words : List Bytes) → Within (stored t) (execute t words))
      → Within (stored s) (wsh_history execute s args)
  unfolding wsh_history
  wsh_history-Within execute s args ih = elim (Option-cases (get_elem? args 1)) [
    | inl e ↦ ground (arith, e)
    | inr (arg, e) ↦ elim (Bool-cases (str_eq arg (codes "set"))) [
      | inl t ↦ elim (Option-cases (get_elem? args 2)) [
        | inl f ↦ ground (arith, e, t, f)
        | inr (size, f) ↦ ground (arith, e, t, f, set_history_size-le s.history (strtol_int size))
      ]
      | inr t ↦ elim (Option-cases (history_position s.history (strtol_int arg))) [
        | inl p ↦ ground (arith, e, t, p)
        | inr (n, p) ↦ elim (Option-cases (get_elem? s.history.commands n)) [
          | inl g ↦ ground (arith, e, t, p, g)
          | inr (command, g) ↦
              let cut : ShellState = record s { history = cut_command s.history n } in
              let kept = Within-negative (stored s) (execute cut (wsh_split_line command)) (
                Within-mono (stored cut) (stored s) (execute cut (wsh_split_line command))
                  (cut_command-le s.history n) (ih cut (wsh_split_line command))) in
              ground (arith, e, t, p, g, kept)
        ]
      ]
    ]
  ]

  call_command-Within :
      (execute : ShellState → List Bytes → Outcome) (s : ShellState) (from : List (Option Bytes))
      (c : Bytes) (rest : List Bytes)
      → ((t : ShellState) (words : List Bytes) → Within (stored t) (execute t words))
      → Within (stored s) (call_command launch fork_pipes execute s from c rest)
  unfolding call_command
  call_command-Within execute s from c rest ih =
      ground (arith, wsh_history-Within execute s (c ∷ rest) ih)

  run_arguments-Within :
      (execute : ShellState → List Bytes → Outcome) (s : ShellState) (from : List (Option Bytes))
      (es : List Bytes)
      → ((t : ShellState) (words : List Bytes) → Within (stored t) (execute t words))
      → Within (stored s) (run_arguments launch fork_pipes execute s from es)
  unfolding run_arguments
  run_arguments-Within execute s from [] ih = omega arith
  run_arguments-Within execute s from (c ∷ rest) ih =
      ground (arith, call_command-Within execute s from c rest ih)

  pub wsh_execute-Within :
      (fuel : ℕ) (s : ShellState) (args : List Bytes)
      → Within (stored s) (wsh_execute launch fork_pipes fuel s args)
  unfolding wsh_execute
  wsh_execute-Within zero s args = tt
  wsh_execute-Within (suc fuel) s args =
      run_arguments-Within (wsh_execute launch fork_pipes fuel) s (origins s.env s.vars args)
        (expand_arguments s.env s.vars args) (wsh_execute-Within fuel)

  record_line-Within :
      (status : ℤ) (s : ShellState) (command line : Bytes)
      → Within (stored s + 1) (record_line launch fork_pipes status s command line)
  unfolding record_line
  record_line-Within status s command line =
      elim (Option-cases (add_command_to_history s.history line)) [
        | inl e ↦ ground (arith, e)
        | inr (h, e) ↦ ground (arith, e, add_command_to_history-le s.history h line e)
      ]

  pub after_execute-Within :
      (line : Bytes) (args : List Bytes) (n : ℕ) (o : Outcome)
      → Within n o
      → Within (n + 1) (after_execute launch fork_pipes line args o)
  unfolding after_execute
  after_execute-Within line [] n (returned status s) w = omega arith
  after_execute-Within line (c ∷ rest) n (returned status s) w =
      let more =
        Within-mono (stored s + 1) (n + 1) (record_line launch fork_pipes status s c line)
          (omega arith) (record_line-Within status s c line) in
      ground (arith, more)
  after_execute-Within line [] n exited w = tt
  after_execute-Within line (c ∷ rest) n exited w = tt
  after_execute-Within line [] n faulted w = tt
  after_execute-Within line (c ∷ rest) n faulted w = tt
  after_execute-Within line [] n freed w = tt
  after_execute-Within line (c ∷ rest) n freed w = tt
  after_execute-Within line [] n out_of_fuel w = tt
  after_execute-Within line (c ∷ rest) n out_of_fuel w = tt
