-- ===== src/Shell/Execute/Stored.antt =====
-- The execution of a stored command by its number.
use schoolwork.Common.{
  ℕ, zero, suc, ◌≡◌, refl, ap, ◌∙◌, false, some, List, [], ◌∷◌, arith, get_elem?, get_or, set, take,
  Option,
}
use schoolwork.Common.Bytes.{Bytes, str_eq, codes, tokens_from}
use schoolwork.Common.Int.{ℤ, negsuc}
use schoolwork.Shell.Words.{wsh_split_line, cut_word, cut_first_token, strtol_int, space, num_pipes}
use schoolwork.Shell.History.{cut_command, history_position}
use schoolwork.Shell.Variables.{expand_arguments, origins}
use schoolwork.Shell.Execute.{
  ShellState, Outcome, returned, is_one_of, is_builtin, wsh_history, call_command, run_arguments,
  wsh_execute,
}

take-cut_word :
    (d : ℕ) (cur s : Bytes)
    → tokens_from space (d ∷ cur) (cut_word s) ≡ take 1 (tokens_from space (d ∷ cur) s)
unfolding tokens_from cut_word
take-cut_word d cur [] = refl
take-cut_word d cur (c ∷ s) = ground (arith, take-cut_word c (d ∷ cur) s)

-- What is left of a stored command splits into its first word alone.
split-cut_first_token : (c : Bytes) → wsh_split_line (cut_first_token c) ≡ take 1 (wsh_split_line c)
unfolding tokens_from cut_first_token wsh_split_line
split-cut_first_token [] = refl
split-cut_first_token (c ∷ s) = ground (arith, split-cut_first_token s, take-cut_word c [] s)

set_get {ℓ} :
    {A : Type ℓ} (xs : List A) (n : ℕ) (c d v : A)
    → get_elem? xs n ≡ some c
    → get_or (set xs n v) n d ≡ v
set_get [] n c d v e = absurd (cc)
set_get (x ∷ xs) zero c d v e = refl
set_get (x ∷ xs) (suc n) c d v e = set_get xs n c d v e

get_or_of {ℓ} :
    {A : Type ℓ} (xs : List A) (n : ℕ) (c d : A) → get_elem? xs n ≡ some c → get_or xs n d ≡ c
get_or_of [] n c d e = absurd (cc)
get_or_of (x ∷ xs) zero c d e = ground arith
get_or_of (x ∷ xs) (suc n) c d e = get_or_of xs n c d e

module _ (launch : List Bytes → ℤ) (fork_pipes : List (List Bytes) → ℤ) where
  run_program :
      (execute : ShellState → List Bytes → Outcome) (s : ShellState) (from : List (Option Bytes))
      (p : Bytes) (ws : List Bytes)
      → is_builtin p ≡ false
      → num_pipes (p ∷ ws) ≡ 0
      → run_arguments launch fork_pipes execute s from (p ∷ ws) ≡ returned (launch (p ∷ ws)) s
  unfolding run_arguments call_command is_builtin is_one_of
  run_program execute s from p ws nb np = ground arith

  run_history :
      (execute : ShellState → List Bytes → Outcome) (s : ShellState) (from : List (Option Bytes))
      (number : Bytes)
      → num_pipes (codes "history" ∷ number ∷ []) ≡ 0
      → run_arguments launch fork_pipes execute s from (codes "history" ∷ number ∷ [])
        ≡ wsh_history execute s (codes "history" ∷ number ∷ [])
  unfolding run_arguments call_command str_eq
  run_history execute s from number np = rw np

  number_of_history :
      (execute : ShellState → List Bytes → Outcome) (s s' : ShellState) (number c : Bytes) (n : ℕ)
      (status : ℤ)
      → history_position s.history (strtol_int number) ≡ some n
      → str_eq number (codes "set") ≡ false
      → get_elem? s.history.commands n ≡ some c
      → execute (record s { history = cut_command s.history n }) (wsh_split_line c)
        ≡ returned status s'
      → wsh_history execute s (codes "history" ∷ number ∷ []) ≡ returned (negsuc 0) s'
  unfolding wsh_history
  number_of_history execute s s' number c n status at not_set stored e = ground arith

  -- `history N` for a stored command that is a program, not a builtin, without pipes, where the
  -- expansion changes neither line and N is not the word `set`: two levels of execution are enough,
  -- and afterwards only the first word of the stored command is left.
  pub history_cuts_command :
      (fuel : ℕ) (s : ShellState) (number c p : Bytes) (ws : List Bytes) (n : ℕ)
      → history_position s.history (strtol_int number) ≡ some n
      → str_eq number (codes "set") ≡ false
      → get_elem? s.history.commands n ≡ some c
      → wsh_split_line c ≡ p ∷ ws
      → expand_arguments s.env s.vars (codes "history" ∷ number ∷ [])
        ≡ codes "history" ∷ number ∷ []
      → expand_arguments s.env s.vars (p ∷ ws) ≡ p ∷ ws
      → is_builtin p ≡ false
      → num_pipes (p ∷ ws) ≡ 0
      → num_pipes (codes "history" ∷ number ∷ []) ≡ 0
      → (s' : ShellState) × (wsh_execute launch fork_pipes
            (suc (suc fuel))
            s
            (codes "history" ∷ number ∷ [])
          ≡ returned (negsuc 0) s')
        × (wsh_split_line (get_or s'.history.commands n []) ≡ p ∷ [])
  history_cuts_command fuel s number c p ws n at not_set stored words plain_history plain nb np
        nopipe =
      (
        record s { history = cut_command s.history n },
        unfold wsh_execute in
            rw plain_history (
              run_history (wsh_execute launch fork_pipes (suc fuel)) s
                (origins s.env s.vars (codes "history" ∷ number ∷ [])) number nopipe
              ∙ number_of_history (wsh_execute launch fork_pipes (suc fuel)) s s1 number c n _ at
                  not_set stored inner),
        unfold cut_command in
            (ap wsh_split_line (
                set_get s.history.commands n c [] (cut_first_token (get_or s.history.commands n []))
                  stored
                ∙ ap cut_first_token (get_or_of s.history.commands n c [] stored))
              ∙ split-cut_first_token c
              ∙ ap (take 1) words),
      )
    where
      s1 : ShellState
      s1 = record s { history = cut_command s.history n }

      inner :
          wsh_execute launch fork_pipes (suc fuel) s1 (wsh_split_line c)
          ≡ returned (launch (p ∷ ws)) s1
      inner =
          unfold wsh_execute in
          rw (words, plain)
            (run_program (wsh_execute launch fork_pipes fuel) s1 (origins s.env s.vars (p ∷ ws)) p
              ws nb np)
