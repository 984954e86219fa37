-- ===== src/Shell/Loop/Ends.antt =====
-- The shell comes to an end on every input: each round adds at most one stored command.
use schoolwork.Common.{
  ℕ, zero, suc, ◌+◌, ◌≤◌, ◌<◌, ◌≡◌, refl, ◌≢◌, inl, inr, true, false, Option, none, some, List, [],
  ◌∷◌, arith, if◌then◌else◌, Bool-cases, length,
}
use schoolwork.Common.Bytes.{Bytes, str_eq, codes}
use schoolwork.Common.Int.{ℤ, pos, eq_ℤ}
use schoolwork.Shell.Words.{wsh_split_line}
use schoolwork.Shell.Variables.{expand_arguments}
use schoolwork.Shell.Execute.{
  ShellState, Outcome, returned, exited, faulted, freed, out_of_fuel, wsh_execute, record_line,
  after_execute, wsh_round,
}
use schoolwork.Shell.Execute.Termination.{wsh_execute-ne-out_of_fuel}
use schoolwork.Shell.Loop.{line_text, after_line, wsh_loop}
use schoolwork.Shell.Loop.Growth.{
  Within, stored, List-cases, length-after_line, wsh_execute-Within, after_execute-Within,
}

module _ (launch : List Bytes → ℤ) (fork_pipes : List (List Bytes) → ℤ) where
  after_execute-ne :
      (line : Bytes) (args : List Bytes) (o : Outcome)
      → o ≢ out_of_fuel
      → after_execute launch fork_pipes line args o ≢ out_of_fuel
  unfolding after_execute record_line
  after_execute-ne line [] (returned status s) ne = λ e. ground (arith, e)
  after_execute-ne line (c ∷ rest) (returned status s) ne = ground arith
  after_execute-ne line [] exited ne = λ e. cc
  after_execute-ne line (c ∷ rest) exited ne = λ e. cc
  after_execute-ne line [] faulted ne = λ e. cc
  after_execute-ne line (c ∷ rest) faulted ne = λ e. cc
  after_execute-ne line [] freed ne = λ e. cc
  after_execute-ne line (c ∷ rest) freed ne = λ e. cc
  after_execute-ne line [] out_of_fuel ne = absurd (ne refl)
  after_execute-ne line (c ∷ rest) out_of_fuel ne = absurd (ne refl)

  -- The three ways of a round.
  wsh_round-blank :
      (fuel : ℕ) (s : ShellState) (line : Bytes)
      → wsh_split_line line ≡ []
      → wsh_round launch fork_pipes fuel s line ≡ returned (pos 1) s
  unfolding wsh_round
  wsh_round-blank fuel s line e = rw (e, wsh_round) refl

  wsh_round-exit :
      (fuel : ℕ) (s : ShellState) (line c : Bytes) (rest : List Bytes)
      → wsh_split_line line ≡ c ∷ rest
      → str_eq c (codes "exit") ≡ true
      → wsh_round launch fork_pipes fuel s line ≡ exited
  unfolding wsh_round
  wsh_round-exit fuel s line c rest e leave = rw (e, wsh_round) (rw leave refl)

  wsh_round-run :
      (fuel : ℕ) (s : ShellState) (line c : Bytes) (rest : List Bytes)
      → wsh_split_line line ≡ c ∷ rest
      → str_eq c (codes "exit") ≡ false
      → wsh_round launch fork_pipes fuel s line
        ≡ after_execute launch fork_pipes line
            (expand_arguments s.env s.vars (c ∷ rest))
            (wsh_execute launch fork_pipes fuel s (c ∷ rest))
  unfolding wsh_round
  wsh_round-run fuel s line c rest e stay = rw (e, wsh_round) (rw stay refl)

  wsh_round-Within :
      (fuel : ℕ) (s : ShellState) (line : Bytes)
      → Within (stored s + 1) (wsh_round launch fork_pipes fuel s line)
  wsh_round-Within fuel s line = elim (List-cases (wsh_split_line line)) [
    | inl e ↦ rw (wsh_round-blank fuel s line e) (omega arith)
    | inr (c, rest, e) ↦ elim (Bool-cases (str_eq c (codes "exit"))) [
      | inl leave ↦ rw (wsh_round-exit fuel s line c rest e leave) tt
      | inr stay ↦ rw (wsh_round-run fuel s line c rest e stay) (
          after_execute-Within launch fork_pipes line (expand_arguments s.env s.vars (c ∷ rest))
            (stored s) (wsh_execute launch fork_pipes fuel s (c ∷ rest))
            (wsh_execute-Within launch fork_pipes fuel s (c ∷ rest)))
    ]
  ]

  wsh_round-ne :
      (fuel : ℕ) (s : ShellState) (line : Bytes)
      → stored s + 1 < fuel
      → wsh_round launch fork_pipes fuel s line ≢ out_of_fuel
  wsh_round-ne fuel s line h = elim (List-cases (wsh_split_line line)) [
    | inl e ↦ rw (wsh_round-blank fuel s line e) (λ q. cc)
    | inr (c, rest, e) ↦ elim (Bool-cases (str_eq c (codes "exit"))) [
      | inl leave ↦ rw (wsh_round-exit fuel s line c rest e leave) (λ q. cc)
      | inr stay ↦ rw (wsh_round-run fuel s line c rest e stay) (
          after_execute-ne line (expand_arguments s.env s.vars (c ∷ rest))
            (wsh_execute launch fork_pipes fuel s (c ∷ rest))
            (wsh_execute-ne-out_of_fuel launch fork_pipes fuel s (c ∷ rest) h))
    ]
  ]

  -- A round's outcome, and what the loop makes of it.
  continue_loop : ℕ → ℕ → Bytes → Outcome → Outcome
  continue_loop rounds fuel rest (returned status s) =
      let again = wsh_loop launch fork_pipes rounds fuel s rest in
      if eq_ℤ status (pos 0) then returned status s else again
  continue_loop rounds fuel rest exited = exited
  continue_loop rounds fuel rest faulted = faulted
  continue_loop rounds fuel rest freed = freed
  continue_loop rounds fuel rest out_of_fuel = out_of_fuel

  continue_loop-ne :
      (rounds fuel n : ℕ) (rest : Bytes) (o : Outcome)
      → o ≢ out_of_fuel
      → Within n o
      → ((s : ShellState)
          → stored s ≤ n
          → wsh_loop launch fork_pipes rounds fuel s rest ≢ out_of_fuel)
      → continue_loop rounds fuel rest o ≢ out_of_fuel
  unfolding continue_loop
  continue_loop-ne rounds fuel n rest (returned status s) ne w later = ground (arith, later s w)
  continue_loop-ne rounds fuel n rest exited ne w later = ne
  continue_loop-ne rounds fuel n rest faulted ne w later = ne
  continue_loop-ne rounds fuel n rest freed ne w later = ne
  continue_loop-ne rounds fuel n rest out_of_fuel ne w later = ne

  wsh_loop-continue :
      (rounds fuel : ℕ) (s : ShellState) (c : ℕ) (input : Bytes)
      → wsh_loop launch fork_pipes (suc rounds) fuel s (c ∷ input)
        ≡ continue_loop rounds fuel
            (after_line (c ∷ input))
            (wsh_round launch fork_pipes fuel s (line_text (c ∷ input)))
  unfolding wsh_loop
  wsh_loop-continue rounds fuel s c input =
      go (wsh_round launch fork_pipes fuel s (line_text (c ∷ input)))
    where
      go :
          (o : Outcome)
          → (elim o [
            | returned status s' ↦
                let again = wsh_loop launch fork_pipes rounds fuel s' (after_line (c ∷ input)) in
                if eq_ℤ status (pos 0) then returned status s' else again
            | other ↦ other
          ])
            ≡ continue_loop rounds fuel (after_line (c ∷ input)) o
      go (returned status s') = unfold continue_loop in refl
      go exited = unfold continue_loop in refl
      go faulted = unfold continue_loop in refl
      go freed = unfold continue_loop in refl
      go out_of_fuel = unfold continue_loop in refl

  pub wsh_loop-ne :
      (rounds fuel : ℕ) (s : ShellState) (input : Bytes)
      → length input < rounds
      → stored s + length input + 1 < fuel
      → wsh_loop launch fork_pipes rounds fuel s input ≢ out_of_fuel
  wsh_loop-ne zero fuel s input h k = absurd (omega arith)
  wsh_loop-ne (suc rounds) fuel s [] h k = λ e. absurd (unfold wsh_loop in cc)
  wsh_loop-ne (suc rounds) fuel s (c ∷ input) h k =
      let shorter = length-after_line c input in
      rw (wsh_loop-continue rounds fuel s c input) (
        continue_loop-ne rounds fuel (stored s + 1) (after_line (c ∷ input))
          (wsh_round launch fork_pipes fuel s (line_text (c ∷ input)))
          (wsh_round-ne fuel s (line_text (c ∷ input)) (omega arith))
          (wsh_round-Within fuel s (line_text (c ∷ input)))
          λ s' w.
            wsh_loop-ne rounds fuel s' (after_line (c ∷ input)) (omega (arith, shorter))
              (omega (arith, shorter)))

  abbrev size : Option Bytes → ℕ
  size none = 0
  size (some input) = length input
