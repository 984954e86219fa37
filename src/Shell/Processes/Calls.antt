-- ===== src/Shell/Processes/Calls.antt =====
-- The system calls that cs537/P3/wsh.c uses on its descriptors, and what is documented of them.
use schoolwork.Common.{ℕ, suc, ◌+◌, ◌^◌, ◌≤◌, ◌<◌, ◌≡◌, ◌≢◌, Bool, true, Option, none, some}
use schoolwork.Common.Int.{ℤ, pos}

-- What a descriptor stands for: a file opened before, or an end of a pipe. The pipes are numbered
-- as they are made.
pub data OpenFile : Type 0 where
  given : ℕ → OpenFile
  read_end : ℕ → OpenFile
  write_end : ℕ → OpenFile

-- The calls in a process, on a state of the system as the process sees it. `none` and `false` stand
-- for -1. `fork` gives the state of the parent and that of the child.
pub record Kernel : Type 1 where
  pub State : Type 0
  pub descriptor : State → ℕ → Option OpenFile
  pub pipes : State → ℕ
  pub dup : ℕ → State → Option ℕ × State
  pub dup2 : ℕ → ℕ → State → Bool × State
  pub close : ℕ → State → State
  pub pipe : State → Option (ℕ × ℕ) × State
  pub fork : State → ℤ × State × State
  pub setpgid : ℤ → State → State
  pub waitpid : ℤ → State → State

module _ (k : Kernel) where
  open k use {State, descriptor, pipes, dup, dup2, close, pipe, fork, setpgid, waitpid}

  -- Descriptor `d` now stands for `v`, and all else is as before.
  abbrev pub Sets : ℕ → Option OpenFile → State → State → Type 0
  Sets d v s s' =
      (descriptor s' d ≡ v)
      × ((e : ℕ) → e ≢ d → descriptor s' e ≡ descriptor s e)
      × (pipes s' ≡ pipes s)

  -- No descriptor and no pipe changes.
  abbrev pub Same : State → State → Type 0
  Same s s' = ((e : ℕ) → descriptor s' e ≡ descriptor s e) × (pipes s' ≡ pipes s)

  -- A call uses up at most `d` descriptors and `p` processes of those that may still be opened and
  -- started.
  abbrev pub Uses : (State → ℕ) → (State → ℕ) → ℕ → ℕ → State → State → Type 0
  Uses descriptors_left processes_left d p s s' =
      (descriptors_left s ≤ descriptors_left s' + d) × (processes_left s ≤ processes_left s' + p)

  -- The calls as they are documented: `dup` and `pipe` succeed while descriptors are left, `fork`
  -- while processes are; of a call that fails nothing is said. `dup2` needs an open descriptor, and
  -- here a target below 3.
  pub record IsKernel (descriptors_left processes_left : State → ℕ) : Type 0 where
    pub dup_lem :
        (a : ℕ) (s : State) (f : OpenFile)
        → descriptor s a ≡ some f
        → 0 < descriptors_left s
        → (d : ℕ) × (s' : State) × (dup a s ≡ (some d, s'))
          × (descriptor s d ≡ none)
          × Sets d (some f) s s'
          × Uses descriptors_left processes_left 1 0 s s'
    pub dup2_lem :
        (a b : ℕ) (s : State) (f : OpenFile)
        → descriptor s a ≡ some f
        → b < 3
        → (s' : State) × (dup2 a b s ≡ (true, s'))
          × Sets b (some f) s s'
          × (processes_left s ≤ processes_left s')
    pub close_lem :
        (a : ℕ) (s : State)
        → Sets a none s (close a s) × Uses descriptors_left processes_left 0 0 s (close a s)
    pub pipe_lem :
        (s : State)
        → 2 ≤ descriptors_left s
        → (r : ℕ) × (w : ℕ) × (s' : State) × (pipe s ≡ (some (r, w), s'))
          × (descriptor s r ≡ none)
          × (descriptor s w ≡ none)
          × (r ≢ w)
          × (descriptor s' r ≡ some (read_end (pipes s)))
          × (descriptor s' w ≡ some (write_end (pipes s)))
          × ((e : ℕ) → e ≢ r → e ≢ w → descriptor s' e ≡ descriptor s e)
          × (pipes s' ≡ suc (pipes s))
          × Uses descriptors_left processes_left 2 0 s s'
    pub fork_lem :
        (s : State)
        → 0 < processes_left s
        → (n : ℕ) × (parent : State) × (child : State) × (fork s ≡ (pos n, parent, child))
          × (0 < n)
          × (n < 2 ^ 22)
          × Same s parent
          × Same s child
          × Uses descriptors_left processes_left 0 1 s parent
    pub setpgid_lem : (g : ℤ) (s : State) → Same s (setpgid g s)
    pub waitpid_lem : (p : ℤ) (s : State) → Same s (waitpid p s)
