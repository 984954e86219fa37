-- ===== src/Shell/Processes/Tests.antt =====
-- Pipelines and programs of the shell on a kernel with a table of descriptors.
use schoolwork.Common.{
  ℕ, zero, suc, ◌+◌, ◌≡◌, refl, Bool, true, false, Option, none, some, List, [], ◌∷◌, ◌==◌, length,
  get_or,
}
use schoolwork.Common.Bytes.{Bytes, codes}
use schoolwork.Common.Int.{pos}
use schoolwork.Shell.Processes.Calls.{OpenFile, given, read_end, write_end, Kernel}
use schoolwork.Shell.Processes.{
  Ended, returned, fork_pipes, stages, spawn_proc, last_stage, redirect, wait_any, wsh_launch,
  wait_ended,
}

-- The open files by descriptor, and the number of pipes.
record Table : Type 0 where
  files : List (Option OpenFile)
  made : ℕ

abbrev look : List (Option OpenFile) → ℕ → Option OpenFile
look fs d = get_or fs d none

abbrev enter : List (Option OpenFile) → ℕ → Option OpenFile → List (Option OpenFile)
enter [] zero v = v ∷ []
enter [] (suc d) v = none ∷ enter [] d v
enter (f ∷ fs) zero v = v ∷ fs
enter (f ∷ fs) (suc d) v = f ∷ enter fs d v

abbrev copied : ℕ → Table → Option ℕ × Table
copied a s = elim (look s.files a) [
  | none ↦ (none, s)
  | some f ↦ (some (length s.files), record s { files = enter s.files (length s.files) (some f) })
]

abbrev redirected : ℕ → ℕ → Table → Bool × Table
redirected a b s = elim (look s.files a) [
  | none ↦ (false, s)
  | some f ↦ (true, record s { files = enter s.files b (some f) })
]

abbrev piped : Table → Option (ℕ × ℕ) × Table
piped s =
    let n = length s.files in
    (
      some (n, n + 1),
      record {
        files = enter (enter s.files n (some (read_end s.made))) (n + 1) (some (write_end s.made));
        made = suc s.made;
      },
    )

abbrev kernel : Kernel
kernel = record {
  State = Table;
  descriptor = λ s d. look s.files d;
  pipes = λ s. s.made;
  dup = copied;
  dup2 = redirected;
  close = λ a s. record s { files = enter s.files a none };
  pipe = piped;
  fork = λ s. (pos 7, s, s);
  setpgid = λ g s. s;
  waitpid = λ p s. s;
}

-- A system with room for a hundred descriptors and processes whatever is open.
abbrev hundred : Table → ℕ
hundred s = 100

abbrev terminal : Table
terminal = record { files = some (given 0) ∷ some (given 1) ∷ some (given 2) ∷ []; made = 0 }

abbrev front : List (List Bytes)
front = (codes "ls" ∷ codes "-l" ∷ []) ∷ (codes "sort" ∷ []) ∷ []

abbrev last : List Bytes
last = codes "head" ∷ []

-- What the shell's descriptors stand for after the pipeline.
left_open : Ended kernel → List (Option OpenFile)
left_open (returned status children s) = s.files
left_open other = []

after_pipeline :
    left_open (fork_pipes kernel front last terminal)
    ≡ some (given 0)
      ∷ some (given 1)
      ∷ some (given 2)
      ∷ none
      ∷ some (read_end 0)
      ∷ none
      ∷ some (read_end 1)
      ∷ none
      ∷ []
unfolding left_open fork_pipes stages spawn_proc redirect last_stage wait_any
after_pipeline = refl

-- A program that exits with 10, after it was stopped once.
launched :
    wsh_launch kernel (λ status. status == 2560) (4991 ∷ 2560 ∷ []) last terminal
    ≡ returned (pos 10) (record { argv = last; at_exec = terminal } ∷ []) terminal
unfolding wsh_launch wait_ended
launched = refl
