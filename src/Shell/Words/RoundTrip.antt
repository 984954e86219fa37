-- ===== src/Shell/Words/RoundTrip.antt =====
-- Splitting undoes joining: words with blanks between them, and commands with pipes between them.
use schoolwork.Common.{◌+◌, ◌<◌, ◌≡◌, refl, ap, ◌∙◌, false, List, [], ◌∷◌, ◌++◌, arith, length, All}
use schoolwork.Common.Bytes.{Bytes, str_eq, str_eq_iff, tokens-join, IsToken, join}
use schoolwork.Shell.Words.{space, wsh_split_line, pipe_word, num_pipes, split_commands, cons_first}

-- A line made of words without blanks, with a blank behind each, splits into those words.
pub wsh_split_line-join :
    (ws : List Bytes) → All (IsToken space) ws → wsh_split_line (join space ws) ≡ ws
unfolding wsh_split_line
wsh_split_line-join ws h = tokens-join space ws h

-- The command line that a pipeline was written as.
pub pipeline : List Bytes → List (List Bytes) → List Bytes
pipeline c [] = c
pipeline c (d ∷ ds) = c ++ (pipe_word ∷ pipeline d ds)

abbrev pub NoPipe : List Bytes → Type 0
NoPipe args = All (λ a. str_eq a pipe_word ≡ false) args

split_commands-NoPipe : (c : List Bytes) → NoPipe c → split_commands c ≡ c ∷ []
unfolding split_commands
split_commands-NoPipe [] h = refl
split_commands-NoPipe (a ∷ c) h = ground (arith, split_commands-NoPipe c h.1)

split_commands-append :
    (c args : List Bytes)
    → NoPipe c
    → split_commands (c ++ (pipe_word ∷ args)) ≡ c ∷ split_commands args
unfolding split_commands
split_commands-append [] args h = ground (arith, (str_eq_iff pipe_word pipe_word).1 refl)
split_commands-append (a ∷ c) args h = ground (arith, split_commands-append c args h.1)

num_pipes-NoPipe : (c : List Bytes) → NoPipe c → num_pipes c ≡ 0
unfolding num_pipes
num_pipes-NoPipe [] h = refl
num_pipes-NoPipe (a ∷ c) h = ground (arith, num_pipes-NoPipe c h.1)

num_pipes-append :
    (c args : List Bytes) → NoPipe c → num_pipes (c ++ (pipe_word ∷ args)) ≡ num_pipes args + 1
unfolding num_pipes
num_pipes-append [] args h = ground (arith, (str_eq_iff pipe_word pipe_word).1 refl)
num_pipes-append (a ∷ c) args h = ground (arith, num_pipes-append c args h.1)

-- Commands without a `|` among their arguments, written as a pipeline, are split into those
-- commands, and the number of pipes that is counted is one less than that of the commands.
pub split_commands-pipeline :
    (c : List Bytes) (cs : List (List Bytes))
    → NoPipe c
    → All NoPipe cs
    → (split_commands (pipeline c cs) ≡ c ∷ cs) × (num_pipes (pipeline c cs) ≡ length cs)
unfolding pipeline
split_commands-pipeline c [] h hs = (split_commands-NoPipe c h, num_pipes-NoPipe c h)
split_commands-pipeline c (d ∷ ds) h hs =
    let (s, n) = split_commands-pipeline d ds hs.0 hs.1 in
    (
      split_commands-append c (pipeline d ds) h ∙ ap (λ r. c ∷ r) s,
      omega (arith, num_pipes-append c (pipeline d ds) h, n),
    )

length-cons_first :
    (a : Bytes) (cs : List (List Bytes)) → 0 < length cs → length (cons_first a cs) ≡ length cs
length-cons_first a [] h = absurd (omega arith)
length-cons_first a (c ∷ cs) h = refl

-- Whatever the arguments, there is one command more than there are pipes.
pub length-split_commands : (args : List Bytes) → length (split_commands args) ≡ num_pipes args + 1
unfolding split_commands num_pipes
length-split_commands [] = refl
length-split_commands (a ∷ args) =
    ground (arith, length-split_commands args, length-cons_first a (split_commands args))
