-- ===== src/Shell/Processes.antt =====
-- The processes that `wsh_launch`, `spawn_proc` and `fork_pipes` of cs537/P3/wsh.c start, and what
-- their descriptors stand for. The system calls are a parameter (Kernel), and so is what the
-- macros of <sys/wait.h> say of a status.
pub mod Calls
pub mod Children
pub mod Wiring
mod Tests
use schoolwork.Common.{
  ℕ, zero, suc, ◌+◌, ◌-◌, ◌*◌, ◌/◌, ◌%◌, ◌^◌, ◌≤◌, ◌<◌, bit_and, bit_or, min, ◌≡◌, refl, sym, ap,
  ◌∙◌, subst, fun_ext, ◌≢◌, ◌↔◌, ◌⊎◌, inl, inr, Bool, true, false, ◌&&◌, ◌||◌, not, Option, none,
  some, List, [], ◌∷◌, ◌++◌, map, append-nil, append_assoc, arith, ltb, leb, ◌==◌, if◌then◌else◌,
  ltb→lt, lt→ltb, leb→le, ==_iff, tests, Bool-cases, Option-cases, length, get_elem?, get_or, set,
  take, drop, replicate, length-append, length-set, length-drop, length-replicate, get_or-set_self,
  get_or-set_ne, All,
}
use schoolwork.Common.Bytes.{Bytes}
use schoolwork.Common.Int.{ℤ, pos, negsuc, eq_ℤ}
use schoolwork.Shell.Processes.Calls.{Kernel}

module _ (k : Kernel) where
  open k use {State, dup, dup2, close, pipe, fork, setpgid, waitpid}

  -- A program, and its state when `execvp` starts it.
  pub record Child : Type 0 where
    pub argv : List Bytes
    pub at_exec : State

  -- How a call ends in the shell's own process, with the children it has started. A child in which
  -- `execvp` fails is on its own from there.
  pub data Ended : Type 0 where
    returned : (status : ℤ) → List Child → State → Ended
    exited : List Child → Ended
    waits : List Child → Ended  -- for a child that does not end

  abbrev pub is_negative : ℤ → Bool
  is_negative (pos n) = false
  is_negative (negsuc n) = true

  -- In a child: descriptor `target` becomes what `fd` is, unless they are the same.
  pub redirect : ℕ → ℕ → State → State
  redirect fd target s = if fd == target then s else close fd (dup2 fd target s).1

  -- `spawn_proc`: what it returns, the child, and the state.
  pub spawn_proc : ℕ → ℕ → List Bytes → ℤ → State → ℤ × List Child × State
  unfolding redirect
  spawn_proc input output argv pgid s =
      let (pid, parent, child) = fork s in
      let started : Child = record {
        argv = argv;
        at_exec = redirect output 1 (redirect input 0 (setpgid pgid child));
      } in
      (pid, (if is_negative pid then [] else started ∷ []), parent)

  pub wait_any : ℕ → State → State
  wait_any zero s = s
  wait_any (suc n) s = wait_any n (waitpid (negsuc 0) s)

  -- `fork_pipes` behind its loop: the last command, and the wait for all of them.
  pub last_stage : ℕ → ℕ → List Bytes → ℕ → ℤ → List Child → State → Ended
  unfolding wait_any
  last_stage original n last input pgid children s =
      let (pid, parent, child) = fork (if input == 0 then s else (dup2 input 0 s).1) in
      let all = children ++ (record { argv = last; at_exec = setpgid pgid child } ∷ []) in
      if is_negative pid
      then exited children
      else (let (ok, s') = dup2 original 0 (wait_any n (waitpid pid parent)) in
          if ok then returned (pos 1) all (close original s') else exited all)

  -- The loop of `fork_pipes` over the commands before the last. A return value of `spawn_proc` of
  -- 99999999 is taken for a failed child.
  pub stages : ℕ → ℕ → List (List Bytes) → List Bytes → ℕ → ℤ → List Child → State → Ended
  stages original n [] last input pgid children s = last_stage original n last input pgid children s
  stages original n (argv ∷ front) last input pgid children s =
      let (ends, s1) = pipe s in
      elim ends [
        | none ↦ exited children
        | some (r, w) ↦
            let (pid, child, s2) = spawn_proc input w argv pgid s1 in
            let rest =
              stages original n front last r (if eq_ℤ pgid (pos 0) then pid else pgid)
                (children ++ child) (close w s2) in
            if eq_ℤ pid (pos 99999999) then returned pid (children ++ child) s2 else rest
      ]

  -- `fork_pipes` for the commands `front` and `last`; the number of pipes is that of `front`.
  pub fork_pipes : List (List Bytes) → List Bytes → State → Ended
  fork_pipes front last s =
      let (copy, s1) = dup 0 s in
      elim copy [
        | none ↦ exited []
        | some original ↦ stages original (length front) front last 0 (pos 0) [] s1
      ]

  -- The loop over `waitpid`: the first status with which the child has ended.
  pub wait_ended : (ℕ → Bool) → ℤ → List ℕ → State → Option (ℕ × State)
  wait_ended ended pid [] s = none
  wait_ended ended pid (status ∷ later) s =
      let rest = wait_ended ended pid later (waitpid pid s) in
      if ended status then some (status, waitpid pid s) else rest

  -- `wsh_launch`, with the statuses that `waitpid` reports of the child, one after the other.
  pub wsh_launch : (ℕ → Bool) → List ℕ → List Bytes → State → Ended
  unfolding wait_ended
  wsh_launch ended statuses argv s =
      let (pid, parent, child) = fork s in
      let started : List Child = record { argv = argv; at_exec = child } ∷ [] in
      if is_negative pid then exited [] else elim (wait_ended ended pid statuses parent) [
        | none ↦ waits started
        | some (status, s') ↦ returned (if status == 2560 then pos 10 else pos 1) started s'
      ]
