-- ===== src/Sched.antt =====
-- The scheduling of cs537/P5/xv6: the choice of a process in `scheduler` of proc.c, and `sys_nice`
-- and the mutexes of sysproc.c.
pub mod Choice
pub mod Nice
pub mod Mutex
mod Tests
use schoolwork.Common.{
  ℕ, zero, suc, ◌+◌, ◌%◌, Bool, true, false, ◌&&◌, Option, none, some, List, if◌then◌else◌, get_or,
}
use schoolwork.Common.Int.{ℤ, pos, negsuc, ltb_ℤ, ◌+ℤ◌, signed32, unsigned}

abbrev pub nproc : ℕ
nproc = 64

-- `enum procstate`
pub data ProcState : Type 0 where
  unused : ProcState
  embryo : ProcState
  sleeping : ProcState
  runnable : ProcState
  running : ProcState
  zombie : ProcState

abbrev pub is_runnable : ProcState → Bool
is_runnable runnable = true
is_runnable s = false

-- What scheduling reads and writes of `struct proc`.
pub record Proc : Type 0 where
  pub state : ProcState
  pub priority : ℤ
  pub elevated : ℤ

-- `sys_nice` of the process that calls it, with the argument that `argint` reads, or none. The sum
-- wraps as an `int`.
unfoldable pub sys_nice : Proc → Option ℤ → ℤ × Proc
sys_nice p none = (negsuc 0, p)
sys_nice p (some inc) =
    if ltb_ℤ inc (negsuc 38) && ltb_ℤ (pos 39) inc
    then (negsuc 0, p)
    else (let sum = signed32 (unsigned 32 (p.priority +ℤ inc)) in
        let clamped =
          if ltb_ℤ sum (negsuc 19) then negsuc 19 else if ltb_ℤ (pos 19) sum then pos 19 else sum in
        (pos 0, record p { priority = clamped; elevated = clamped }))

abbrev pub no_proc : Proc
no_proc = record { state = unused; priority = pos 0; elevated = pos 0 }

abbrev pub proc_at : List Proc → ℕ → Proc
proc_at table i = get_or table i no_proc

-- The inner loop of `scheduler`, the `n` rounds from round `i` on: `highP` and `startIndex2`.
unfoldable pub pick_from : List Proc → ℕ → ℕ → ℕ → ℕ → ℕ → ℕ × ℕ
pick_from table start_index zero i high start_index2 = (high, start_index2)
pick_from table start_index (suc n) i high start_index2 =
    let index = (start_index + i) % nproc in
    if is_runnable (proc_at table index).state
      && ltb_ℤ (proc_at table index).elevated (proc_at table high).elevated
    then pick_from table start_index n (i + 1) index (index + 1)
    else pick_from table start_index n (i + 1) high start_index2

unfoldable pub choose : List Proc → ℕ → ℕ → ℕ × ℕ
unfolding pick_from
choose table start_index p = pick_from table start_index nproc 0 p 0

-- The outer loop from the process `p` on, over the `n` that are left: the process to run next and
-- the new `startIndex`, or the end of the table.
unfoldable pub next_run : List Proc → ℕ → ℕ → ℕ → Option (ℕ × ℕ)
unfolding choose
next_run table start_index zero p = none
next_run table start_index (suc n) p =
    let rest = next_run table start_index n (p + 1) in
    if is_runnable (proc_at table p).state then some (choose table start_index p) else rest
