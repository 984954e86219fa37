-- ===== src/Sched/Tests.antt =====
-- A table with two runnable processes.
use schoolwork.Common.{ℕ, ◌≤◌, ◌<◌, ◌≡◌, refl, ◌⊎◌, false, none, some, List, ◌∷◌, replicate}
use schoolwork.Common.Int.{pos, negsuc}
use schoolwork.Sched.{nproc, runnable, sleeping, is_runnable, Proc, no_proc, proc_at, next_run}
use schoolwork.Sched.{sys_nice}
use schoolwork.Sched.Nice.{InRange, sys_nice-InRange}
use schoolwork.Sched.Choice.{IsBest, next_run_lem}

abbrev table : List Proc
table =
    record { state = sleeping; priority = negsuc 5; elevated = negsuc 5 }
    ∷ record { state = runnable; priority = pos 3; elevated = pos 3 }
    ∷ record { state = runnable; priority = pos 3; elevated = negsuc 0 }
    ∷ replicate 61 no_proc

next_run_lem_example :
    ((h : ℕ) × (s : ℕ) × (next_run table 1 64 0 ≡ some (h, s)) × IsBest table h)
    ⊎ ((next_run table 1 64 0 ≡ none)
        × ((j : ℕ) → 0 ≤ j → j < nproc → is_runnable (proc_at table j).state ≡ false))
next_run_lem_example = next_run_lem table 1 64 0 refl

abbrev sleeper : Proc
sleeper = record { state = sleeping; priority = pos 3; elevated = pos 3 }

-- An increment that wraps round in an `int`.
sys_nice-InRange_example :
    ((sys_nice sleeper (some (pos 2147483647))).0 ≡ pos 0)
    × InRange (sys_nice sleeper (some (pos 2147483647))).1.priority
    × ((sys_nice sleeper (some (pos 2147483647))).1.elevated
        ≡ (sys_nice sleeper (some (pos 2147483647))).1.priority)
    × ((sys_nice sleeper (some (pos 2147483647))).1.state ≡ sleeping)
sys_nice-InRange_example = sys_nice-InRange sleeper (pos 2147483647)
