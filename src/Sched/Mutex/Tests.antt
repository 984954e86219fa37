-- ===== src/Sched/Mutex/Tests.antt =====
-- A process with a high number holds the lock, and one with a low number waits.
use schoolwork.Common.{ℕ, zero, suc, ◌≡◌, refl, some}
use schoolwork.Common.Int.{pos, negsuc, ◌≤ℤ◌}
use schoolwork.Sched.{runnable}
use schoolwork.Sched.Mutex.{
  Mutex, Procs, lend, macquire_round, outside, wants, asleep, inside, MutexState, move_to, calls,
  takes, waits, Reach, here, next,
}
use schoolwork.Sched.Mutex.Inheritance.{begin, holder_inherits}

abbrev two_procs : Procs
two_procs zero = record { state = runnable; priority = pos 5; elevated = pos 5 }
two_procs (suc i) = record { state = runnable; priority = negsuc 4; elevated = negsuc 4 }

abbrev held : Mutex
held = record { locked = 1; holder = some 0 }

abbrev waiting : MutexState
waiting = record {
  lock = held;
  procs = lend two_procs 1 0;
  place = move_to (move_to (move_to (move_to (λ i. outside) 0 wants) 0 inside) 1 wants) 1 asleep;
}

abbrev one_waits : Reach (begin two_procs) waiting
unfolding macquire_round
one_waits =
    next
      (next (next (next here (calls (begin two_procs) 0 refl)) (takes _ 0 held refl refl))
        (calls _ 1 refl))
      (waits _ 1 (lend two_procs 1 0) refl refl)

holder_inherits_example :
    ((i j : ℕ) → waiting.place i ≡ inside → waiting.place j ≡ inside → i ≡ j)
    × ((j : ℕ)
        → waiting.place j ≡ asleep
        → (h : ℕ) × (waiting.place h ≡ inside)
          × ((waiting.procs h).elevated ≤ℤ (waiting.procs j).elevated))
unfolding macquire_round
holder_inherits_example = holder_inherits two_procs one_waits ((((tt, tt), tt), tt), tt)
