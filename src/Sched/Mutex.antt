-- ===== src/Sched/Mutex.antt =====
-- The mutexes of cs537/P5/xv6: `sys_macquire` and `sys_mrelease` of sysproc.c, with the elevated
-- number that a waiting process lends to the holder. What stands between `acquire` and `sleep` or
-- `release` of the spin lock is one step.
pub mod Inheritance
mod Tests
use schoolwork.Common.{
  ℕ, zero, suc, ◌+◌, ◌-◌, ◌*◌, ◌/◌, ◌%◌, ◌^◌, ◌≤◌, ◌<◌, bit_and, bit_or, min, ◌≡◌, refl, sym, ap,
  ◌∙◌, subst, fun_ext, ◌≢◌, ◌↔◌, ◌⊎◌, inl, inr, Bool, true, false, ◌&&◌, ◌||◌, not, Option, none,
  some, List, [], ◌∷◌, ◌++◌, map, append-nil, append_assoc, arith, ltb, leb, ◌==◌, if◌then◌else◌,
  ltb→lt, lt→ltb, leb→le, ==_iff, tests, Bool-cases, Option-cases, length, get_elem?, get_or, set,
  take, drop, replicate, length-append, length-set, length-drop, length-replicate, get_or-set_self,
  get_or-set_ne, All,
}
use schoolwork.Common.Int.{ℤ, ltb_ℤ, eq_ℤ}
use schoolwork.Sched.{Proc, sys_nice}

-- `mutex`, without its spin lock; the holder is the index of a process.
pub record Mutex : Type 0 where
  pub locked : ℕ
  pub holder : Option ℕ

abbrev pub Procs : Type 0
Procs = ℕ → Proc

abbrev pub put_proc : Procs → ℕ → Proc → Procs
put_proc ps i p j = if i == j then p else ps j

abbrev pub minit : Mutex
minit = record { locked = 0; holder = none }

-- What a round of the loop of `sys_macquire` comes to: the lock is taken, or the process sleeps
-- with these processes, or the holder is a null pointer.
pub data Round : Type 0 where
  taken : Mutex → Round
  sleeps : Procs → Round
  fault : Round

unfoldable pub lend : Procs → ℕ → ℕ → Procs
lend ps me h =
    if ltb_ℤ (ps me).elevated (ps h).elevated
    then put_proc ps h (record (ps h) { elevated = (ps me).elevated })
    else ps

unfoldable pub macquire_round : Mutex → Procs → ℕ → Round
macquire_round lock ps me =
    if lock.locked == 0
    then taken (record { locked = 1; holder = some me })
    else elim lock.holder [ none ↦ fault | some h ↦ sleeps (lend ps me h) ]

-- `sys_mrelease`: the processes after it. The lock is free then.
unfoldable pub mrelease : Procs → ℕ → Procs
mrelease ps me =
    if eq_ℤ (ps me).elevated (ps me).priority
    then ps
    else put_proc ps me (record (ps me) { elevated = (ps me).priority })

-- Where a process is: it does not use the lock, it is about to look at it, it sleeps on it, it
-- holds it.
pub data Place : Type 0 where
  outside : Place
  wants : Place
  asleep : Place
  inside : Place

pub record MutexState : Type 0 where
  pub lock : Mutex
  pub procs : Procs
  pub place : ℕ → Place

abbrev pub move_to : (ℕ → Place) → ℕ → Place → ℕ → Place
move_to f i p j = if i == j then p else f j

-- `wakeup`
abbrev pub awake : Place → Place
awake asleep = wants
awake outside = outside
awake wants = wants
awake inside = inside

-- The first four are the calls for this lock by a process that keeps to the order of acquiring and
-- releasing. Then what else changes the elevated numbers or the lock: `sys_nice`, the release of
-- another lock, a loan for another lock, and the release of this lock by a process that does not
-- hold it.
pub data Step : MutexState → MutexState → Type 0 where
  calls :
      (s : MutexState) (i : ℕ)
      → s.place i ≡ outside
      → Step s (record s { place = move_to s.place i wants })
  takes :
      (s : MutexState) (i : ℕ) (l : Mutex)
      → s.place i ≡ wants
      → macquire_round s.lock s.procs i ≡ taken l
      → Step s (record s { lock = l; place = move_to s.place i inside })
  waits :
      (s : MutexState) (i : ℕ) (ps : Procs)
      → s.place i ≡ wants
      → macquire_round s.lock s.procs i ≡ sleeps ps
      → Step s (record s { procs = ps; place = move_to s.place i asleep })
  leaves :
      (s : MutexState) (i : ℕ)
      → s.place i ≡ inside
      → Step s (record {
        lock = minit;
        procs = mrelease s.procs i;
        place = move_to (λ j. awake (s.place j)) i outside;
      })
  nices :
      (s : MutexState) (i : ℕ) (inc : Option ℤ)
      → s.place i ≢ asleep
      → Step s (record s { procs = put_proc s.procs i (sys_nice (s.procs i) inc).1 })
  leaves_other :
      (s : MutexState) (i : ℕ)
      → s.place i ≢ asleep
      → Step s (record s { procs = mrelease s.procs i })
  lends_other : (s : MutexState) (i h : ℕ) → Step s (record s { procs = lend s.procs i h })
  breaks :
      (s : MutexState) (i : ℕ)
      → s.place i ≡ outside
      → Step s (record { lock = minit; procs = mrelease s.procs i; place = λ j. awake (s.place j) })

pub data Reach (s : MutexState) : MutexState → Type 0 where
  here : Reach s s
  next : {t u : MutexState} → Reach s t → Step t u → Reach s u

-- While a process holds the lock it calls neither `sys_nice` nor the release of another lock; to a
-- process that sleeps on the lock nothing is lent for another one; and the lock is released by its
-- holder only.
abbrev pub IsOrderly : {s t : MutexState} → Step s t → Type 0
IsOrderly (calls s i p) = Unit {0}
IsOrderly (takes s i l p e) = Unit {0}
IsOrderly (waits s i ps p e) = Unit {0}
IsOrderly (leaves s i p) = Unit {0}
IsOrderly (nices s i inc p) = s.place i ≢ inside
IsOrderly (leaves_other s i p) = s.place i ≢ inside
IsOrderly (lends_other s i h) = s.place h ≢ asleep
IsOrderly (breaks s i p) = ⊥

abbrev pub AllOrderly : {s t : MutexState} → Reach s t → Type 0
AllOrderly here = Unit {0}
AllOrderly (next r st) = AllOrderly r × IsOrderly st
