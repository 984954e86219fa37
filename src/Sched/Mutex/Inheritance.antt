-- ===== src/Sched/Mutex/Inheritance.antt =====
-- One holder at a time, and what it inherits.
use schoolwork.Common.{
  ℕ, ◌≡◌, refl, sym, ap, ◌∙◌, subst, ◌≢◌, ◌⊎◌, inl, inr, true, false, some, arith, ltb→lt,
  Bool-cases,
}
use native.Mathlib.Decide.{ℕ_discrete}
use schoolwork.Common.Int.{ℤ, ltb_ℤ, ◌≤ℤ◌}
use schoolwork.Sched.{Proc, sys_nice}
use schoolwork.Sched.Mutex.{
  Mutex, Procs, put_proc, minit, taken, sleeps, lend, macquire_round, mrelease, Place, outside,
  wants, asleep, inside, MutexState, move_to, awake, Step, calls, takes, waits, leaves, nices,
  leaves_other, lends_other, breaks, Reach, here, next, IsOrderly, AllOrderly,
}

-- Nobody holds the lock or sleeps on it.
record IsFree (s : MutexState) : Type 0 where
  unlocked : s.lock.locked ≡ 0
  nobody : (i : ℕ) → s.place i ≢ inside
  none_asleep : (i : ℕ) → s.place i ≢ asleep

-- One process holds it, and those that sleep have no smaller elevated number.
record IsHeld (s : MutexState) (h : ℕ) : Type 0 where
  locked : s.lock.locked ≡ 1
  holder : s.lock.holder ≡ some h
  in_place : s.place h ≡ inside
  alone : (i : ℕ) → s.place i ≡ inside → i ≡ h
  inherited : (j : ℕ) → s.place j ≡ asleep → (s.procs h).elevated ≤ℤ (s.procs j).elevated

IsSound : MutexState → Type 0
IsSound s = IsFree s ⊎ ((h : ℕ) × IsHeld s h)

moved_self : (f : ℕ → Place) (i : ℕ) (p : Place) → move_to f i p i ≡ p
moved_self f i p = ground arith

moved_other : (f : ℕ → Place) (i j : ℕ) (p : Place) → i ≢ j → move_to f i p j ≡ f j
moved_other f i j p ne = ground arith

-- A process that is not where the moved one went was there before.
moved_from :
    (f : ℕ → Place) (i j : ℕ) (p q : Place) → move_to f i p j ≡ q → p ≢ q → (i ≢ j) × (f j ≡ q)
moved_from f i j p q e ne = elim (ℕ_discrete i j) [
  | yes same ↦ absurd (ne (sym (moved_self f i p) ∙ subst (λ x. move_to f i p x ≡ q) (sym same) e))
  | no apart ↦ (apart, sym (moved_other f i j p apart) ∙ e)
]

put_proc_same : (ps : Procs) (h : ℕ) (p : Proc) → put_proc ps h p h ≡ p
put_proc_same ps h p = ground arith

not_less : (a b : ℤ) → ltb_ℤ a b ≡ false → b ≤ℤ a
not_less a b h = ground arith

less : (a b : ℤ) → ltb_ℤ a b ≡ true → a ≤ℤ b
less a b h = omega (arith, ltb→lt _ _ h)

lend-le :
    (ps : Procs) (me h : ℕ)
    → ((lend ps me h h).elevated ≤ℤ (ps me).elevated)
      × ((lend ps me h h).elevated ≤ℤ (ps h).elevated)
unfolding lend
lend-le ps me h = elim (Bool-cases (ltb_ℤ (ps me).elevated (ps h).elevated)) [
  | inl up ↦ rw up (
      rw (put_proc_same ps h (record (ps h) { elevated = (ps me).elevated }))
        (omega arith, less (ps me).elevated (ps h).elevated up))
  | inr same ↦ rw same (not_less (ps me).elevated (ps h).elevated same, omega arith)
]

lend_other : (ps : Procs) (me h j : ℕ) → h ≢ j → lend ps me h j ≡ ps j
unfolding lend
lend_other ps me h j ne = ground arith

round_taken :
    (l l' : Mutex) (ps : Procs) (me : ℕ)
    → macquire_round l ps me ≡ taken l'
    → (l.locked ≡ 0) × (l' ≡ record { locked = 1; holder = some me })
unfolding macquire_round
round_taken l l' ps me e = ground arith

round_sleeps :
    (l : Mutex) (ps ps' : Procs) (me : ℕ)
    → macquire_round l ps me ≡ sleeps ps'
    → (l.locked ≢ 0) × ((h : ℕ) → l.holder ≡ some h → ps' ≡ lend ps me h)
unfolding macquire_round
round_sleeps l ps ps' me e = (λ z. ground arith, λ h eh. ground arith)

calls-IsSound :
    (s : MutexState) (i : ℕ)
    → s.place i ≡ outside
    → IsSound s
    → IsSound (record s { place = move_to s.place i wants })
unfolding IsSound
calls-IsSound s i out (inl f) = inl (record {
  unlocked = f.unlocked;
  nobody = λ j e. f.nobody j (moved_from s.place i j wants inside e (λ q. cc)).1;
  none_asleep = λ j e. f.none_asleep j (moved_from s.place i j wants asleep e (λ q. cc)).1;
})
calls-IsSound s i out (inr (h, k)) = inr (
  h,
  record {
    locked = k.locked;
    holder = k.holder;
    in_place =
        moved_other s.place i h wants (λ q. outside-ne-inside (sym out ∙ ap s.place q ∙ k.in_place))
        ∙ k.in_place;
    alone = λ j e. k.alone j (moved_from s.place i j wants inside e (λ q. cc)).1;
    inherited = λ j e. k.inherited j (moved_from s.place i j wants asleep e (λ q. cc)).1;
  },
)
  where
    outside-ne-inside : outside ≢ inside
    outside-ne-inside q = cc

takes-IsSound :
    (s : MutexState) (i : ℕ) (l : Mutex)
    → macquire_round s.lock s.procs i ≡ taken l
    → IsSound s
    → IsSound (record s { lock = l; place = move_to s.place i inside })
unfolding IsSound
takes-IsSound s i l e (inr (h, k)) =
    absurd (omega (arith, k.locked, (round_taken s.lock l s.procs i e).0))
takes-IsSound s i l e (inl f) = inr (
  i,
  record {
    locked = ap (λ x. x.locked) (round_taken s.lock l s.procs i e).1;
    holder = ap (λ x. x.holder) (round_taken s.lock l s.procs i e).1;
    in_place = moved_self s.place i inside;
    alone = λ j q. elim (ℕ_discrete i j) [
      | yes same ↦ sym same
      | no apart ↦ absurd (f.nobody j (sym (moved_other s.place i j inside apart) ∙ q))
    ];
    inherited =
        λ j q. absurd (f.none_asleep j (moved_from s.place i j inside asleep q (λ z. cc)).1);
  },
)

waits-IsSound :
    (s : MutexState) (i : ℕ) (ps : Procs)
    → s.place i ≡ wants
    → macquire_round s.lock s.procs i ≡ sleeps ps
    → IsSound s
    → IsSound (record s { procs = ps; place = move_to s.place i asleep })
unfolding IsSound
waits-IsSound s i ps at e (inl f) = absurd ((round_sleeps s.lock s.procs ps i e).0 f.unlocked)
waits-IsSound s i ps at e (inr (h, k)) = inr (
  h,
  record {
    locked = k.locked;
    holder = k.holder;
    in_place = moved_other s.place i h asleep apart_h ∙ k.in_place;
    alone = λ j q. k.alone j (moved_from s.place i j asleep inside q (λ z. cc)).1;
    inherited = λ j q. elim (ℕ_discrete i j) [
      | yes same ↦ subst (λ x. (ps h).elevated ≤ℤ (ps x).elevated) same waiter
      | no apart ↦ sleeper j (sym (moved_other s.place i j asleep apart) ∙ q)
    ];
  },
)
  where
    wants-ne-inside : wants ≢ inside
    wants-ne-inside q = cc

    asleep-ne-inside : asleep ≢ inside
    asleep-ne-inside q = cc

    apart_h : i ≢ h
    apart_h q = wants-ne-inside (sym at ∙ ap s.place q ∙ k.in_place)

    lent : ps ≡ lend s.procs i h
    lent = (round_sleeps s.lock s.procs ps i e).1 h k.holder

    waiter : (ps h).elevated ≤ℤ (ps i).elevated
    waiter =
        subst (λ x. (x h).elevated ≤ℤ (x i).elevated) (sym lent)
          (subst (λ x. (lend s.procs i h h).elevated ≤ℤ x.elevated)
            (sym (lend_other s.procs i h i (λ q. apart_h (sym q)))) (lend-le s.procs i h).0)

    sleeper : (j : ℕ) → s.place j ≡ asleep → (ps h).elevated ≤ℤ (ps j).elevated
    sleeper j q =
        subst (λ x. (x h).elevated ≤ℤ (x j).elevated) (sym lent)
          (subst (λ x. (lend s.procs i h h).elevated ≤ℤ x.elevated)
            (sym (
              lend_other s.procs i h j
                (λ z. asleep-ne-inside (sym q ∙ ap s.place (sym z) ∙ k.in_place))))
            (omega (arith, (lend-le s.procs i h).1, k.inherited j q)))

awake-ne-asleep : (p : Place) → awake p ≢ asleep
awake-ne-asleep outside e = cc
awake-ne-asleep wants e = cc
awake-ne-asleep asleep e = cc
awake-ne-asleep inside e = cc

awake_inside : (p : Place) → awake p ≡ inside → p ≡ inside
awake_inside outside e = cc
awake_inside wants e = cc
awake_inside asleep e = cc
awake_inside inside e = refl

leaves-IsSound :
    (s : MutexState) (i : ℕ)
    → s.place i ≡ inside
    → IsSound s
    → IsSound (record {
      lock = minit;
      procs = mrelease s.procs i;
      place = move_to (λ j. awake (s.place j)) i outside;
    })
unfolding IsSound
leaves-IsSound s i at (inl f) = absurd (f.nobody i at)
leaves-IsSound s i at (inr (h, k)) = inl (record {
  unlocked = refl;
  nobody = λ j e.
      let (apart, was) = moved_from (λ x. awake (s.place x)) i j outside inside e (λ q. cc) in
      apart (k.alone i at ∙ sym (k.alone j (awake_inside (s.place j) was)));
  none_asleep = λ j e.
      awake-ne-asleep (s.place j)
        (moved_from (λ x. awake (s.place x)) i j outside asleep e (λ q. cc)).1;
})

-- New numbers, for which each process that holds the lock still has at most what one that sleeps
-- on it has.
numbers-IsSound :
    (s : MutexState) (ps : Procs)
    → ((h j : ℕ)
        → s.place h ≡ inside
        → s.place j ≡ asleep
        → (s.procs h).elevated ≤ℤ (s.procs j).elevated
        → (ps h).elevated ≤ℤ (ps j).elevated)
    → IsSound s
    → IsSound (record s { procs = ps })
unfolding IsSound
numbers-IsSound s ps keeps (inl f) =
    inl (record { unlocked = f.unlocked; nobody = f.nobody; none_asleep = f.none_asleep })
numbers-IsSound s ps keeps (inr (h, k)) = inr (
  h,
  record {
    locked = k.locked;
    holder = k.holder;
    in_place = k.in_place;
    alone = k.alone;
    inherited = λ j e. keeps h j k.in_place e (k.inherited j e);
  },
)

-- Only the number of a process that neither holds the lock nor sleeps on it changes.
elsewhere-IsSound :
    (s : MutexState) (ps : Procs) (i : ℕ)
    → s.place i ≢ inside
    → s.place i ≢ asleep
    → ((j : ℕ) → i ≢ j → ps j ≡ s.procs j)
    → IsSound s
    → IsSound (record s { procs = ps })
elsewhere-IsSound s ps i not_inside not_asleep others v =
    numbers-IsSound s ps
      (λ h j x y le.
        let same_h = others h (λ q. not_inside (ap s.place q ∙ x)) in
        let same_j = others j (λ q. not_asleep (ap s.place q ∙ y)) in rw (same_h, same_j) le)
      v

mrelease_other : (ps : Procs) (i j : ℕ) → i ≢ j → mrelease ps i j ≡ ps j
unfolding mrelease
mrelease_other ps i j ne = ground arith

put_proc_other : (ps : Procs) (i j : ℕ) (p : Proc) → i ≢ j → put_proc ps i p j ≡ ps j
put_proc_other ps i j p ne = ground arith

lends-IsSound :
    (s : MutexState) (i h : ℕ)
    → s.place h ≢ asleep
    → IsSound s
    → IsSound (record s { procs = lend s.procs i h })
lends-IsSound s i h not_asleep v =
    numbers-IsSound s (lend s.procs i h)
      (λ k j x y le.
        let same_j = lend_other s.procs i h j (λ q. not_asleep (ap s.place q ∙ y)) in
        rw same_j (elim (ℕ_discrete h k) [
          | yes e ↦
              let lower : (lend s.procs i h k).elevated ≤ℤ (s.procs k).elevated =
                subst (λ z. (lend s.procs i h z).elevated ≤ℤ (s.procs z).elevated) e
                  (lend-le s.procs i h).1 in
              omega (arith, lower, le)
          | no ne ↦ rw (lend_other s.procs i h k ne) le
        ]))
      v

Step-IsSound : {s t : MutexState} (st : Step s t) → IsOrderly st → IsSound s → IsSound t
Step-IsSound (calls s i p) o v = calls-IsSound s i p v
Step-IsSound (takes s i l p e) o v = takes-IsSound s i l e v
Step-IsSound (waits s i ps p e) o v = waits-IsSound s i ps p e v
Step-IsSound (leaves s i p) o v = leaves-IsSound s i p v
Step-IsSound (nices s i inc p) o v =
    elsewhere-IsSound s _ i o p (λ j ne. put_proc_other s.procs i j (sys_nice (s.procs i) inc).1 ne)
      v
Step-IsSound (leaves_other s i p) o v =
    elsewhere-IsSound s _ i o p (λ j ne. mrelease_other s.procs i j ne) v
Step-IsSound (lends_other s i h) o v = lends-IsSound s i h o v
Step-IsSound (breaks s i p) o v = absurd o

Reach-IsSound : {s t : MutexState} → IsSound s → (r : Reach s t) → AllOrderly r → IsSound t
Reach-IsSound v here o = v
Reach-IsSound v (next r st) o = Step-IsSound st o.1 (Reach-IsSound v r o.0)

-- Before anybody uses the lock.
abbrev pub begin : Procs → MutexState
begin ps = record { lock = minit; procs = ps; place = λ i. outside }

begin-IsSound : (ps : Procs) → IsSound (begin ps)
unfolding IsSound
begin-IsSound ps = inl (record { unlocked = refl; nobody = λ i e. cc; none_asleep = λ i e. cc })

-- In every run in which a process that holds the lock does not call `sys_nice` or release another
-- lock, nothing is lent for another lock to one that sleeps on it, and only its holder releases it:
-- no two processes hold it at once, and while a process sleeps on it some process holds it, whose
-- elevated number is at most that of the process that sleeps.
pub holder_inherits :
    (ps : Procs) {s : MutexState}
    → (r : Reach (begin ps) s) → AllOrderly r
    → ((i j : ℕ) → s.place i ≡ inside → s.place j ≡ inside → i ≡ j)
      × ((j : ℕ)
          → s.place j ≡ asleep
          → (h : ℕ) × (s.place h ≡ inside) × ((s.procs h).elevated ≤ℤ (s.procs j).elevated))
unfolding IsSound
holder_inherits ps {s} r o = elim (Reach-IsSound (begin-IsSound ps) r o) [
  | inl f ↦ (λ i j p q. absurd (f.nobody i p), λ j p. absurd (f.none_asleep j p))
  | inr (h, k) ↦
      (λ i j p q. k.alone i p ∙ sym (k.alone j q), λ j p. (h, k.in_place, k.inherited j p))
]
