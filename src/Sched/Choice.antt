-- ===== src/Sched/Choice.antt =====
-- The process that `scheduler` picks.
use schoolwork.Common.{
  ℕ, zero, suc, ◌+◌, ◌-◌, ◌%◌, ◌≤◌, ◌<◌, ◌≡◌, refl, sym, ◌∙◌, subst, ◌⊎◌, inl, inr, Bool, true,
  false, ◌&&◌, none, some, List, arith, if◌then◌else◌, Bool-cases,
}
use native.Mathlib.Decide.{ℕ_discrete}
use schoolwork.Common.Int.{ℤ, pos, negsuc, ltb_ℤ}
use schoolwork.Sched.{nproc, is_runnable, Proc, proc_at, pick_from, choose, next_run}

ltb_ℤ_irrefl : (a : ℤ) → ltb_ℤ a a ≡ false
ltb_ℤ_irrefl (pos a) = ground arith
ltb_ℤ_irrefl (negsuc a) = ground arith

-- Not below: `b ≤ a`.
not_below_trans : (a b c : ℤ) → ltb_ℤ a b ≡ false → ltb_ℤ b c ≡ false → ltb_ℤ a c ≡ false
not_below_trans (pos a) (pos b) (pos c) h g = ground arith
not_below_trans (pos a) (pos b) (negsuc c) h g = ground arith
not_below_trans (pos a) (negsuc b) (pos c) h g = ground arith
not_below_trans (pos a) (negsuc b) (negsuc c) h g = ground arith
not_below_trans (negsuc a) (pos b) (pos c) h g = ground arith
not_below_trans (negsuc a) (pos b) (negsuc c) h g = ground arith
not_below_trans (negsuc a) (negsuc b) (pos c) h g = ground arith
not_below_trans (negsuc a) (negsuc b) (negsuc c) h g = ground arith

below_asym : (a b : ℤ) → ltb_ℤ a b ≡ true → ltb_ℤ b a ≡ false
below_asym (pos a) (pos b) h = ground arith
below_asym (pos a) (negsuc b) h = ground arith
below_asym (negsuc a) (pos b) h = ground arith
below_asym (negsuc a) (negsuc b) h = ground arith

-- No runnable process of the rounds from `i` up to `i + n` has a lower number than process `h`.
abbrev Best : List Proc → ℕ → ℕ → ℕ → ℕ → Type 0
Best table start_index i n h =
    (k : ℕ)
    → i ≤ k
    → k < i + n
    → is_runnable (proc_at table ((start_index + k) % nproc)).state ≡ true
    → ltb_ℤ (proc_at table ((start_index + k) % nproc)).elevated (proc_at table h).elevated ≡ false

record Picked (table : List Proc) (start_index i n high h : ℕ) : Type 0 where
  in_table : h < nproc
  can_run : is_runnable (proc_at table h).state ≡ true
  no_higher : ltb_ℤ (proc_at table high).elevated (proc_at table h).elevated ≡ false
  best : Best table start_index i n h

Best-extend :
    (table : List Proc) (start_index i n h : ℕ)
    → Best table start_index (i + 1) n h
    → (is_runnable (proc_at table ((start_index + i) % nproc)).state ≡ true
        → ltb_ℤ (proc_at table ((start_index + i) % nproc)).elevated (proc_at table h).elevated
          ≡ false)
    → Best table start_index i (suc n) h
Best-extend table start_index i n h b first k lo hi r = elim (ℕ_discrete k i) [
  | yes e ↦
      subst
        (λ j.
          ltb_ℤ (proc_at table ((start_index + j) % nproc)).elevated (proc_at table h).elevated
          ≡ false)
        (sym e)
        (first
          (subst (λ j. is_runnable (proc_at table ((start_index + j) % nproc)).state ≡ true) e r))
  | no ne ↦ b k (omega arith) (omega arith) r
]

pick_from-Picked :
    (table : List Proc) (start_index n i high s2 : ℕ)
    → high < nproc
    → is_runnable (proc_at table high).state ≡ true
    → Picked table start_index i n high (pick_from table start_index n i high s2).0
unfolding pick_from
pick_from-Picked table start_index zero i high s2 lt r = record {
  in_table = lt;
  can_run = r;
  no_higher = ltb_ℤ_irrefl (proc_at table high).elevated;
  best = λ k lo hi. absurd (omega arith);
}
pick_from-Picked table start_index (suc n) i high s2 lt r =
    elim (Bool-cases (
      is_runnable (proc_at table index).state
      && ltb_ℤ (proc_at table index).elevated (proc_at table high).elevated)) [
        | inl better ↦
            let rest =
              pick_from-Picked table start_index n (i + 1) index (index + 1) index_lt
                (and_first _ _ better) in
            rw better (record {
              in_table = rest.in_table;
              can_run = rest.can_run;
              no_higher =
                  not_below_trans (number high) (number index)
                    (number (pick_from table start_index n (i + 1) index (index + 1)).0)
                    (below_asym (number index) (number high)
                      (and_second (is_runnable (proc_at table index).state) _ better))
                    rest.no_higher;
              best = Best-extend table start_index i n _ rest.best (λ q. rest.no_higher);
            })
        | inr worse ↦
            let rest = pick_from-Picked table start_index n (i + 1) high s2 lt r in
            rw worse (record {
              in_table = rest.in_table;
              can_run = rest.can_run;
              no_higher = rest.no_higher;
              best = Best-extend table start_index i n _ rest.best (λ q.
                  not_below_trans (number index) (number high)
                    (number (pick_from table start_index n (i + 1) high s2).0) (and_not _ _ q worse)
                    rest.no_higher);
            })
      ]
  where
    number : ℕ → ℤ
    number x = (proc_at table x).elevated

    index : ℕ
    index = (start_index + i) % nproc

    index_lt : index < nproc
    index_lt = omega arith

    and_first : (a b : Bool) → (a && b) ≡ true → a ≡ true
    and_first true b h = refl
    and_first false b h = h

    and_second : (a b : Bool) → (a && b) ≡ true → b ≡ true
    and_second true b h = h
    and_second false b h = absurd (cc)

    and_not : (a b : Bool) → a ≡ true → (a && b) ≡ false → b ≡ false
    and_not true b h g = g
    and_not false b h g = absurd (cc)

choose-Picked :
    (table : List Proc) (start_index p : ℕ)
    → p < nproc
    → is_runnable (proc_at table p).state ≡ true
    → Picked table start_index 0 nproc p (choose table start_index p).0
unfolding choose
choose-Picked table start_index p lt r = pick_from-Picked table start_index nproc 0 p 0 lt r

if_true {ℓ} : {A : Type ℓ} (b : Bool) (x y : A) → b ≡ true → (if b then x else y) ≡ x
if_true true x y e = refl
if_true false x y e = absurd (cc)

if_false {ℓ} : {A : Type ℓ} (b : Bool) (x y : A) → b ≡ false → (if b then x else y) ≡ y
if_false true x y e = absurd (cc)
if_false false x y e = refl

-- A runnable process of the table; no runnable process has a lower elevated number.
abbrev pub IsBest : List Proc → ℕ → Type 0
IsBest table h =
    (h < nproc)
    × (is_runnable (proc_at table h).state ≡ true)
    × ((j : ℕ)
        → j < nproc
        → is_runnable (proc_at table j).state ≡ true
        → ltb_ℤ (proc_at table j).elevated (proc_at table h).elevated ≡ false)

-- The round of the inner loop that looks at process `j`.
turn : ℕ → ℕ → ℕ
turn start_index j = (j + (nproc - start_index % nproc)) % nproc

turn_lem : (start_index j : ℕ) → j < nproc → (start_index + turn start_index j) % nproc ≡ j
unfolding turn
turn_lem start_index j lt = omega arith

turn_lt : (start_index j : ℕ) → turn start_index j < nproc
unfolding turn
turn_lt start_index j = omega arith

choose-IsBest :
    (table : List Proc) (start_index p : ℕ)
    → p < nproc
    → is_runnable (proc_at table p).state ≡ true
    → IsBest table (choose table start_index p).0
choose-IsBest table start_index p lt r =
    let got = choose-Picked table start_index p lt r in
    (
      got.in_table,
      got.can_run,
      λ j below q.
          subst
            (λ x.
              ltb_ℤ (proc_at table x).elevated
                (proc_at table (choose table start_index p).0).elevated
              ≡ false)
            (turn_lem start_index j below)
            (got.best (turn start_index j) (omega arith) (omega (arith, turn_lt start_index j)) (
              subst (λ x. is_runnable (proc_at table x).state ≡ true)
                (sym (turn_lem start_index j below)) q)),
    )

-- The outer loop of `scheduler` from process `p` to the end of the table: either it finds a process
-- to run, which is runnable, and no runnable process of the whole table has a lower elevated
-- number, wherever the search starts; or none of the processes from `p` on is runnable.
pub next_run_lem :
    (table : List Proc) (start_index n p : ℕ)
    → p + n ≡ nproc
    → ((h : ℕ) × (s : ℕ) × (next_run table start_index n p ≡ some (h, s)) × IsBest table h)
      ⊎ ((next_run table start_index n p ≡ none)
          × ((j : ℕ) → p ≤ j → j < nproc → is_runnable (proc_at table j).state ≡ false))
unfolding next_run
next_run_lem table start_index zero p e = inr (refl, λ j lo hi. absurd (omega arith))
next_run_lem table start_index (suc n) p e =
    elim (Bool-cases (is_runnable (proc_at table p).state)) [
      | inl r ↦ inl (
        (choose table start_index p).0,
        (choose table start_index p).1,
        if_true (is_runnable (proc_at table p).state) _ (next_run table start_index n (p + 1)) r,
        choose-IsBest table start_index p (omega arith) r,
      )
      | inr r ↦ elim (next_run_lem table start_index n (p + 1) (omega arith)) [
        | inl (h, s, f, best) ↦ inl (h, s, skip r ∙ f, best)
        | inr (f, rest) ↦ inr (
          skip r ∙ f,
          λ j lo hi. elim (ℕ_discrete j p) [ yes q ↦ rw q r | no q ↦ rest j (omega arith) hi ],
        )
      ]
    ]
  where
    skip :
        is_runnable (proc_at table p).state ≡ false
        → next_run table start_index (suc n) p ≡ next_run table start_index n (p + 1)
    skip r =
        if_false (is_runnable (proc_at table p).state) (some (choose table start_index p))
          (next_run table start_index n (p + 1)) r
