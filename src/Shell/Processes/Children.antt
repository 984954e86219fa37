-- ===== src/Shell/Processes/Children.antt =====
-- The children that `spawn_proc` and `fork_pipes` of cs537/P3/wsh.c start, one by one: what their
-- descriptors stand for.
use schoolwork.Common.{
  ℕ, zero, suc, ◌^◌, ◌≤◌, ◌<◌, ◌≡◌, refl, sym, ◌∙◌, ◌≢◌, true, false, Option, none, some, List, [],
  ◌∷◌, ◌++◌, arith, ◌==◌, if◌then◌else◌,
}
use native.Mathlib.Decide.{ℕ_discrete}
use schoolwork.Common.Bytes.{Bytes}
use schoolwork.Common.Int.{ℤ, pos, negsuc}
use schoolwork.Shell.Processes.Calls.{OpenFile, read_end, write_end, Kernel, IsKernel, Same, Uses}
use schoolwork.Shell.Processes.{Child, returned, redirect, spawn_proc, wait_any, last_stage}

module _ (k : Kernel) where
  open k use {State, descriptor, pipes, dup2, close}

  -- No descriptor stands for the write end of a pipe from number `c` on.
  abbrev pub NoWriter : ℕ → State → Type 0
  NoWriter c s = (e q : ℕ) → c ≤ q → descriptor s e ≢ some (write_end q)

  -- The only write end of a pipe from number `c` on is that of pipe `q`, at descriptor 1.
  abbrev pub OnlyWriter : ℕ → ℕ → State → Type 0
  OnlyWriter c q s = (e p : ℕ) → c ≤ p → descriptor s e ≡ some (write_end p) → (e ≡ 1) × (p ≡ q)

  -- The children in their order: the first reads from `x`, each writes to its own pipe, numbered
  -- from `q` on, from which the next one reads, and the last one writes to `y`. No child has the
  -- write end of another's pipe.
  abbrev pub Wired : ℕ → ℕ → OpenFile → OpenFile → List (Child k) → Type 0
  Wired c q x y [] = ⊥
  Wired c q x y (a ∷ []) =
      (descriptor a.at_exec 0 ≡ some x) × (descriptor a.at_exec 1 ≡ some y) × NoWriter c a.at_exec
  Wired c q x y (a ∷ b ∷ cs) =
      (descriptor a.at_exec 0 ≡ some x)
      × (descriptor a.at_exec 1 ≡ some (write_end q))
      × OnlyWriter c q a.at_exec
      × Wired c (suc q) (read_end q) y (b ∷ cs)

  abbrev pub commands : List (Child k) → List (List Bytes)
  commands [] = []
  commands (a ∷ cs) = a.argv ∷ commands cs

  module _ (descriptors_left processes_left : State → ℕ)
      (law : IsKernel k descriptors_left processes_left) where
    pub redirect_lem :
        (fd target : ℕ) (s : State) (f : OpenFile)
        → descriptor s fd ≡ some f
        → target < 3
        → (descriptor (redirect k fd target s) target ≡ some f)
          × ((e : ℕ) → e ≢ target → e ≢ fd → descriptor (redirect k fd target s) e ≡ descriptor s e)
          × (fd ≢ target → descriptor (redirect k fd target s) fd ≡ none)
    unfolding redirect
    redirect_lem fd target s f h low = elim (ℕ_discrete fd target) [
      | yes same ↦
          let test : (fd == target) ≡ true = ground arith in
          (rw test (rw (← same) h), (λ e a b. rw test refl), (λ ne. absurd (ne same)))
      | no ne ↦
          let test : (fd == target) ≡ false = ground arith in
          let (s1, run, (now, others, count), _) = law.dup2_lem fd target s f h low in
          let ((gone, rest, count'), _) = law.close_lem fd s1 in
          (
            rw (test, run) (rest target (λ q. ne (sym q)) ∙ now),
            (λ e a b. rw (test, run) (rest e b ∙ others e a)),
            (λ _. rw (test, run) gone),
          )
    ]

    pub some-ne-none : {A : Type 0} {a : A} {o : Option A} → o ≡ some a → o ≡ none → ⊥
    some-ne-none p q = absurd (cc)

    pub write_end-inj :
        (o : Option OpenFile) (p q : ℕ) → o ≡ some (write_end p) → o ≡ some (write_end q) → p ≡ q
    write_end-inj o p q a b = ground (arith, a, b)

    pub read-ne-write :
        {o : Option OpenFile} {p q : ℕ} → o ≡ some (write_end p) → o ≡ some (read_end q) → ⊥
    read-ne-write a b = absurd (cc)

    -- A command before the last.
    pub spawn_proc_lem :
        (c q input w : ℕ) (argv : List Bytes) (pgid : ℤ) (s : State) (x : OpenFile)
        → c ≤ q
        → descriptor s input ≡ some x
        → input ≢ 1
        → w ≢ 0
        → w ≢ 1
        → w ≢ input
        → descriptor s w ≡ some (write_end q)
        → ((e p : ℕ) → e ≢ w → c ≤ p → descriptor s e ≢ some (write_end p))
        → 0 < processes_left s
        → (n : ℕ) × (a : Child k) × (s' : State) × (spawn_proc k input w argv pgid s
            ≡ (pos n, a ∷ [], s'))
          × (0 < n)
          × (n < 2 ^ 22)
          × Same k s s'
          × Uses k descriptors_left processes_left 0 1 s s'
          × (a.argv ≡ argv)
          × (descriptor a.at_exec 0 ≡ some x)
          × (descriptor a.at_exec 1 ≡ some (write_end q))
          × OnlyWriter c q a.at_exec
    unfolding spawn_proc
    spawn_proc_lem c q input w argv pgid s x cq from i1 w0 w1 wi to others left =
        let (n, parent, child, run, lo, hi, kept, copied, uses) = law.fork_lem s left in
        let (group, count) = law.setpgid_lem pgid child in
        let s1 = k.setpgid pgid child in
        let s2 = redirect k input 0 s1 in
        let s3 = redirect k w 1 s2 in
        let at_first : (e : ℕ) → descriptor s1 e ≡ descriptor s e = λ e. group e ∙ copied.0 e in
        let (zero_x, rest2, gone2) =
          redirect_lem input 0 s1 x (at_first input ∙ from) (omega arith) in
        let to2 : descriptor s2 w ≡ some (write_end q) = rest2 w w0 wi ∙ at_first w ∙ to in
        let (one_w, rest3, gone3) = redirect_lem w 1 s2 (write_end q) to2 (omega arith) in
        (
          n,
          record { argv = argv; at_exec = s3 },
          parent,
          rw run refl,
          lo,
          hi,
          kept,
          uses,
          refl,
          rest3 0 (λ z. omega (arith, z)) (λ z. w0 (sym z)) ∙ zero_x,
          one_w,
          λ e p cp is. elim (ℕ_discrete e 1) [
            | yes e1 ↦ (e1, write_end-inj (descriptor s3 1) p q (rw e1 at is) one_w)
            | no ne1 ↦ elim (ℕ_discrete e w) [
              | yes ew ↦ absurd (some-ne-none (rw ew at is) (gone3 w1))
              | no new ↦
                  let is2 = sym (rest3 e ne1 new) ∙ is in
                  elim (ℕ_discrete e 0) [
                    | yes e0 ↦
                        absurd
                          (others input p (λ z. wi (sym z)) cp (from ∙ sym zero_x ∙ rw e0 at is2))
                    | no ne0 ↦ elim (ℕ_discrete e input) [
                      | yes ei ↦ absurd (some-ne-none (rw ei at is2) (gone2 (λ z. ne0 (ei ∙ z))))
                      | no nei ↦
                          absurd
                            (others e p new cp (sym (at_first e) ∙ sym (rest2 e ne0 nei) ∙ is2))
                    ]
                  ]
            ]
          ],
        )

    pub wait_any_lem : (n : ℕ) (s : State) → Same k s (wait_any k n s)
    unfolding wait_any
    wait_any_lem zero s = ((λ e. refl), refl)
    wait_any_lem (suc n) s =
        let (same, count) = law.waitpid_lem (negsuc 0) s in
        let (same', count') = wait_any_lem n (k.waitpid (negsuc 0) s) in
        ((λ e. same' e ∙ same e), count' ∙ count)

    -- The last command, and what is left when all have ended.
    pub last_stage_lem :
        (c original n input : ℕ) (last : List Bytes) (pgid : ℤ) (children : List (Child k))
        (s : State) (x y f0 : OpenFile)
        → original ≢ 0
        → descriptor s original ≡ some f0
        → descriptor s input ≡ some x
        → descriptor s 1 ≡ some y
        → NoWriter c s
        → 0 < processes_left s
        → (a : Child k) × (s' : State) × (last_stage k original n last input pgid children s
            ≡ returned (pos 1) (children ++ (a ∷ [])) s')
          × (a.argv ≡ last)
          × (descriptor a.at_exec 0 ≡ some x)
          × (descriptor a.at_exec 1 ≡ some y)
          × NoWriter c a.at_exec
          × (descriptor s' 0 ≡ some f0)
          × ((e : ℕ) → e ≢ 0 → e ≢ original → descriptor s' e ≡ descriptor s e)
    unfolding last_stage
    last_stage_lem c original n input last pgid children s x y f0 o0 kept from out none_open left =
        let s1 = if input == 0 then s else (dup2 input 0 s).1 in
        let (zero_x, others, left1) = moved in
        let (pid, parent, child, run, lo, hi, same, copied, _) =
          law.fork_lem s1 (omega (arith, left, left1)) in
        let (group, count) = law.setpgid_lem pgid child in
        let (waited, count') = law.waitpid_lem (pos pid) parent in
        let (waited', count'') = wait_any_lem n (k.waitpid (pos pid) parent) in
        let s2 = wait_any k n (k.waitpid (pos pid) parent) in
        let to_s2 : (e : ℕ) → descriptor s2 e ≡ descriptor s1 e =
          λ e. waited' e ∙ waited e ∙ same.0 e in
        let (s3, restored, (zero_f, rest, c3), _) =
          law.dup2_lem original 0 s2 f0 (to_s2 original ∙ others original o0 ∙ kept)
            (omega arith) in
        let ((gone, rest4, c4), _) = law.close_lem original s3 in
        let at_child : (e : ℕ) → descriptor (k.setpgid pgid child) e ≡ descriptor s1 e =
          λ e. group e ∙ copied.0 e in
        (
          record { argv = last; at_exec = k.setpgid pgid child },
          close original s3,
          rw run (rw restored refl),
          refl,
          at_child 0 ∙ zero_x,
          at_child 1 ∙ others 1 (λ z. omega (arith, z)) ∙ out,
          (λ e q cq is. elim (ℕ_discrete e 0) [
            | yes e0 ↦ none_open input q cq (from ∙ sym zero_x ∙ sym (at_child 0) ∙ rw e0 at is)
            | no e0 ↦ none_open e q cq (sym (others e e0) ∙ sym (at_child e) ∙ is)
          ]),
          rest4 0 (λ z. o0 (sym z)) ∙ zero_f,
          λ e e0 eo. rest4 e eo ∙ rest e e0 ∙ to_s2 e ∙ others e e0,
        )
      where
        moved :
            (descriptor (if input == 0 then s else (dup2 input 0 s).1) 0 ≡ some x)
            × ((e : ℕ)
                → e ≢ 0
                → descriptor (if input == 0 then s else (dup2 input 0 s).1) e ≡ descriptor s e)
            × (processes_left s ≤ processes_left (if input == 0 then s else (dup2 input 0 s).1))
        moved = elim (ℕ_discrete input 0) [
          | yes i0 ↦
              let test : (input == 0) ≡ true = ground arith in
              (rw test (rw i0 at from), (λ e _. rw test refl), rw test (omega arith))
          | no ne ↦
              let test : (input == 0) ≡ false = ground arith in
              let (s1, run, (now, rest, c1), left1) = law.dup2_lem input 0 s x from (omega arith) in
              (rw (test, run) now, (λ e z. rw (test, run) (rest e z)), rw (test, run) left1)
        ]

    pub ne-of_used :
        (s : State) (e d : ℕ) (f : OpenFile)
        → descriptor s e ≡ none
        → descriptor s d ≡ some f
        → e ≢ d
    ne-of_used s e d f a b z = some-ne-none b (rw (← z) a)
