-- ===== src/Shell/Processes/Wiring.antt =====
-- How `fork_pipes` of cs537/P3/wsh.c connects the commands of a pipeline.
use schoolwork.Common.{
  ℕ, suc, ◌+◌, ◌-◌, ◌*◌, ◌^◌, ◌≤◌, ◌<◌, ◌≡◌, refl, sym, ap, ◌∙◌, ◌≢◌, false, none, some, List, [],
  ◌∷◌, ◌++◌, append_assoc, arith, if◌then◌else◌, length,
}
use native.Mathlib.Decide.{ℕ_discrete}
use schoolwork.Common.Bytes.{Bytes}
use schoolwork.Common.Int.{ℤ, pos, eq_ℤ}
use schoolwork.Shell.Processes.Calls.{OpenFile, read_end, write_end, Kernel, IsKernel, Uses}
use schoolwork.Shell.Processes.{Child, returned, spawn_proc, stages}
use schoolwork.Shell.Processes.Children.{
  NoWriter, OnlyWriter, Wired, commands, some-ne-none, read-ne-write, spawn_proc_lem,
  last_stage_lem, ne-of_used,
}

module _ (k : Kernel) where
  open k use {State, descriptor, pipes, dup2, close}

  module _ (descriptors_left processes_left : State → ℕ)
      (law : IsKernel k descriptors_left processes_left) where
    Wired-cons :
        (c q : ℕ) (x y : OpenFile) (a : Child k) (cs : List (Child k))
        → descriptor a.at_exec 0 ≡ some x
        → descriptor a.at_exec 1 ≡ some (write_end q)
        → OnlyWriter k c q a.at_exec
        → Wired k c (suc q) (read_end q) y cs
        → Wired k c q x y (a ∷ cs)
    Wired-cons c q x y a [] from to only rest = absurd rest
    Wired-cons c q x y a (b ∷ cs) from to only rest = (from, to, only, rest)

    -- A round of the loop: the pipe, the child, and the state `s3` in which the shell goes on.
    record Stage (c q input : ℕ) (argv : List Bytes) (pgid : ℤ) (x : OpenFile) (s : State)
        : Type 0 where
      r : ℕ
      w : ℕ
      pid : ℕ
      a : Child k
      s1 : State
      s2 : State
      piped : k.pipe s ≡ (some (r, w), s1)
      unused : descriptor s r ≡ none
      spawned : spawn_proc k input w argv pgid s1 ≡ (pos pid, a ∷ [], s2)
      small : pid < 2 ^ 22
      args : a.argv ≡ argv
      from : descriptor a.at_exec 0 ≡ some x
      to : descriptor a.at_exec 1 ≡ some (write_end q)
      only : OnlyWriter k c q a.at_exec
      kept : (d : ℕ) (f : OpenFile) → descriptor s d ≡ some f → descriptor (close w s2) d ≡ some f
      next : descriptor (close w s2) r ≡ some (read_end q)
      closed : NoWriter k c (close w s2)
      made : pipes (close w s2) ≡ suc q
      uses : Uses k descriptors_left processes_left 2 1 s (close w s2)

    stage_lem :
        (c q input : ℕ) (argv : List Bytes) (pgid : ℤ) (s : State) (x y z : OpenFile)
        → c ≤ q
        → pipes s ≡ q
        → descriptor s 0 ≡ some z
        → descriptor s input ≡ some x
        → input ≢ 1
        → descriptor s 1 ≡ some y
        → NoWriter k c s
        → 2 ≤ descriptors_left s
        → 0 < processes_left s
        → Stage c q input argv pgid x s
    stage_lem c q input argv pgid s x y z cq made zero_z from i1 out none_open room place =
        let (r, w, s1, piped, r_new, w_new, rw_ne, to_r, to_w, others, count, uses1) =
          law.pipe_lem s room in
        let s1_at : (d : ℕ) (f : OpenFile) → descriptor s d ≡ some f → descriptor s1 d ≡ some f =
          λ d f h.
            others d (λ e. ne-of_used k descriptors_left processes_left law s r d f r_new h (sym e))
              (λ e. ne-of_used k descriptors_left processes_left law s w d f w_new h (sym e))
            ∙ h in
        let no_other : (e p : ℕ) → e ≢ w → c ≤ p → descriptor s1 e ≢ some (write_end p) =
          λ e p ew cp is. elim (ℕ_discrete e r) [
            | yes er ↦ read-ne-write k descriptors_left processes_left law (rw er at is) to_r
            | no ner ↦ none_open e p cp (sym (others e ner ew) ∙ is)
          ] in
        let (pid, a, s2, spawned, lo, hi, same, uses2, args, zero_x, one_w, only) =
          spawn_proc_lem k descriptors_left processes_left law c q input w argv pgid s1 x cq
            (s1_at input x from) i1
            (ne-of_used k descriptors_left processes_left law s w 0 z w_new zero_z)
            (ne-of_used k descriptors_left processes_left law s w 1 y w_new out)
            (ne-of_used k descriptors_left processes_left law s w input x w_new from)
            (to_w ∙ ap (λ v. some (write_end v)) made) no_other (omega (arith, place, uses1.1)) in
        let ((gone, rest, count'), uses3) = law.close_lem w s2 in
        record {
          r = r;
          w = w;
          pid = pid;
          a = a;
          s1 = s1;
          s2 = s2;
          piped = piped;
          unused = r_new;
          spawned = spawned;
          small = hi;
          args = args;
          from = zero_x;
          to = one_w;
          only = only;
          kept = λ d f h.
              rest d (λ e. ne-of_used k descriptors_left processes_left law s w d f w_new h (sym e))
              ∙ same.0 d
              ∙ s1_at d f h;
          next = rest r rw_ne ∙ same.0 r ∙ to_r ∙ ap (λ v. some (read_end v)) made;
          closed = λ e p cp is. elim (ℕ_discrete e w) [
            | yes ew ↦ some-ne-none k descriptors_left processes_left law (rw ew at is) gone
            | no new ↦ no_other e p new cp (sym (same.0 e) ∙ sym (rest e new) ∙ is)
          ];
          made = count' ∙ same.1 ∙ count ∙ ap suc made;
          uses =
              (omega (arith, uses1.0, uses2.0, uses3.0), omega (arith, uses1.1, uses2.1, uses3.1));
        }

    stages-next :
        {c q : ℕ} {x : OpenFile} (front : List (List Bytes)) (original n input : ℕ)
        (last argv : List Bytes) (pgid : ℤ) (children : List (Child k)) (s : State)
        (t : Stage c q input argv pgid x s)
        → stages k original n (argv ∷ front) last input pgid children s
          ≡ stages k original n front last t.r
              (if eq_ℤ pgid (pos 0) then pos t.pid else pgid)
              (children ++ (t.a ∷ []))
              (close t.w t.s2)
    unfolding stages
    stages-next front original n input last argv pgid children s t =
        let not_failed : eq_ℤ (pos t.pid) (pos 99999999) ≡ false = ground (arith, t.small) in
        rw (t.piped, stages) (rw t.piped (rw (t.spawned, not_failed) refl))

    -- The loop from a command on, which is to read from `x`: with `q` pipes made so far.
    pub stages_lem :
        (front : List (List Bytes)) (c q original n input : ℕ) (last : List Bytes) (pgid : ℤ)
        (children : List (Child k)) (s : State) (x y z f0 : OpenFile)
        → c ≤ q
        → pipes s ≡ q
        → original ≢ 0
        → descriptor s 0 ≡ some z
        → descriptor s original ≡ some f0
        → descriptor s input ≡ some x
        → input ≢ 1
        → descriptor s 1 ≡ some y
        → NoWriter k c s
        → 2 * length front ≤ descriptors_left s
        → length front < processes_left s
        → (cs : List (Child k)) × (s' : State) × (stages k original n front last input pgid children
              s
            ≡ returned (pos 1) (children ++ cs) s')
          × (commands k cs ≡ front ++ (last ∷ []))
          × Wired k c q x y cs
          × (descriptor s' 0 ≡ some f0)
          × ((e : ℕ) (f : OpenFile)
              → e ≢ 0
              → e ≢ original
              → descriptor s e ≡ some f
              → descriptor s' e ≡ some f)
          × ((i : ℕ) → i < length front → (d : ℕ) × (descriptor s' d ≡ some (read_end (q + i))))
    unfolding stages
    stages_lem [] c q original n input last pgid children s x y z f0 cq made o0 zero_z kept from i1
          out none_open room place =
        let (a, s', run, args, zero_x, one_y, closed, back, rest) =
          last_stage_lem k descriptors_left processes_left law c original n input last pgid children
            s x y f0 o0 kept from out none_open (omega (arith, place)) in
        (
          a ∷ [],
          s',
          run,
          ap (λ v. v ∷ []) args,
          (zero_x, one_y, closed),
          back,
          (λ e f e0 eo is. rest e e0 eo ∙ is),
          λ i h. absurd (omega arith),
        )
    stages_lem (argv ∷ front) c q original n input last pgid children s x y z f0 cq made o0 zero_z
          kept from i1 out none_open room place =
        let t =
          stage_lem c q input argv pgid s x y z cq made zero_z from i1 out none_open
            (omega (arith, room)) (omega (arith, place)) in
        let (cs, s', run, all, wired, back, keeps, opened) =
          stages_lem front c (suc q) original n t.r last
            (if eq_ℤ pgid (pos 0) then pos t.pid else pgid) (children ++ (t.a ∷ []))
            (close t.w t.s2) (read_end q) y z f0 (omega arith) t.made o0 (t.kept 0 z zero_z)
            (t.kept original f0 kept) t.next
            (ne-of_used k descriptors_left processes_left law s t.r 1 y t.unused out)
            (t.kept 1 y out) t.closed (omega (arith, room, t.uses.0))
            (omega (arith, place, t.uses.1)) in
        (
          t.a ∷ cs,
          s',
          stages-next front original n input last argv pgid children s t
              ∙ run
              ∙ ap (λ v. returned (pos 1) v s') (append_assoc children (t.a ∷ []) cs),
          (rw (t.args, all) refl),
          Wired-cons c q x y t.a cs t.from t.to t.only wired,
          back,
          (λ e f e0 eo is. keeps e f e0 eo (t.kept e f is)),
          λ i h. elim (ℕ_discrete i 0) [
            | yes i0 ↦
                let here : q + i ≡ q = omega (arith, i0) in
                (
                  t.r,
                  keeps t.r (read_end q)
                        (ne-of_used k descriptors_left processes_left law s t.r 0 z t.unused zero_z)
                        (ne-of_used k descriptors_left processes_left law s t.r original f0 t.unused
                          kept)
                        t.next
                      ∙ rw here refl,
                )
            | no ne ↦
                let (d, is) = opened (i - 1) (omega (arith, ne, h)) in
                let here : suc q + (i - 1) ≡ q + i = omega (arith, ne) in (d, rw here at is)
          ],
        )
