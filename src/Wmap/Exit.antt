-- ===== src/Wmap/Exit.antt =====
-- The loop of `exit` over the mappings of a process.
use schoolwork.Common.{
  ℕ, zero, suc, ◌+◌, ◌-◌, ◌*◌, ◌/◌, ◌≤◌, ◌<◌, ◌≡◌, refl, ap, ◌∙◌, subst, ◌≢◌, ◌⊎◌, inl, inr, some,
  arith, ltb, if◌then◌else◌,
}
use native.Mathlib.Decide.{ℕ_discrete, dec_lt}
use schoolwork.Wmap.Vma.{max_vmaps, pgsize, Vma, Mappings}
use schoolwork.Wmap.Pages.{Pages, pages, mywunmap, exit_mappings, unmapped}
use schoolwork.Wmap.Order.{IsMapping, IsValid, sorted_lt}
use schoolwork.Wmap.Remove.{TakenOut}
use schoolwork.Wmap.Unmap.{IsPageTable, HasEntry, mywunmap_lem, mywunmap_low}

-- The page table has an entry for every page of every mapping.
abbrev pub HasEntries : {W : Type 0} → Pages W → Mappings → W → Type 0
HasEntries os p w =
    (k : ℕ)
    → k < p.total_vmaps
    → (m : ℕ) → m < pages (p.vmas k).length
    → HasEntry os w ((p.vmas k).addr + m * pgsize)

pages-IsMapping : (a : Vma) → IsMapping a → pages a.length ≡ (a.length - 1) / pgsize + 1
pages-IsMapping a m = ground arith

-- The pages of two mappings are different.
pages_apart :
    (a b : Vma) (m k : ℕ)
    → IsMapping a
    → IsMapping b
    → (a.end_addr ≤ b.addr) ⊎ (b.end_addr ≤ a.addr)
    → m < pages a.length
    → k < pages b.length
    → a.addr / pgsize + m ≢ (b.addr + k * pgsize) / pgsize
pages_apart a b m k ma mb h lm lk e =
    let la : m < (a.length - 1) / pgsize + 1 = subst (λ x. m < x) (pages-IsMapping a ma) lm in
    let lb : k < (b.length - 1) / pgsize + 1 = subst (λ x. k < x) (pages-IsMapping b mb) lk in
    elim h [ inl le ↦ omega arith | inr ge ↦ omega arith ]

-- Where a mapping that is left comes from.
left_from :
    {p q : Mappings} (i k : ℕ)
    → TakenOut p q i
    → p.total_vmaps < max_vmaps
    → k < q.total_vmaps
    → (j : ℕ) × (j < p.total_vmaps)
      × (j ≢ i)
      × ((q.vmas k).addr ≡ (p.vmas j).addr)
      × ((q.vmas k).length ≡ (p.vmas j).length)
      × (j ≡ (if ltb k i then k else suc k))
left_from {p} {q} i k t room lt = elim (dec_lt k i) [
  | yes lo ↦ (
    k,
    omega (arith, t.one_less),
    (λ e. omega arith),
    ap (λ x. x.addr) (t.below k lo),
    ap (λ x. x.length) (t.below k lo),
    ground arith,
  )
  | no hi ↦
      let e = t.above k (omega arith) (omega (arith, t.one_less)) in
      (
        suc k,
        omega (arith, t.one_less),
        (λ e. omega arith),
        ap (λ x. x.addr) e,
        ap (λ x. x.length) e,
        ground arith,
      )
]

either_order :
    {p : Mappings} (v : IsValid p) (i j : ℕ)
    → i < p.total_vmaps
    → j < p.total_vmaps
    → j ≢ i
    → ((p.vmas i).end_addr ≤ (p.vmas j).addr) ⊎ ((p.vmas j).end_addr ≤ (p.vmas i).addr)
either_order v i j hi hj ne = elim (dec_lt i j) [
  | yes lt ↦ inl (sorted_lt v i j lt hj)
  | no ge ↦ inr (sorted_lt v j i (omega arith) hi)
]

TakenOut-ref :
    {p q : Mappings} (i : ℕ)
    → TakenOut p q i
    → ((k : ℕ) → (p.vmas k).ref ≡ 0)
    → (k : ℕ) → (q.vmas k).ref ≡ 0
TakenOut-ref {p} {q} i t no_ref k = elim (dec_lt k i) [
  | yes lo ↦ ap (λ x. x.ref) (t.below k lo) ∙ no_ref k
  | no hi ↦ elim (dec_lt k 15) [
    | yes lt ↦ ap (λ x. x.ref) (t.above k (omega arith) lt) ∙ no_ref (suc k)
    | no ge ↦ elim (ℕ_discrete 15 k) [
      | yes e ↦ subst (λ x. (q.vmas x).ref ≡ 0) e (ap (λ x. x.ref) t.last ∙ no_ref 15)
      | no ne ↦ ap (λ x. x.ref) (t.beyond k (omega arith)) ∙ no_ref k
    ]
  ]
]

module _ {W : Type 0} (os : Pages W) (laws : IsPageTable os) where
  -- A state in the loop.
  record IsAlive (q : Mappings) (w : W) : Type 0 where
    valid : IsValid q
    room : q.total_vmaps < max_vmaps
    no_ref : (k : ℕ) → (q.vmas k).ref ≡ 0
    entries : HasEntries os q w

  unmap-IsAlive :
      (q : Mappings) (w : W) (i : ℕ)
      → IsAlive q w
      → i < q.total_vmaps
      → (q' : Mappings) × (w' : W) × (mywunmap os q w (q.vmas i).addr ≡ unmapped q' w')
        × IsAlive q' w'
        × TakenOut q q' i
  unmap-IsAlive q w i s lt =
      let (q', w', run, v, t, gone, others) =
        mywunmap_lem os laws s.valid s.room i lt w (s.entries i lt) in
      (
        q',
        w',
        run,
        record {
          valid = v;
          room = omega (arith, t.one_less, s.room);
          no_ref = TakenOut-ref i t s.no_ref;
          entries = λ k h m hm.
              let (j, hj, ne, ea, el, ej) = left_from i k t s.room h in
              let hm' : m < pages (q.vmas j).length = subst (λ x. m < pages x) el hm in
              let (e, has) = s.entries j hj m hm' in
              let same = others ((q.vmas j).addr + m * pgsize) (λ n hn.
                pages_apart (q.vmas i) (q.vmas j) n m (s.valid.mappings i lt)
                  (s.valid.mappings j hj) (either_order s.valid i j lt hj ne) hn hm') in
              (e, rw ea (same ∙ has));
        },
        t,
      )

  -- Past the last mapping the loop changes nothing.
  exit_mappings_idle :
      (q : Mappings) (w : W) (n i : ℕ)
      → IsAlive q w
      → q.total_vmaps ≤ i
      → exit_mappings os q w n i ≡ some (q, w)
  unfolding exit_mappings
  exit_mappings_idle q w zero i s le = refl
  exit_mappings_idle q w (suc n) i s le =
      rw
        (
          s.no_ref i,
          mywunmap_low os laws s.valid w (q.vmas i).addr (omega (arith, s.valid.blank i le)),
          exit_mappings,
        )
        (exit_mappings_idle q w n (i + 1) s (omega arith))

  -- The mappings that are left before the round `i`.
  record IsHalfway (p q : Mappings) (i : ℕ) : Type 0 where
    passed : (k : ℕ) → k < i → k < q.total_vmaps → (q.vmas k).addr ≡ (p.vmas (2 * k + 1)).addr
    ahead : (k : ℕ) → i ≤ k → k < q.total_vmaps → (q.vmas k).addr ≡ (p.vmas (k + i)).addr
    rounds : q.total_vmaps + i ≡ p.total_vmaps
    not_past : i ≤ q.total_vmaps + 1

  IsHalfway-step :
      {p q q' : Mappings} (i : ℕ)
      → q.total_vmaps < max_vmaps
      → i < q.total_vmaps
      → IsHalfway p q i
      → TakenOut q q' i
      → IsHalfway p q' (i + 1)
  IsHalfway-step {p} {q} {q'} i room lt h t = record {
    passed = λ k lo hi. elim (ℕ_discrete i k) [
      | yes e ↦
          ap (λ x. x.addr) (t.above k (omega arith) (omega (arith, t.one_less)))
          ∙ h.ahead (suc k) (omega arith) (omega (arith, t.one_less))
          ∙ ap (λ x. (p.vmas x).addr) (omega arith)
      | no ne ↦
          ap (λ x. x.addr) (t.below k (omega arith))
          ∙ h.passed k (omega arith) (omega (arith, t.one_less))
    ];
    ahead = λ k lo hi.
        ap (λ x. x.addr) (t.above k (omega arith) (omega (arith, t.one_less)))
        ∙ h.ahead (suc k) (omega arith) (omega (arith, t.one_less))
        ∙ ap (λ x. (p.vmas x).addr) (omega arith);
    rounds = omega (arith, t.one_less, h.rounds);
    not_past = omega (arith, t.one_less);
  }

  -- What is left at the end.
  record IsHalved (p q : Mappings) : Type 0 where
    half : q.total_vmaps ≡ p.total_vmaps / 2
    every_other : (k : ℕ) → k < q.total_vmaps → (q.vmas k).addr ≡ (p.vmas (2 * k + 1)).addr

  IsHalfway-end : {p q : Mappings} (i : ℕ) → IsHalfway p q i → q.total_vmaps ≤ i → IsHalved p q
  IsHalfway-end i h le = record {
    half = omega (arith, h.rounds, h.not_past);
    every_other = λ k lt. h.passed k (omega arith) lt;
  }

  exit_mappings-IsHalfway :
      (p q : Mappings) (w : W) (n i : ℕ)
      → IsAlive q w
      → IsHalfway p q i
      → i + n ≡ p.total_vmaps
      → (r : Mappings) × (w' : W) × (exit_mappings os q w n i ≡ some (r, w')) × IsHalved p r
  unfolding exit_mappings
  exit_mappings-IsHalfway p q w zero i s h e =
      (q, w, refl, IsHalfway-end i h (omega (arith, h.rounds)))
  exit_mappings-IsHalfway p q w (suc n) i s h e = elim (dec_lt i q.total_vmaps) [
    | no ge ↦
        (q, w, exit_mappings_idle q w (suc n) i s (omega arith), IsHalfway-end i h (omega arith))
    | yes lt ↦
        let (q', w', run, s', t) = unmap-IsAlive q w i s lt in
        let (r, w2, rest, done) =
          exit_mappings-IsHalfway p q' w' n (i + 1) s' (IsHalfway-step i s.room lt h t)
            (omega arith) in
        (r, w2, rw (s.no_ref i, run, exit_mappings) rest, done)
  ]

-- A process with a valid array that is not full, all its mappings its own and their pages in the
-- page table: after the loop of `exit` half of its mappings are left, every other one.
pub exit_leaves_half :
    {W : Type 0} (os : Pages W) (laws : IsPageTable os) {p : Mappings} (valid : IsValid p) (w : W)
    → p.total_vmaps < max_vmaps
    → ((k : ℕ) → (p.vmas k).ref ≡ 0)
    → HasEntries os p w
    → (q : Mappings) × (w' : W) × (exit_mappings os p w p.total_vmaps 0 ≡ some (q, w'))
      × (q.total_vmaps ≡ p.total_vmaps / 2)
      × ((k : ℕ) → k < q.total_vmaps → (q.vmas k).addr ≡ (p.vmas (2 * k + 1)).addr)
exit_leaves_half os laws {p} valid w room no_ref entries =
    let (q, w', run, done) =
      exit_mappings-IsHalfway os laws p p w p.total_vmaps 0
        (record { valid = valid; room = room; no_ref = no_ref; entries = entries })
        (record {
          passed = λ k lo hi. absurd (omega arith);
          ahead = λ k lo hi. ap (λ x. (p.vmas x).addr) (omega arith);
          rounds = omega arith;
          not_past = omega arith;
        })
        (omega arith) in
    (q, w', run, done.half, done.every_other)
