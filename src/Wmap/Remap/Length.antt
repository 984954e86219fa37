-- ===== src/Wmap/Remap/Length.antt =====
-- A mapping that `mywremap` lengthens where it stands.
use schoolwork.Common.{
  ℕ, zero, suc, ◌+◌, ◌^◌, ◌≤◌, ◌<◌, ◌≡◌, refl, sym, ap, subst, Bool, true, false, ◌&&◌, ◌||◌, some,
  arith, ltb, leb, ◌==◌, length,
}
use native.Mathlib.Decide.{ℕ_discrete, dec_lt}
use schoolwork.Wmap.Vma.{max_vmaps, kernbase, Vma, Vmas, Mappings, put_vma, plus}
use schoolwork.Wmap.Pages.{Pages}
use schoolwork.Wmap.Order.{IsMapping, IsValid, sorted_lt, put_same, put_other}
use schoolwork.Wmap.Remap.{find_exact, expand_vma, can_expand, mywremap, remapped_at}

exact : Vma → ℕ → ℕ → Bool
exact v addr length = v.mapped == 1 && v.addr == addr && v.length == length

find_exact_hit :
    (v : Vmas) (addr length n i k : ℕ)
    → i ≤ k
    → k < i + n
    → exact (v k) addr length ≡ true
    → ((j : ℕ) → j < k → exact (v j) addr length ≡ false)
    → find_exact v addr length n i ≡ some k
unfolding find_exact exact
find_exact_hit v addr length zero i k lo hi yes_k before = absurd (omega arith)
find_exact_hit v addr length (suc n) i k lo hi yes_k before = elim (ℕ_discrete k i) [
  | yes e ↦
      let hit : exact (v i) addr length ≡ true =
        subst (λ x. exact (v x) addr length ≡ true) e yes_k in
      rw hit (ap some (sym e))
  | no ne ↦
      rw (before i (omega arith))
        (find_exact_hit v addr length n (i + 1) k (omega arith) (omega arith) yes_k before)
]

find_exact-IsValid :
    {p : Mappings} (v : IsValid p) (k : ℕ)
    → k < p.total_vmaps
    → find_exact p.vmas (p.vmas k).addr (p.vmas k).length max_vmaps 0 ≡ some k
unfolding exact
find_exact-IsValid {p} v k lt =
    let m = v.mappings k lt in
    find_exact_hit p.vmas (p.vmas k).addr (p.vmas k).length max_vmaps 0 k (omega arith)
      (omega (arith, v.total)) (ground arith)
      (λ j h. let mj = v.mappings j (omega arith) in let s = sorted_lt v j k h lt in ground arith)

module _ {p : Mappings} (valid : IsValid p) (k newsize : ℕ) (lt : k < p.total_vmaps)
    (pos : 0 < newsize) where
  -- The array with a longer mapping is valid where it stays below the next one and in the region.
  expand_vma-IsValid :
      (p.vmas k).addr + newsize ≤ kernbase
      → (suc k < p.total_vmaps → (p.vmas k).addr + newsize ≤ (p.vmas (suc k)).addr)
      → IsValid (expand_vma p k newsize)
  unfolding expand_vma
  expand_vma-IsValid high next = record {
    total = valid.total;
    mappings = λ j h. elim (ℕ_discrete k j) [
      | yes e ↦
          subst (λ x. IsMapping (put_vma p.vmas k longer x)) e
            (rw (put_same p.vmas k longer) (
              let m = valid.mappings k lt in
              record {
                is_mapped = m.is_mapped;
                low = m.low;
                aligned = m.aligned;
                positive = pos;
                ends = omega arith;
                high = omega arith;
              }))
      | no ne ↦ rw (put_other p.vmas k j longer ne) (valid.mappings j h)
    ];
    sorted = λ j h. elim (ℕ_discrete k j) [
      | yes e ↦ at_longer j e h
      | no ne ↦ elim (ℕ_discrete k (suc j)) [
        | yes e ↦ before_longer j e h
        | no ne' ↦
            rw (put_other p.vmas k j longer ne, put_other p.vmas k (suc j) longer ne')
              (valid.sorted j h)
      ]
    ];
    unmapped = λ j h. rw (put_other p.vmas k j longer (λ e. omega arith)) (valid.unmapped j h);
    blank = λ j h. rw (put_other p.vmas k j longer (λ e. omega arith)) (valid.blank j h);
  }
    where
      longer : Vma
      longer = record (p.vmas k) { length = newsize; end_addr = plus (p.vmas k).addr newsize }

      at_longer :
          (j : ℕ)
          → k ≡ j
          → suc j < p.total_vmaps
          → (put_vma p.vmas k longer j).end_addr ≤ (put_vma p.vmas k longer (suc j)).addr
      at_longer j e h =
          let start : (p.vmas (suc k)).addr ≡ (p.vmas (suc j)).addr =
            ap (λ x. (p.vmas (suc x)).addr) e in
          let n = next (omega arith) in
          rw (put_other p.vmas k (suc j) longer (λ q. omega arith)) (
            subst (λ x. (put_vma p.vmas k longer x).end_addr ≤ (p.vmas (suc j)).addr) e
              (rw (put_same p.vmas k longer) (omega arith)))

      before_longer :
          (j : ℕ)
          → k ≡ suc j
          → suc j < p.total_vmaps
          → (put_vma p.vmas k longer j).end_addr ≤ (put_vma p.vmas k longer (suc j)).addr
      before_longer j e h = rw (put_other p.vmas k j longer (λ q. omega arith)) (
          subst (λ x. (p.vmas j).end_addr ≤ (put_vma p.vmas k longer x).addr) e
            (rw (put_same p.vmas k longer)
              (subst (λ x. (p.vmas j).end_addr ≤ (p.vmas x).addr) (sym e) (valid.sorted j h))))

  -- Both sizes as an `int`, of which the new one is the larger.
  module _ {W : Type 0} (os : Pages W) (w : W) (flags : ℕ) (small : newsize < 2 ^ 31)
      (longer : (p.vmas k).length ≤ newsize) where
    grows :
        can_expand p k (p.vmas k).addr newsize ≡ true
        → mywremap os p w (p.vmas k).addr (p.vmas k).length newsize flags
          ≡ remapped_at (p.vmas k).addr (expand_vma p k newsize) w
    unfolding mywremap
    grows room =
        let positive : (newsize == 0 || leb (2 ^ 31) newsize) ≡ false = ground arith in
        let grown : (ltb (p.vmas k).length (2 ^ 31) && ltb newsize (p.vmas k).length) ≡ false =
          ground arith in
        rw (positive, find_exact-IsValid valid k lt) (rw grown (rw room refl))

    -- A mapping that is to be longer and is not the sixteenth, with its own address and length
    -- given, where the new range ends in the region and below the start of the next mapping, if
    -- there is one, with a gap of a byte at least: `mywremap` returns its address, the array has
    -- the new length, and it is valid.
    pub mywremap_expand :
        suc k < max_vmaps
        → (p.vmas k).addr + newsize ≤ kernbase
        → (suc k < p.total_vmaps → (p.vmas k).addr + newsize < (p.vmas (suc k)).addr)
        → (mywremap os p w (p.vmas k).addr (p.vmas k).length newsize flags
            ≡ remapped_at (p.vmas k).addr (expand_vma p k newsize) w)
          × IsValid (expand_vma p k newsize)
    mywremap_expand in_array high next = (
      grows (elim (dec_lt (suc k) p.total_vmaps) [
        | yes h ↦
            let n = next h in
            let e : suc k ≡ k + 1 = omega arith in
            let n' : (p.vmas k).addr + newsize < (p.vmas (k + 1)).addr =
              subst (λ x. (p.vmas k).addr + newsize < (p.vmas x).addr) e n in
            ground arith
        | no h ↦ rw (valid.unmapped (k + 1) (omega arith)) refl
      ]),
      expand_vma-IsValid high (λ h. omega (arith, next h)),
    )

    -- The last mapping may be made to end past the region: `mywremap` succeeds with any length.
    pub mywremap_past_end :
        suc k ≡ p.total_vmaps
        → kernbase < (p.vmas k).addr + newsize
        → (mywremap os p w (p.vmas k).addr (p.vmas k).length newsize flags
            ≡ remapped_at (p.vmas k).addr (expand_vma p k newsize) w)
          × (kernbase < ((expand_vma p k newsize).vmas k).end_addr)
    unfolding expand_vma
    mywremap_past_end last over =
        let m = valid.mappings k lt in
        let ends = m.ends in
        let high = m.high in
        let sum : plus (p.vmas k).addr newsize ≡ (p.vmas k).addr + newsize = omega arith in
        (
          grows (rw (valid.unmapped (k + 1) (omega arith)) refl),
          rw
              (
                put_same p.vmas k (record (p.vmas k) {
                  length = newsize;
                  end_addr = plus (p.vmas k).addr newsize;
                }),
                sum,
              )
              over,
        )
