-- ===== src/Wmap/Remove.antt =====
-- The array of mappings when one is taken out.
use schoolwork.Common.{
  ℕ, zero, suc, ◌+◌, ◌-◌, ◌≤◌, ◌<◌, ◌≡◌, refl, sym, ap, ◌∙◌, subst, ◌≢◌, none, some, arith, ==_iff,
}
use mathlib.Core.Path.{ap₂}
use native.Mathlib.Decide.{ℕ_discrete, dec_lt}
use schoolwork.Wmap.Vma.{max_vmaps, wmap_base, Vma, Vmas, Mappings, put_vma, copy_vma_struct}
use schoolwork.Wmap.Pages.{find_mapped, shift_left, remove_vma}
use schoolwork.Wmap.Order.{IsMapping, IsValid, IsMapping-copy, sorted_lt, put_same, put_other}

-- The entries from `k` on, for `n` of them, have moved down by one.
record ShiftedDown (v : Vmas) (k n : ℕ) (w : Vmas) : Type 0 where
  below : (j : ℕ) → j < k → w j ≡ v j
  moved : (j : ℕ) → k ≤ j → j < k + n → w j ≡ copy_vma_struct (v j) (v (suc j))
  above : (j : ℕ) → k + n ≤ j → w j ≡ v j

shift_left-ShiftedDown : (v : Vmas) (k n : ℕ) → ShiftedDown v k n (shift_left v k n)
unfolding shift_left
shift_left-ShiftedDown v k zero = record {
  below = λ j lt. refl;
  moved = λ j lo hi. absurd (omega arith);
  above = λ j ge. refl;
}
shift_left-ShiftedDown v k (suc n) =
    let rest = shift_left-ShiftedDown v1 (suc k) n in
    record {
      below = λ j lt. rest.below j (omega arith) ∙ other j (λ e. omega arith);
      moved = λ j lo hi. elim (ℕ_discrete k j) [
        | yes e ↦
            rest.below j (omega arith)
            ∙ subst (λ x. v1 x ≡ copy_vma_struct (v x) (v (suc x))) e (put_same v k _)
        | no ne ↦
            rest.moved j (omega arith) (omega arith)
            ∙ ap₂ copy_vma_struct (other j ne) (other (suc j) (λ e. omega arith))
      ];
      above = λ j ge. rest.above j (omega arith) ∙ other j (λ e. omega arith);
    }
  where
    v1 : Vmas
    v1 = put_vma v k (copy_vma_struct (v k) (v (suc k)))

    other : (j : ℕ) → k ≢ j → v1 j ≡ v j
    other j ne = put_other v k j _ ne

-- Where an entry stands after the mapping at `i` has been taken out.
pub record TakenOut (p q : Mappings) (i : ℕ) : Type 0 where
  pub one_less : q.total_vmaps + 1 ≡ p.total_vmaps
  pub below : (k : ℕ) → k < i → q.vmas k ≡ p.vmas k
  pub above :
      (k : ℕ) → i ≤ k → k < max_vmaps - 1 → q.vmas k ≡ copy_vma_struct (p.vmas k) (p.vmas (suc k))
  pub last : q.vmas (max_vmaps - 1) ≡ record (p.vmas (max_vmaps - 1)) { mapped = 0 }
  pub beyond : (k : ℕ) → max_vmaps ≤ k → q.vmas k ≡ p.vmas k

pub remove_vma-TakenOut :
    (p : Mappings) (i : ℕ) → i < p.total_vmaps → i < max_vmaps → TakenOut p (remove_vma p i) i
unfolding remove_vma
remove_vma-TakenOut p i lt room =
    let w = shift_left p.vmas i (max_vmaps - 1 - i) in
    let s = shift_left-ShiftedDown p.vmas i (max_vmaps - 1 - i) in
    record {
      one_less = omega arith;
      below = λ k h. put_other w 15 k _ (λ e. omega arith) ∙ s.below k h;
      above = λ k lo hi. put_other w 15 k _ (λ e. omega arith) ∙ s.moved k lo (omega arith);
      last =
          put_same w 15 _ ∙ ap {A = Vma} (λ x. record x { mapped = 0 }) (s.above 15 (omega arith));
      beyond = λ k h. put_other w 15 k _ (λ e. omega arith) ∙ s.above k (omega arith);
    }

-- With fewer than sixteen mappings, the array without one of them is valid.
pub TakenOut-IsValid :
    {p q : Mappings} (i : ℕ)
    → IsValid p
    → p.total_vmaps < max_vmaps
    → i < p.total_vmaps
    → TakenOut p q i
    → IsValid q
TakenOut-IsValid {p} {q} i v room lt t = record {
  total = omega (arith, t.one_less);
  mappings = λ k h. elim (dec_lt k i) [
    | yes lo ↦ subst IsMapping (sym (t.below k lo)) (v.mappings k (omega (arith, t.one_less)))
    | no hi ↦ subst IsMapping (sym (t.above k (omega arith) (omega (arith, t.one_less)))) (
        IsMapping-copy (p.vmas k) (p.vmas (suc k)) (v.mappings (suc k) (omega (arith, t.one_less))))
  ];
  sorted = λ k h. elim (dec_lt k i) [
    | yes lo ↦ elim (dec_lt (suc k) i) [
      | yes lo' ↦ rw (t.below k lo, t.below (suc k) lo') (v.sorted k (omega (arith, t.one_less)))
      | no hi' ↦
          rw (t.below k lo, t.above (suc k) (omega arith) (omega (arith, t.one_less)))
            (sorted_lt v k (suc (suc k)) (omega arith) (omega (arith, t.one_less)))
    ]
    | no hi ↦
        rw
          (
            t.above k (omega arith) (omega (arith, t.one_less)),
            t.above (suc k) (omega arith) (omega (arith, t.one_less)),
          )
          (v.sorted (suc k) (omega (arith, t.one_less)))
  ];
  unmapped = λ k h. elim (dec_lt k 15) [
    | yes lo ↦
        rw (t.above k (omega (arith, t.one_less)) lo)
          (v.unmapped (suc k) (omega (arith, t.one_less)))
    | no hi ↦ elim (ℕ_discrete 15 k) [
      | yes e ↦ subst (λ x. (q.vmas x).mapped ≡ 0) e (ap (λ x. x.mapped) t.last)
      | no ne ↦ rw (t.beyond k (omega arith)) (v.unmapped k (omega arith))
    ]
  ];
  blank = λ k h. elim (dec_lt k 15) [
    | yes lo ↦
        rw (t.above k (omega (arith, t.one_less)) lo) (v.blank (suc k) (omega (arith, t.one_less)))
    | no hi ↦ elim (ℕ_discrete 15 k) [
      | yes e ↦
          subst (λ x. (q.vmas x).addr ≡ 0) e (ap (λ x. x.addr) t.last ∙ v.blank 15 (omega arith))
      | no ne ↦ rw (t.beyond k (omega arith)) (v.blank k (omega arith))
    ]
  ];
}

find_mapped_hit :
    (v : Vmas) (addr n i k : ℕ)
    → i ≤ k
    → k < i + n
    → (v k).mapped ≡ 1
    → (v k).addr ≡ addr
    → ((j : ℕ) → j < k → (v j).addr ≢ addr)
    → find_mapped v addr n i ≡ some k
unfolding find_mapped
find_mapped_hit v addr zero i k lo hi m a before = absurd (omega arith)
find_mapped_hit v addr (suc n) i k lo hi m a before = elim (ℕ_discrete k i) [
  | yes e ↦
      let m' : (v i).mapped ≡ 1 = subst (λ x. (v x).mapped ≡ 1) e m in
      let a' : (v i).addr ≡ addr = subst (λ x. (v x).addr ≡ addr) e a in
      rw (m', (==_iff (v i).addr addr).1 a') (ap some (sym e))
  | no ne ↦ ground (
    arith,
    before i (omega arith),
    find_mapped_hit v addr n (i + 1) k (omega arith) (omega arith) m a before,
  )
]

find_mapped_miss :
    (v : Vmas) (addr n i : ℕ)
    → ((j : ℕ) → (v j).mapped ≡ 1 → (v j).addr ≢ addr)
    → find_mapped v addr n i ≡ none
unfolding find_mapped
find_mapped_miss v addr zero i no_such = refl
find_mapped_miss v addr (suc n) i no_such =
    ground (arith, no_such i, find_mapped_miss v addr n (i + 1) no_such)

-- The mapping at its address.
pub find_mapped-IsValid :
    {p : Mappings} (i : ℕ)
    → IsValid p
    → i < p.total_vmaps
    → find_mapped p.vmas (p.vmas i).addr max_vmaps 0 ≡ some i
find_mapped-IsValid {p} i v lt =
    find_mapped_hit p.vmas (p.vmas i).addr max_vmaps 0 i (omega arith) (omega (arith, v.total))
      (v.mappings i lt).is_mapped refl
      (λ j h. λ e.
        let m = v.mappings j (omega arith) in
        omega (arith, sorted_lt v j i h lt, m.ends, m.positive))

-- No mapping is at an address below the region.
pub find_mapped_low :
    {p : Mappings} (addr : ℕ)
    → IsValid p
    → addr < wmap_base
    → find_mapped p.vmas addr max_vmaps 0 ≡ none
find_mapped_low {p} addr v low = find_mapped_miss p.vmas addr max_vmaps 0 (λ j m e.
    elim (dec_lt j p.total_vmaps) [
      | yes lt ↦ omega (arith, (v.mappings j lt).low)
      | no ge ↦ omega (arith, v.unmapped j (omega arith))
    ])
