-- ===== src/Wmap/Order.antt =====
-- The order of the mappings in the array, and that it is kept when one is put in.
use schoolwork.Common.{
  ℕ, zero, suc, ◌+◌, ◌%◌, ◌≤◌, ◌<◌, ◌≡◌, refl, sym, ◌∙◌, subst, ◌≢◌, ◌⊎◌, inl, inr, arith,
}
use mathlib.Core.Path.{ap₂}
use native.Mathlib.Decide.{ℕ_discrete, dec_lt}
use schoolwork.Wmap.Vma.{
  max_vmaps, wmap_base, kernbase, pgsize, Vma, Vmas, Mappings, put_vma, copy_vma_struct,
  shift_right,
}

-- A mapping in the user's part of the address space, whole and at the start of a page.
pub record IsMapping (a : Vma) : Type 0 where
  pub is_mapped : a.mapped ≡ 1
  pub low : wmap_base ≤ a.addr
  pub aligned : a.addr % pgsize ≡ 0
  pub positive : 0 < a.length
  pub ends : a.end_addr ≡ a.addr + a.length
  pub high : a.end_addr ≤ kernbase

-- The first `total_vmaps` entries are mappings in the order of their addresses, none overlapping
-- the next, and the others are blank.
pub record IsValid (p : Mappings) : Type 0 where
  pub total : p.total_vmaps ≤ max_vmaps
  pub mappings : (k : ℕ) → k < p.total_vmaps → IsMapping (p.vmas k)
  pub sorted : (k : ℕ) → suc k < p.total_vmaps → (p.vmas k).end_addr ≤ (p.vmas (suc k)).addr
  pub unmapped : (k : ℕ) → p.total_vmaps ≤ k → (p.vmas k).mapped ≡ 0
  pub blank : (k : ℕ) → p.total_vmaps ≤ k → (p.vmas k).addr ≡ 0

-- The entries from `j` on, below `n`, have moved up by one.
pub record Shifted (v : Vmas) (j n : ℕ) (w : Vmas) : Type 0 where
  pub below : (k : ℕ) → k ≤ j → w k ≡ v k
  pub moved : (k : ℕ) → j ≤ k → k < n → w (suc k) ≡ copy_vma_struct (v (suc k)) (v k)
  pub above : (k : ℕ) → n < k → w k ≡ v k

-- The order holds for entries that are not next to each other.
pub sorted_lt :
    {p : Mappings} (v : IsValid p) (k i : ℕ)
    → k < i
    → i < p.total_vmaps
    → (p.vmas k).end_addr ≤ (p.vmas i).addr
sorted_lt v k zero lo hi = absurd (omega arith)
sorted_lt {p} v k (suc i) lo hi = elim (ℕ_discrete k i) [
  | yes e ↦ rw e (v.sorted i hi)
  | no ne ↦
      let m = v.mappings i (omega arith) in
      omega (arith, sorted_lt v k i (omega arith) (omega arith), m.ends, v.sorted i hi)
]

pub put_same : (v : Vmas) (i : ℕ) (a : Vma) → put_vma v i a i ≡ a
put_same v i a = ground arith

pub put_other : (v : Vmas) (i j : ℕ) (a : Vma) → i ≢ j → put_vma v i a j ≡ v j
put_other v i j a ne = ground arith

pub shift_right-Shifted : (v : Vmas) (at n : ℕ) → Shifted v at (at + n) (shift_right v at n)
unfolding shift_right
shift_right-Shifted v at zero = record {
  below = λ k le. refl;
  moved = λ k lo hi. absurd (omega arith);
  above = λ k lt. refl;
}
shift_right-Shifted v at (suc n) =
    let rest = shift_right-Shifted v1 at n in
    record {
      below = λ k le. rest.below k le ∙ put_other v (at + suc n) k _ (λ e. omega arith);
      moved = λ k lo hi. elim (ℕ_discrete k (at + n)) [
        | yes e ↦ last k e rest
        | no ne ↦ rest.moved k lo (omega arith) ∙ inner k (omega arith)
      ];
      above = λ k lt. rest.above k (omega arith) ∙ put_other v (at + suc n) k _ (λ e. omega arith);
    }
  where
    v1 : Vmas
    v1 = put_vma v (at + suc n) (copy_vma_struct (v (at + suc n)) (v (at + n)))

    inner :
        (k : ℕ)
        → k < at + n
        → copy_vma_struct (v1 (suc k)) (v1 k) ≡ copy_vma_struct (v (suc k)) (v k)
    inner k lt =
        ap₂ copy_vma_struct (put_other v (at + suc n) (suc k) _ (λ e. omega arith))
          (put_other v (at + suc n) k _ (λ e. omega arith))

    last :
        (k : ℕ)
        → k ≡ at + n
        → Shifted v1 at (at + n) (shift_right v1 at n)
        → shift_right v1 at n (suc k) ≡ copy_vma_struct (v (suc k)) (v k)
    last k e rest =
        let e' : at + suc n ≡ suc k = omega arith in
        rest.above (suc k) (omega arith) ∙ rw (← e', ← e) (put_same v (at + suc n) _)

-- Where an entry of the array comes from when one is put in at `j`.
entry_cases :
    (v w : Vmas) (j n k : ℕ) (a : Vma)
    → Shifted v j n w
    → j ≤ n
    → ((k < j) × (put_vma w j a k ≡ v k))
      ⊎ (((k ≡ j) × (put_vma w j a k ≡ a))
          ⊎ (((m : ℕ) × (k ≡ suc m)
                × (j ≤ m)
                × (m < n)
                × (put_vma w j a k ≡ copy_vma_struct (v k) (v m)))
              ⊎ ((n < k) × (put_vma w j a k ≡ v k))))
entry_cases v w j n k a s le = elim (dec_lt k j) [
  | yes lt ↦ inl (lt, put_other w j k a (λ e. omega arith) ∙ s.below k (omega arith))
  | no ge ↦ elim (ℕ_discrete k j) [
    | yes e ↦ inr (inl (e, rw e (put_same w j a)))
    | no ne ↦ elim (dec_lt n k) [
      | yes up ↦ inr (inr (inr (up, put_other w j k a (λ e. ne (sym e)) ∙ s.above k up)))
      | no lo ↦ inr (inr (inl (shifted k (omega arith) (omega arith))))
    ]
  ]
]
  where
    shifted :
        (k : ℕ)
        → j < k
        → k ≤ n
        → (m : ℕ) × (k ≡ suc m)
          × (j ≤ m)
          × (m < n)
          × (put_vma w j a k ≡ copy_vma_struct (v k) (v m))
    shifted zero lo hi = absurd (omega arith)
    shifted (suc m) lo hi = (
      m,
      refl,
      omega arith,
      omega arith,
      put_other w j (suc m) a (λ e. omega arith) ∙ s.moved m (omega arith) (omega arith),
    )

pub IsMapping-copy : (a b : Vma) → IsMapping b → IsMapping (copy_vma_struct a b)
IsMapping-copy a b h = record {
  is_mapped = h.is_mapped;
  low = h.low;
  aligned = h.aligned;
  positive = h.positive;
  ends = h.ends;
  high = h.high;
}

-- An entry with its place in the order.
module _ {p : Mappings} (valid : IsValid p) (room : p.total_vmaps < max_vmaps) (j : ℕ) (w : Vmas)
    (a : Vma) (le : j ≤ p.total_vmaps) (s : Shifted p.vmas j p.total_vmaps w) (new : IsMapping a)
    (before : (k : ℕ) → suc k ≡ j → (p.vmas k).end_addr ≤ a.addr)
    (after : j < p.total_vmaps → a.end_addr ≤ (p.vmas j).addr) where
  open valid use {mappings, sorted, unmapped, blank}

  result-IsMapping : (k : ℕ) → k < p.total_vmaps + 1 → IsMapping (put_vma w j a k)
  result-IsMapping k lt = elim (entry_cases p.vmas w j p.total_vmaps k a s le) [
    | inl (lo, e) ↦ subst IsMapping (sym e) (mappings k (omega arith))
    | inr (inl (eq, e)) ↦ subst IsMapping (sym e) new
    | inr (inr (inl (m, q, lo, hi, e))) ↦
        subst IsMapping (sym e) (IsMapping-copy (p.vmas k) (p.vmas m) (mappings m hi))
    | inr (inr (inr (up, e))) ↦ absurd (omega arith)
  ]

  result_sorted :
      (k : ℕ)
      → suc k < p.total_vmaps + 1
      → (put_vma w j a k).end_addr ≤ (put_vma w j a (suc k)).addr
  result_sorted k lt = elim (entry_cases p.vmas w j p.total_vmaps k a s le) [
    | inl (lo, e) ↦ elim (entry_cases p.vmas w j p.total_vmaps (suc k) a s le) [
      | inl (lo', e') ↦ rw (e, e') (sorted k (omega arith))
      | inr (inl (eq, e')) ↦ rw (e, e') (before k eq)
      | inr (inr (inl (m, q, lo', hi, e'))) ↦ absurd (omega arith)
      | inr (inr (inr (up, e'))) ↦ absurd (omega arith)
    ]
    | inr (inl (eq, e)) ↦ elim (entry_cases p.vmas w j p.total_vmaps (suc k) a s le) [
      | inl (lo', e') ↦ absurd (omega arith)
      | inr (inl (eq', e')) ↦ absurd (omega arith)
      | inr (inr (inl (m, q, lo', hi, e'))) ↦
          let jm : j ≡ m = omega arith in
          rw (e, e') (subst (λ x. a.end_addr ≤ (p.vmas x).addr) jm (after (omega arith)))
      | inr (inr (inr (up, e'))) ↦ absurd (omega arith)
    ]
    | inr (inr (inl (m, q, lo, hi, e))) ↦
        elim (entry_cases p.vmas w j p.total_vmaps (suc k) a s le) [
          | inl (lo', e') ↦ absurd (omega arith)
          | inr (inl (eq', e')) ↦ absurd (omega arith)
          | inr (inr (inl (m', q', lo', hi', e'))) ↦
              let next : m' ≡ suc m = omega arith in
              rw (e, e')
                (subst (λ x. (p.vmas m).end_addr ≤ (p.vmas x).addr) (sym next)
                  (sorted m (omega arith)))
          | inr (inr (inr (up, e'))) ↦ absurd (omega arith)
        ]
    | inr (inr (inr (up, e))) ↦ absurd (omega arith)
  ]

  result_beyond : (k : ℕ) → p.total_vmaps + 1 ≤ k → put_vma w j a k ≡ p.vmas k
  result_beyond k h = elim (entry_cases p.vmas w j p.total_vmaps k a s le) [
    | inl (lo, e) ↦ e
    | inr (inl (eq, e)) ↦ absurd (omega arith)
    | inr (inr (inl (m, q, lo, hi, e))) ↦ absurd (omega arith)
    | inr (inr (inr (up, e))) ↦ e
  ]

  -- The array with a mapping put in at its place is valid.
  pub placed-IsValid : IsValid (record { vmas = put_vma w j a; total_vmaps = p.total_vmaps + 1 })
  placed-IsValid = record {
    total = omega arith;
    mappings = result-IsMapping;
    sorted = result_sorted;
    unmapped = λ k h. rw (result_beyond k h) (unmapped k (omega arith));
    blank = λ k h. rw (result_beyond k h) (blank k (omega arith));
  }
