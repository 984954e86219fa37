-- ===== src/Wmap/Fixed.antt =====
-- `mywmap` with `MAP_FIXED`.
use schoolwork.Common.{
  ℕ, zero, suc, ◌+◌, ◌%◌, ◌^◌, ◌≤◌, ◌<◌, bit_and, ◌≡◌, refl, sym, ap, ◌∙◌, subst, ◌⊎◌, inl, inr,
  true, false, ◌&&◌, not, arith, ltb, ◌==◌, Bool-cases, length,
}
use mathlib.Core.Path.{ap₂}
use native.Mathlib.Decide.{ℕ_discrete, dec_lt}
use schoolwork.Wmap.Vma.{
  max_vmaps, wmap_base, kernbase, pgsize, Vma, Vmas, Mappings, put_vma, copy_vma_struct,
}
use schoolwork.Wmap.Place.{
  new_vma, insert_slot, overlaps, overlap_found, has_free, map_fixed_at, mywmap, mapped_at,
  map_private, map_shared, map_fixed,
}
use schoolwork.Wmap.Order.{
  IsMapping, IsValid, Shifted, sorted_lt, put_same, put_other, placed-IsValid,
}

-- The place for an address among the first `n` entries.
record Slot (v : Vmas) (addr n j : ℕ) : Type 0 where
  at_most : j ≤ n
  before : (k : ℕ) → suc k ≡ j → (v k).addr ≤ addr
  after : (k : ℕ) → j ≤ k → k < n → addr < (v k).addr

insert_slot-Slot :
    (v : Vmas) (addr n : ℕ)
    → Slot v addr n (insert_slot v addr n).0
      × Shifted v (insert_slot v addr n).0 n (insert_slot v addr n).1
unfolding insert_slot
insert_slot-Slot v addr zero = (
  record {
    at_most = omega arith;
    before = λ k e. absurd (omega arith);
    after = λ k lo hi. absurd (omega arith);
  },
  record { below = λ k le. refl; moved = λ k lo hi. absurd (omega arith); above = λ k lt. refl },
)
insert_slot-Slot v addr (suc n) = elim (Bool-cases (ltb addr (v n).addr)) [
  | inr stop ↦ rw stop (
    record {
      at_most = omega arith;
      before = λ k e. at_end k e (ground (arith, stop));
      after = λ k lo hi. absurd (omega arith);
    },
    record { below = λ k le. refl; moved = λ k lo hi. absurd (omega arith); above = λ k lt. refl },
  )
  | inl go ↦ rw go (deeper (ground (arith, go)) (insert_slot-Slot v1 addr n))
]
  where
    v1 : Vmas
    v1 = put_vma v (suc n) (copy_vma_struct (v (suc n)) (v n))

    same : (k : ℕ) → k ≤ n → v1 k ≡ v k
    same k le = put_other v (suc n) k _ (λ e. omega arith)

    at_end : (k : ℕ) → suc k ≡ suc n → (v n).addr ≤ addr → (v k).addr ≤ addr
    at_end k e h = let q : n ≡ k = omega arith in subst (λ x. (v x).addr ≤ addr) q h

    deeper :
        addr < (v n).addr
        → Slot v1 addr n (insert_slot v1 addr n).0
          × Shifted v1 (insert_slot v1 addr n).0 n (insert_slot v1 addr n).1
        → Slot v addr (suc n) (insert_slot v1 addr n).0
          × Shifted v (insert_slot v1 addr n).0 (suc n) (insert_slot v1 addr n).1
    deeper lt (sl, sh) = (
      record {
        at_most = omega (arith, sl.at_most);
        before =
            λ k e. subst (λ x. x.addr ≤ addr) (same k (omega (arith, sl.at_most))) (sl.before k e);
        after = λ k lo hi. elim (ℕ_discrete k n) [
          | yes e ↦ rw e lt
          | no ne ↦ subst (λ x. addr < x.addr) (same k (omega arith)) (sl.after k lo (omega arith))
        ];
      },
      record {
        below = λ k le. sh.below k le ∙ same k (omega (arith, sl.at_most));
        moved = λ k lo hi. elim (ℕ_discrete k n) [
          | yes e ↦ last k e
          | no ne ↦
              sh.moved k lo (omega arith)
              ∙ ap₂ copy_vma_struct (same (suc k) (omega arith)) (same k (omega arith))
        ];
        above = λ k up. sh.above k (omega arith) ∙ put_other v (suc n) k _ (λ e. omega arith);
      },
    )
      where
        last :
            (k : ℕ) → k ≡ n → (insert_slot v1 addr n).1 (suc k) ≡ copy_vma_struct (v (suc k)) (v k)
        last k e = sh.above (suc k) (omega arith) ∙ rw e (put_same v (suc n) _)

-- No mapping meets the addresses from `addr` up to `addr + length`.
abbrev pub IsFree : Mappings → ℕ → ℕ → Type 0
IsFree p addr length =
    (k : ℕ) → k < p.total_vmaps → ((p.vmas k).end_addr ≤ addr) ⊎ (addr + length ≤ (p.vmas k).addr)

-- The same, but a mapping may also lie strictly inside.
abbrev pub IsUnseen : Mappings → ℕ → ℕ → Type 0
IsUnseen p addr length =
    (k : ℕ)
    → k < p.total_vmaps
    → ((p.vmas k).end_addr ≤ addr)
      ⊎ ((addr + length ≤ (p.vmas k).addr)
          ⊎ ((addr < (p.vmas k).addr) × ((p.vmas k).end_addr < addr + length)))

IsUnseen-IsFree : (p : Mappings) (addr length : ℕ) → IsFree p addr length → IsUnseen p addr length
IsUnseen-IsFree p addr length h k lt = elim (h k lt) [ inl a ↦ inl a | inr a ↦ inr (inl a) ]

not_overlap_found :
    (a : Vma) (addr length : ℕ)
    → addr + length < 2 ^ 32
    → 0 < length
    → (a.end_addr ≤ addr)
      ⊎ ((addr + length ≤ a.addr) ⊎ ((addr < a.addr) × (a.end_addr < addr + length)))
    → a.addr < a.end_addr
    → overlap_found a addr length ≡ false
not_overlap_found a addr length small pos (inl h) lt = ground arith
not_overlap_found a addr length small pos (inr (inl h)) lt = ground arith
not_overlap_found a addr length small pos (inr (inr h)) lt = ground arith

overlaps-IsUnseen :
    (p : Mappings) (addr length n j : ℕ)
    → IsValid p
    → addr + length < 2 ^ 32
    → 0 < length
    → IsUnseen p addr length
    → overlaps p.vmas addr length n j ≡ false
unfolding overlaps
overlaps-IsUnseen p addr length zero j v small pos free = refl
overlaps-IsUnseen p addr length (suc n) j v small pos free = elim (dec_lt j p.total_vmaps) [
  | yes lt ↦
      rw
        (
          not_overlap_found (p.vmas j) addr length small pos (free j lt) (nonempty lt),
          overlaps-IsUnseen p addr length n (j + 1) v small pos free,
        )
        (ground arith)
  | no ge ↦
      rw (v.unmapped j (omega arith)) (overlaps-IsUnseen p addr length n (j + 1) v small pos free)
]
  where
    nonempty : j < p.total_vmaps → (p.vmas j).addr < (p.vmas j).end_addr
    nonempty lt = omega (arith, (v.mappings j lt).ends, (v.mappings j lt).positive)

pub has_free_lem :
    (v : Vmas) (n i k : ℕ) → (v k).mapped ≡ 0 → i ≤ k → k < i + n → has_free v n i ≡ true
unfolding has_free
has_free_lem v zero i k e lo hi = absurd (omega arith)
has_free_lem v (suc n) i k e lo hi = elim (ℕ_discrete k i) [
  | yes q ↦ let f : (v i).mapped ≡ 0 = ap (λ x. (v x).mapped) (sym q) ∙ e in rw f refl
  | no ne ↦ rw (has_free_lem v n (i + 1) k e (omega arith) (omega arith)) (ground arith)
]

-- Where an entry stands after a mapping has been put in at `j`.
pub record PutIn (p q : Mappings) (j : ℕ) (a : Vma) : Type 0 where
  pub in_range : j ≤ p.total_vmaps
  pub there : q.vmas j ≡ a
  pub one_more : q.total_vmaps ≡ p.total_vmaps + 1
  pub below : (k : ℕ) → k < j → q.vmas k ≡ p.vmas k
  pub above :
      (k : ℕ)
      → j ≤ k
      → k < p.total_vmaps
      → q.vmas (suc k) ≡ copy_vma_struct (p.vmas (suc k)) (p.vmas k)

pub Shifted-PutIn :
    (p : Mappings) (w : Vmas) (j : ℕ) (a : Vma)
    → j ≤ p.total_vmaps
    → Shifted p.vmas j p.total_vmaps w
    → PutIn p (record { vmas = put_vma w j a; total_vmaps = p.total_vmaps + 1 }) j a
Shifted-PutIn p w j a le s = record {
  in_range = le;
  there = put_same w j a;
  one_more = refl;
  below = λ k lt. put_other w j k a (λ e. omega arith) ∙ s.below k (omega arith);
  above = λ k lo hi. put_other w j (suc k) a (λ e. omega arith) ∙ s.moved k lo hi;
}

pub new_vma-IsMapping :
    (addr length flags f : ℕ)
    → addr % pgsize ≡ 0
    → wmap_base ≤ addr
    → 0 < length
    → addr + length ≤ kernbase
    → IsMapping (new_vma addr length flags f)
new_vma-IsMapping addr length flags f al lo pos hi = record {
  is_mapped = refl;
  low = lo;
  aligned = al;
  positive = pos;
  ends = omega arith;
  high = omega arith;
}

-- `MAP_FIXED`, and one of `MAP_PRIVATE` and `MAP_SHARED`.
pub record IsFixed (flags : ℕ) : Type 0 where
  pub fixed : (bit_and flags map_fixed == 0) ≡ false
  pub not_none : ((bit_and flags map_private == 0) && (bit_and flags map_shared == 0)) ≡ false
  pub not_both :
      (not (bit_and flags map_private == 0) && not (bit_and flags map_shared == 0)) ≡ false

module _ (p : Mappings) (addr length flags f : ℕ) (valid : IsValid p)
    (room : p.total_vmaps < max_vmaps) (aligned : addr % pgsize ≡ 0) (low : wmap_base ≤ addr)
    (positive : 0 < length) (high : addr + length ≤ kernbase) (kind : IsFixed flags) where
  slot_index : ℕ
  slot_index = (insert_slot p.vmas addr p.total_vmaps).0

  slot : Slot p.vmas addr p.total_vmaps slot_index
  unfolding slot_index
  slot = (insert_slot-Slot p.vmas addr p.total_vmaps).0

  shifted : Shifted p.vmas slot_index p.total_vmaps (insert_slot p.vmas addr p.total_vmaps).1
  unfolding slot_index
  shifted = (insert_slot-Slot p.vmas addr p.total_vmaps).1

  result : Mappings
  unfolding slot_index
  result = record {
    vmas =
        put_vma (insert_slot p.vmas addr p.total_vmaps).1 slot_index (new_vma addr length flags f);
    total_vmaps = p.total_vmaps + 1;
  }

  runs : IsUnseen p addr length → mywmap p addr length flags f ≡ mapped_at addr result
  unfolding mywmap map_fixed_at result slot_index
  runs unseen =
      rw
        (
          kind.not_both,
          kind.not_none,
          has_free_lem p.vmas max_vmaps 0 p.total_vmaps (valid.unmapped p.total_vmaps (omega arith))
              (omega arith) (omega arith),
          kind.fixed,
        )
        (ground
          (arith, overlaps-IsUnseen p addr length max_vmaps 0 valid (omega arith) positive unseen))

  result-PutIn : PutIn p result slot_index (new_vma addr length flags f)
  unfolding result
  result-PutIn =
      Shifted-PutIn p (insert_slot p.vmas addr p.total_vmaps).1 slot_index
        (new_vma addr length flags f) slot.at_most shifted

  result-IsValid : IsFree p addr length → IsValid result
  unfolding result
  result-IsValid free =
      placed-IsValid valid room slot_index (insert_slot p.vmas addr p.total_vmaps).1
        (new_vma addr length flags f) slot.at_most shifted
        (new_vma-IsMapping addr length flags f aligned low positive high)
        (λ k e. elim (free k (omega (arith, slot.at_most))) [
          | inl h ↦ h
          | inr h ↦ absurd (omega (arith, slot.before k e))
        ])
        (λ lt. elim (free slot_index lt) [
          | inl h ↦ absurd (
              omega (
                arith,
                slot.after slot_index (omega arith) lt,
                (valid.mappings slot_index lt).ends,
                h,
              ))
          | inr h ↦ omega (arith, h)
        ])

  -- With `MAP_FIXED`, one of `MAP_PRIVATE` and `MAP_SHARED`, room in the array, an address at the
  -- start of a page and a range in the user's part that meets no mapping: `mywmap` returns the
  -- address, the new mapping stands in the array at its place, the others are those from before,
  -- and the array is valid.
  pub mywmap_fixed :
      IsFree p addr length
      → (q : Mappings) × (j : ℕ) × (mywmap p addr length flags f ≡ mapped_at addr q)
        × IsValid q
        × PutIn p q j (new_vma addr length flags f)
  mywmap_fixed free = (
    result,
    slot_index,
    runs (IsUnseen-IsFree p addr length free),
    result-IsValid free,
    result-PutIn,
  )

  slot_below : (k : ℕ) → k < p.total_vmaps → addr < (p.vmas k).addr → slot_index ≤ k
  slot_below k lt h = elim (dec_lt k slot_index) [
    | no ge ↦ omega arith
    | yes q ↦ absurd (climb slot_index q slot.at_most slot.before)
  ]
    where
      climb :
          (j : ℕ) → k < j → j ≤ p.total_vmaps → ((i : ℕ) → suc i ≡ j → (p.vmas i).addr ≤ addr) → ⊥
      climb zero q le b = omega arith
      climb (suc j) q le b = elim (ℕ_discrete k j) [
        | yes e ↦ omega (arith, h, b k (omega arith))
        | no ne ↦ omega (
          arith,
          h,
          b j refl,
          sorted_lt valid k j (omega arith) (omega arith),
          (valid.mappings k lt).ends,
        )
      ]

  -- The overlap with a mapping that lies strictly inside the range is not found: `mywmap` succeeds,
  -- and both mappings are in the array.
  pub mywmap_covers :
      (k : ℕ)
      → k < p.total_vmaps
      → addr < (p.vmas k).addr
      → (p.vmas k).end_addr < addr + length
      → IsUnseen p addr length
      → (q : Mappings) × (j : ℕ) × (mywmap p addr length flags f ≡ mapped_at addr q)
        × (j ≤ k)
        × (q.vmas j ≡ new_vma addr length flags f)
        × (q.vmas (suc k) ≡ copy_vma_struct (p.vmas (suc k)) (p.vmas k))
  mywmap_covers k lt under over unseen = (
    result,
    slot_index,
    runs unseen,
    slot_below k lt under,
    result-PutIn.there,
    result-PutIn.above k (slot_below k lt under) lt,
  )
