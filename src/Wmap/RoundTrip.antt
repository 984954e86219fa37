-- ===== src/Wmap/RoundTrip.antt =====
-- `mywmap` and then `mywunmap`.
use schoolwork.Common.{ℕ, ◌+◌, ◌-◌, ◌*◌, ◌%◌, ◌≤◌, ◌<◌, ◌≡◌, sym, ap, ◌∙◌, subst, arith, length}
use native.Mathlib.Decide.{dec_lt}
use schoolwork.Wmap.Vma.{
  max_vmaps, wmap_base, kernbase, pgsize, Vma, no_vma, Mappings, copy_vma_struct,
}
use schoolwork.Wmap.Place.{mywmap, mapped_at, new_vma}
use schoolwork.Wmap.Pages.{Pages, pages, mywunmap, unmapped}
use schoolwork.Wmap.Order.{IsValid}
use schoolwork.Wmap.Remove.{TakenOut}
use schoolwork.Wmap.Fixed.{IsFixed, IsFree, PutIn, mywmap_fixed}
use schoolwork.Wmap.Unmap.{IsPageTable, HasEntry, mywunmap_lem}

-- The two mappings agree but for the count of loaded pages.
abbrev pub Same : Vma → Vma → Type 0
Same a b = copy_vma_struct no_vma a ≡ copy_vma_struct no_vma b

-- Putting a mapping in and taking it out leaves the others where they were.
PutIn-TakenOut :
    {p q r : Mappings} (j : ℕ) (a : Vma)
    → p.total_vmaps < max_vmaps
    → PutIn p q j a
    → TakenOut q r j
    → (r.total_vmaps ≡ p.total_vmaps) × ((k : ℕ) → k < p.total_vmaps → Same (r.vmas k) (p.vmas k))
PutIn-TakenOut {p} {q} {r} j a room i t = (
  omega (arith, i.one_more, t.one_less),
  λ k lt. elim (dec_lt k j) [
    | yes lo ↦ ap (copy_vma_struct no_vma) (t.below k lo ∙ i.below k lo)
    | no hi ↦
        ap (copy_vma_struct no_vma) (t.above k (omega arith) (omega arith))
        ∙ ap (copy_vma_struct no_vma) (i.above k (omega arith) lt)
  ],
)

-- A mapping put in with `MAP_FIXED` and taken out again, with entries for its pages and room for
-- one more mapping in between, where the page table does what is documented of it: both calls
-- succeed, and every mapping of before is in its place again, with all but its count of loaded
-- pages.
pub mywunmap-mywmap :
    {W : Type 0} (os : Pages W) (laws : IsPageTable os) (p : Mappings) (addr length flags f : ℕ)
    (valid : IsValid p) (w : W)
    → p.total_vmaps < max_vmaps - 1
    → addr % pgsize ≡ 0
    → wmap_base ≤ addr
    → 0 < length
    → addr + length ≤ kernbase
    → IsFixed flags
    → IsFree p addr length
    → ((m : ℕ) → m < pages length → HasEntry os w (addr + m * pgsize))
    → (q r : Mappings) × (w' : W) × (mywmap p addr length flags f ≡ mapped_at addr q)
      × (mywunmap os q w addr ≡ unmapped r w')
      × IsValid r
      × (r.total_vmaps ≡ p.total_vmaps)
      × ((k : ℕ) → k < p.total_vmaps → Same (r.vmas k) (p.vmas k))
mywunmap-mywmap os laws p addr length flags f valid w room aligned low positive high kind free has =
    let (q, j, run, v, i) =
      mywmap_fixed p addr length flags f valid (omega arith) aligned low positive high kind free in
    let (r, w', back, v', t, gone, others) =
      mywunmap_lem os laws v (omega (arith, i.one_more)) j (omega (arith, i.one_more, i.in_range)) w
        (λ m lt.
          subst (λ a. HasEntry os w (a.addr + m * pgsize)) (sym i.there)
            (has m (subst (λ a. m < pages a.length) i.there lt))) in
    let (same_total, same) = PutIn-TakenOut j (new_vma addr length flags f) (omega arith) i t in
    (
      q,
      r,
      w',
      run,
      subst (λ a. mywunmap os q w a.addr ≡ unmapped r w') i.there back,
      v',
      same_total,
      same,
    )
