-- ===== src/Wmap/Fault/Choice.antt =====
-- Which mapping a page fault is taken for, and which page is mapped.
use schoolwork.Common.{
  ℕ, zero, suc, ◌+◌, ◌-◌, ◌*◌, ◌≤◌, ◌<◌, bit_and, ◌≡◌, refl, sym, ap, ◌∙◌, subst, ◌⊎◌, inl, inr,
  Bool, true, false, ◌&&◌, none, some, arith, ltb, leb, ◌==◌,
}
use native.Mathlib.Decide.{ℕ_discrete, dec_lt}
use schoolwork.Wmap.Vma.{
  max_vmaps, wmap_base, kernbase, pgsize, Vma, Vmas, Mappings, pgrounddown, minus, plus,
}
use schoolwork.Wmap.Place.{map_anonymous}
use schoolwork.Wmap.Pages.{Pages, v2p}
use schoolwork.Wmap.Order.{IsValid, sorted_lt}
use schoolwork.Wmap.Fault.{find_touched, loaded, killed, count_loaded, load_page, page_fault}

touches : Vma → ℕ → Bool
touches v a = v.mapped == 1 && leb v.addr a && leb a (plus v.addr v.length)

find_touched_hit :
    (v : Vmas) (a n i k : ℕ)
    → i ≤ k
    → k < i + n
    → touches (v k) a ≡ true
    → ((j : ℕ) → j < k → touches (v j) a ≡ false)
    → find_touched v a n i ≡ some k
unfolding find_touched touches
find_touched_hit v a zero i k lo hi yes_k before = absurd (omega arith)
find_touched_hit v a (suc n) i k lo hi yes_k before = elim (ℕ_discrete k i) [
  | yes e ↦
      let hit : touches (v i) a ≡ true = subst (λ x. touches (v x) a ≡ true) e yes_k in
      rw hit (ap some (sym e))
  | no ne ↦
      rw (before i (omega arith))
        (find_touched_hit v a n (i + 1) k (omega arith) (omega arith) yes_k before)
]

find_touched_miss :
    (v : Vmas) (a n i : ℕ) → ((j : ℕ) → touches (v j) a ≡ false) → find_touched v a n i ≡ none
unfolding find_touched touches
find_touched_miss v a zero i none_hit = refl
find_touched_miss v a (suc n) i none_hit =
    rw (none_hit i) (find_touched_miss v a n (i + 1) none_hit)

module _ {p : Mappings} (valid : IsValid p) (a : ℕ) where
  touches-IsMapping :
      (k : ℕ)
      → k < p.total_vmaps
      → (p.vmas k).addr ≤ a
      → a ≤ (p.vmas k).end_addr
      → touches (p.vmas k) a ≡ true
  unfolding touches
  touches-IsMapping k lt lo hi = let m = valid.mappings k lt in ground arith

  not_touches :
      (k : ℕ)
      → ((k < p.total_vmaps) → ((p.vmas k).end_addr < a) ⊎ (a < (p.vmas k).addr))
      → touches (p.vmas k) a ≡ false
  unfolding touches
  not_touches k out = elim (dec_lt k p.total_vmaps) [
    | yes lt ↦
        let m = valid.mappings k lt in elim (out lt) [ inl h ↦ ground arith | inr h ↦ ground arith ]
    | no ge ↦ rw (valid.unmapped k (omega arith)) refl
  ]

  -- Inside a mapping, not at its first byte.
  pub find_touched_inside :
      (k : ℕ)
      → k < p.total_vmaps
      → (p.vmas k).addr < a
      → a < (p.vmas k).end_addr
      → find_touched p.vmas a max_vmaps 0 ≡ some k
  find_touched_inside k lt lo hi =
      find_touched_hit p.vmas a max_vmaps 0 k (omega arith) (omega (arith, valid.total))
        (touches-IsMapping k lt (omega arith) (omega arith))
        (λ j h. not_touches j (λ lj. inl (omega (arith, sorted_lt valid j k h lt))))

  -- At an address that is the end of a mapping.
  pub find_touched_end :
      (k : ℕ)
      → k < p.total_vmaps
      → (p.vmas k).end_addr ≡ a
      → find_touched p.vmas a max_vmaps 0 ≡ some k
  find_touched_end k lt e =
      let m = valid.mappings k lt in
      find_touched_hit p.vmas a max_vmaps 0 k (omega arith) (omega (arith, valid.total))
        (touches-IsMapping k lt (omega arith) (omega arith))
        (λ j h.
          not_touches j (λ lj. inl (omega (arith, sorted_lt valid j k h lt, m.positive, m.ends))))

  pub find_touched_outside :
      ((k : ℕ) → k < p.total_vmaps → ((p.vmas k).end_addr < a) ⊎ (a < (p.vmas k).addr))
      → find_touched p.vmas a max_vmaps 0 ≡ none
  find_touched_outside out = find_touched_miss p.vmas a max_vmaps 0 (λ j. not_touches j (out j))

  user_range :
      (k : ℕ)
      → k < p.total_vmaps
      → (p.vmas k).addr ≤ a
      → a < (p.vmas k).end_addr
      → (leb wmap_base a && ltb a kernbase) ≡ true
  user_range k lt lo hi = let m = valid.mappings k lt in ground arith

module _ {W : Type 0} (os : Pages W) {p : Mappings} (valid : IsValid p) (w w1 : W) (page : ℕ)
    (given : os.kalloc w ≡ some (page, w1)) (a k : ℕ) (lt : k < p.total_vmaps)
    (above : (p.vmas k).addr < a) (below : a < (p.vmas k).end_addr) where
  faults_in : page_fault os p w a ≡ load_page os p w a k
  unfolding page_fault
  faults_in =
      rw (user_range valid a k lt (omega arith) below)
        (rw (find_touched_inside valid a k lt above below) refl)

  -- An access inside an anonymous mapping, not at its first byte, while there is memory: the page
  -- of the address is mapped to the new page, cleared, and counted for this mapping.
  pub page_fault_anonymous :
      (bit_and (p.vmas k).flags map_anonymous == 0) ≡ false
      → page_fault os p w a
        ≡ loaded (count_loaded p k) (os.mappages (os.memset w1 page) (pgrounddown a) (v2p page))
  unfolding load_page
  page_fault_anonymous anon = faults_in ∙ rw (given, load_page) (rw anon refl)

  -- An access inside a mapping of a file, not at its first byte: the page that is mapped lies as
  -- many pages behind the page of the address as there are mappings below, and what is read into it
  -- starts at the offset of the address itself.
  pub page_fault_file :
      (bit_and (p.vmas k).flags map_anonymous == 0) ≡ true
      → (page_fault os p w a
          ≡ loaded (count_loaded p k) (
              os.readi
                (os.mappages (os.memset w1 page) (pgrounddown a + k * pgsize) (v2p page))
                (p.vmas k).f
                page
                (a - (p.vmas k).addr)))
  unfolding load_page
  page_fault_file file =
      let m = valid.mappings k lt in
      let total = valid.total in
      let there : pgrounddown (plus a (k * pgsize)) ≡ pgrounddown a + k * pgsize = omega arith in
      let off : minus a (p.vmas k).addr ≡ a - (p.vmas k).addr = omega arith in
      faults_in ∙ rw (given, load_page) (rw (file, there, off) refl)

module _ {W : Type 0} (os : Pages W) {p : Mappings} (valid : IsValid p) (w : W) (a : ℕ) where
  -- An access in the region that meets no mapping and is not at the end of one: the process is
  -- killed, and nothing is mapped.
  pub page_fault_unmapped :
      wmap_base ≤ a
      → a < kernbase
      → ((k : ℕ) → k < p.total_vmaps → ((p.vmas k).end_addr < a) ⊎ (a < (p.vmas k).addr))
      → page_fault os p w a ≡ killed (os.kill w)
  unfolding page_fault
  page_fault_unmapped lo hi out =
      let here : (leb wmap_base a && ltb a kernbase) ≡ true = ground arith in
      rw here (rw (find_touched_outside valid a out) refl)

  -- The first byte of a mapping that starts where the one before it ends: the fault is taken for
  -- the mapping before it.
  pub page_fault_border :
      (k : ℕ)
      → suc k < p.total_vmaps
      → (p.vmas k).end_addr ≡ a
      → (p.vmas (suc k)).addr ≡ a
      → page_fault os p w a ≡ load_page os p w a k
  unfolding page_fault
  page_fault_border k lt e start =
      let m = valid.mappings (suc k) lt in
      rw (user_range valid a (suc k) lt (omega arith) (omega (arith, m.ends, m.positive)))
        (rw (find_touched_end valid a k (omega arith) e) refl)
