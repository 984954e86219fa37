-- ===== src/Wmap/Fork/Shared.antt =====
-- What a new process sees of a mapping that is not private.
use schoolwork.Common.{
  ℕ, zero, suc, ◌+◌, ◌*◌, ◌/◌, ◌%◌, ◌^◌, ◌≤◌, ◌<◌, bit_and, ◌≡◌, refl, sym, ◌∙◌, subst, ◌≢◌, true,
  some, arith, ◌==◌,
}
use native.Mathlib.Decide.{ℕ_discrete}
use schoolwork.Wmap.Vma.{pgsize, Vma, pgrounddown, plus}
use schoolwork.Wmap.Place.{map_private}
use schoolwork.Wmap.Order.{IsMapping}
use schoolwork.Wmap.Pages.{Pages, pte_addr, rounded_pages}
use schoolwork.Wmap.Unmap.{HasEntry}
use schoolwork.Wmap.Fork.{forked, share_pages, fork_vma}

-- The table has no present page at the address.
abbrev pub Absent : {W : Type 0} → Pages W → W → ℕ → Type 0
Absent os w a = (e : ℕ) → os.entry w a ≡ some e → e % 2 ≡ 0

-- What `mappages` of vm.c does for one page of the child. While a page is free for a table, an
-- address that is absent gets an entry; it takes at most one page, and the pages that are present
-- or absent at other addresses stay so. Nothing is said of a call when no page is free.
pub record IsChildTable {W : Type 0} (parent child : Pages W) (free_pages : W → ℕ) : Type 0 where
  pub parent_kept : (w : W) (a pa b : ℕ) → parent.entry (child.mappages w a pa) b ≡ parent.entry w b
  pub mapped :
      (w : W) (a pa b : ℕ)
      → a / pgsize ≡ b / pgsize
      → 0 < free_pages w
      → Absent child w b
      → (e : ℕ) × (child.entry (child.mappages w a pa) b ≡ some e)
        × (pte_addr e ≡ pte_addr pa)
        × (e % 2 ≡ 1)
  pub present :
      (w : W) (a pa b e : ℕ)
      → a / pgsize ≢ b / pgsize
      → child.entry w b ≡ some e
      → e % 2 ≡ 1
      → child.entry (child.mappages w a pa) b ≡ some e
  pub absent :
      (w : W) (a pa b : ℕ)
      → a / pgsize ≢ b / pgsize
      → Absent child w b
      → Absent child (child.mappages w a pa) b
  pub one_page : (w : W) (a pa : ℕ) → free_pages w ≤ free_pages (child.mappages w a pa) + 1

module _ {W : Type 0} (parent child : Pages W) (free_pages : W → ℕ)
    (laws : IsChildTable parent child free_pages) where
  -- The child has the parent's physical page at the address.
  abbrev pub SharesPage : W → W → ℕ → Type 0
  SharesPage w w' a =
      (e : ℕ) × (e' : ℕ) × (parent.entry w a ≡ some e)
      × (child.entry w' a ≡ some e')
      × (pte_addr e' ≡ pte_addr e)

  page_facts :
      (addr j : ℕ)
      → addr + j * pgsize < 2 ^ 32
      → (plus addr (j * pgsize) ≡ addr + j * pgsize)
        × (pgrounddown (plus addr (j * pgsize)) / pgsize ≡ (addr + j * pgsize) / pgsize)
        × ((addr + j * pgsize) / pgsize ≡ addr / pgsize + j)
  page_facts addr j small = (omega arith, omega arith, omega arith)

  share_pages-SharesPage :
      (w : W) (addr n j : ℕ)
      → addr + (j + n) * pgsize < 2 ^ 32 + pgsize
      → ((m : ℕ) → j ≤ m → m < j + n → HasEntry parent w (addr + m * pgsize))
      → n ≤ free_pages w
      → ((m : ℕ) → j ≤ m → m < j + n → Absent child w (addr + m * pgsize))
      → (w' : W) × (share_pages parent child w addr n j ≡ forked tt w')
        × ((m : ℕ) → j ≤ m → m < j + n → SharesPage w w' (addr + m * pgsize))
        × ((b e : ℕ)
            → b / pgsize < addr / pgsize + j
            → child.entry w b ≡ some e
            → e % 2 ≡ 1
            → child.entry w' b ≡ some e)
  unfolding share_pages
  share_pages-SharesPage w addr zero j small has free blank =
      (w, refl, (λ m lo hi. absurd (omega arith)), λ b e lt is odd. is)
  share_pages-SharesPage w addr (suc n) j small has free blank =
      let (same, page, number) = page_facts addr j (omega arith) in
      let (e, h) = has j (omega arith) (omega arith) in
      let at = pgrounddown (plus addr (j * pgsize)) in
      let w1 = child.mappages w at (pte_addr e) in
      let (w2, run, shares, below) =
        share_pages-SharesPage w1 addr n (j + 1) (omega arith)
          (λ m lo hi.
            let (x, q) = has m (omega arith) (omega arith) in
            (x, laws.parent_kept w at (pte_addr e) (addr + m * pgsize) ∙ q))
          (omega (arith, free, laws.one_page w at (pte_addr e)))
          (λ m lo hi.
            let (same', page', number') = page_facts addr m (omega arith) in
            laws.absent w at (pte_addr e) (addr + m * pgsize)
              (λ q. omega (arith, page, number, number', q))
              (blank m (omega arith) (omega arith))) in
      let (e', new, phys, odd) =
        laws.mapped w at (pte_addr e) (addr + j * pgsize) page (omega arith)
          (blank j (omega arith) (omega arith)) in
      let first : SharesPage w w2 (addr + j * pgsize) = (
        e,
        e',
        h,
        below (addr + j * pgsize) e' (omega (arith, number)) new odd,
        phys ∙ omega arith,
      ) in
      (
        w2,
        rw (subst (λ x. parent.entry w x ≡ some e) (sym same) h, share_pages) run,
        (λ m lo hi. elim (ℕ_discrete j m) [
          | yes q ↦ subst (λ x. SharesPage w w2 (addr + x * pgsize)) q first
          | no ne ↦
              let (x, x', p, c, s) = shares m (omega arith) (omega arith) in
              (x, x', sym (laws.parent_kept w at (pte_addr e) (addr + m * pgsize)) ∙ p, c, s)
        ]),
        λ b f lt is odd_f.
            below b f (omega arith)
              (laws.present w at (pte_addr e) b f (λ q. omega (arith, page, number, q)) is odd_f)
              odd_f,
      )

  -- A mapping that is not private, whose pages have entries in the parent's table and are absent in
  -- the child's, with a free page for each in case a table is missing, where the kernel's
  -- `mappages` enters a page while there is memory: `fork` gives the child the mapping with `ref`
  -- set, and at every page the physical page that the parent has there, which is page 0 where the
  -- parent has loaded none.
  pub fork_vma-SharesPage :
      (w : W) (a : Vma)
      → IsMapping a
      → (bit_and a.flags map_private == 0) ≡ true
      → ((m : ℕ) → m < rounded_pages a.length → HasEntry parent w (a.addr + m * pgsize))
      → rounded_pages a.length ≤ free_pages w
      → ((m : ℕ) → m < rounded_pages a.length → Absent child w (a.addr + m * pgsize))
      → (w' : W) × (fork_vma parent child w a ≡ forked (record a { ref = 1 }) w')
        × ((m : ℕ) → m < rounded_pages a.length → SharesPage w w' (a.addr + m * pgsize))
  unfolding fork_vma
  fork_vma-SharesPage w a valid not_private has free blank =
      let (w', run, shares, below) =
        share_pages-SharesPage w a.addr (rounded_pages a.length) 0 in_memory
          (λ m lo hi. has m (omega arith)) free (λ m lo hi. blank m (omega arith)) in
      (w', rw not_private (rw run refl), λ m lt. shares m (omega arith) (omega arith))
    where
      in_memory : a.addr + (0 + rounded_pages a.length) * pgsize < 2 ^ 32 + pgsize
      in_memory =
          let ends = valid.ends in let high = valid.high in let pos = valid.positive in ground arith
