-- ===== src/Wmap/Unmap.antt =====
-- `mywunmap`: which mapping and which pages go.
use schoolwork.Common.{
  ℕ, zero, suc, ◌+◌, ◌*◌, ◌/◌, ◌^◌, ◌≤◌, ◌<◌, ◌≡◌, refl, sym, ap, ◌∙◌, subst, ◌≢◌, inl, inr, some,
  arith, ◌==◌, if◌then◌else◌, Bool-cases,
}
use native.Mathlib.Decide.{ℕ_discrete}
use schoolwork.Wmap.Vma.{max_vmaps, wmap_base, pgsize, Vma, Mappings, plus}
use schoolwork.Wmap.Pages.{
  Pages, pte_addr, p2v, pages, unmap_page, unmap_pages, mywunmap, failed, unmapped, written_back,
  remove_vma,
}
use schoolwork.Wmap.Order.{IsValid}
use schoolwork.Wmap.Remove.{
  TakenOut, remove_vma-TakenOut, TakenOut-IsValid, find_mapped-IsValid, find_mapped_low,
}

-- What the entries of the page table do: a written entry is read back, the entry of another page
-- stays, and neither the file nor the freeing of a page touches them.
pub record IsPageTable {W : Type 0} (os : Pages W) : Type 0 where
  pub entry-set_same :
      (w : W) (a e x : ℕ) → os.entry w a ≡ some e → os.entry (os.set_entry w a x) a ≡ some x
  pub entry-set_other :
      (w : W) (a b x : ℕ) → a / pgsize ≢ b / pgsize → os.entry (os.set_entry w a x) b ≡ os.entry w b
  pub entry-writei : (w : W) (f a n b : ℕ) → os.entry (os.writei w f a n) b ≡ os.entry w b
  pub entry-kfree : (w : W) (a b : ℕ) → os.entry (os.kfree w a) b ≡ os.entry w b

-- No page is mapped at the address.
abbrev pub IsCleared : {W : Type 0} → Pages W → W → ℕ → Type 0
IsCleared os w a = (e : ℕ) × (os.entry w a ≡ some e) × (pte_addr e ≡ 0)

-- The page table has an entry for the address.
abbrev pub HasEntry : {W : Type 0} → Pages W → W → ℕ → Type 0
HasEntry os w a = (e : ℕ) × (os.entry w a ≡ some e)

module _ {W : Type 0} (os : Pages W) (laws : IsPageTable os) where
  -- The page at an address is cleared, and the entries of the other pages are as before.
  record Clears (w w' : W) (a : ℕ) : Type 0 where
    gone : IsCleared os w' a
    others : (b : ℕ) → a / pgsize ≢ b / pgsize → os.entry w' b ≡ os.entry w b

  freed : W → Vma → ℕ → ℕ → W
  freed w mem pa j =
      let w1 = if written_back os mem then os.writei w mem.f (p2v pa) (j * pgsize) else w in
      if mem.ref == 0 then os.kfree w1 (p2v pa) else w1

  entry-freed : (w : W) (mem : Vma) (pa j b : ℕ) → os.entry (freed w mem pa j) b ≡ os.entry w b
  unfolding freed
  entry-freed w mem pa j b = elim (Bool-cases (written_back os mem)) [
    | inl y ↦ elim (Bool-cases (mem.ref == 0)) [
      | inl z ↦
          rw (y, z)
            (laws.entry-kfree (os.writei w mem.f (p2v pa) (j * pgsize)) (p2v pa) b
              ∙ laws.entry-writei w mem.f (p2v pa) (j * pgsize) b)
      | inr z ↦ rw (y, z) (laws.entry-writei w mem.f (p2v pa) (j * pgsize) b)
    ]
    | inr y ↦ elim (Bool-cases (mem.ref == 0)) [
      | inl z ↦ rw (y, z) (laws.entry-kfree w (p2v pa) b)
      | inr z ↦ rw (y, z) refl
    ]
  ]

  unmap_page-Clears :
      (w : W) (mem : Vma) (addr j : ℕ)
      → HasEntry os w (plus addr (j * pgsize))
      → (w' : W) × (unmap_page os w mem addr j ≡ some w') × Clears w w' (plus addr (j * pgsize))
  unfolding unmap_page freed
  unmap_page-Clears w mem addr j (e, h) = elim (Bool-cases (pte_addr e == 0)) [
    | inl z ↦ (
      w,
      rw (h, unmap_page) (rw z refl),
      record { gone = (e, h, ground (arith, z)); others = λ b ne. refl },
    )
    | inr nz ↦
        let a = plus addr (j * pgsize) in
        let w2 = freed w mem (pte_addr e) j in
        (
          os.set_entry w2 a 0,
          rw (h, unmap_page) (rw nz refl),
          record {
            gone = (
              0,
              laws.entry-set_same w2 a e 0 (entry-freed w mem (pte_addr e) j a ∙ h),
              omega arith,
            );
            others = λ b ne. laws.entry-set_other w2 a b 0 ne ∙ entry-freed w mem (pte_addr e) j b;
          },
        )
  ]

  -- The pages from `j` on, for `n` of them, are cleared, and the entries of the others are as
  -- before.
  record ClearsPages (w w' : W) (addr j n : ℕ) : Type 0 where
    gone : (m : ℕ) → j ≤ m → m < j + n → IsCleared os w' (addr + m * pgsize)
    others :
        (b : ℕ)
        → ((m : ℕ) → j ≤ m → m < j + n → addr / pgsize + m ≢ b / pgsize)
        → os.entry w' b ≡ os.entry w b

  page_at :
      (addr j : ℕ)
      → addr + j * pgsize < 2 ^ 32
      → (plus addr (j * pgsize) ≡ addr + j * pgsize)
        × ((addr + j * pgsize) / pgsize ≡ addr / pgsize + j)
  page_at addr j small = (omega arith, omega arith)

  -- The same of the page `j` of a mapping.
  ClearsPage : W → W → ℕ → ℕ → Type 0
  ClearsPage w w' addr j =
      IsCleared os w' (addr + j * pgsize)
      × ((b : ℕ) → addr / pgsize + j ≢ b / pgsize → os.entry w' b ≡ os.entry w b)

  unmap_page-ClearsPage :
      (w : W) (mem : Vma) (addr j : ℕ)
      → addr + j * pgsize < 2 ^ 32
      → HasEntry os w (addr + j * pgsize)
      → (w' : W) × (unmap_page os w mem addr j ≡ some w') × ClearsPage w w' addr j
  unfolding ClearsPage
  unmap_page-ClearsPage w mem addr j small has =
      let (same, page) = page_at addr j small in
      let (w1, run, c) = unmap_page-Clears w mem addr j (subst (HasEntry os w) (sym same) has) in
      (
        w1,
        run,
        (
          subst (IsCleared os w1) same c.gone,
          λ b ne. c.others b (λ e. ne (sym page ∙ ap (λ x. x / pgsize) (sym same) ∙ e)),
        ),
      )

  unmap_pages-ClearsPages :
      (w : W) (mem : Vma) (addr n j : ℕ)
      → addr + (j + n) * pgsize < 2 ^ 32 + pgsize
      → ((m : ℕ) → j ≤ m → m < j + n → HasEntry os w (addr + m * pgsize))
      → (w' : W) × (unmap_pages os w mem addr n j ≡ some w') × ClearsPages w w' addr j n
  unfolding unmap_pages ClearsPage
  unmap_pages-ClearsPages w mem addr zero j small has =
      (w, refl, record { gone = λ m lo hi. absurd (omega arith); others = λ b ne. refl })
  unmap_pages-ClearsPages w mem addr (suc n) j small has =
      let (w1, run, (gone, apart)) =
        unmap_page-ClearsPage w mem addr j (omega arith) (has j (omega arith) (omega arith)) in
      let (w2, runs, cs) = unmap_pages-ClearsPages w1 mem addr n (j + 1) (omega arith) (λ m lo hi.
        let (e, h) = has m (omega arith) (omega arith) in
        (e, apart (addr + m * pgsize) (λ q. omega arith) ∙ h)) in
      (
        w2,
        rw (run, unmap_pages) runs,
        record {
          gone = λ m lo hi. elim (ℕ_discrete j m) [
            | yes q ↦
                let (e, h, z) = gone in
                subst (λ x. IsCleared os w2 (addr + x * pgsize)) q
                  (e, cs.others (addr + j * pgsize) (λ k lo' hi' q'. omega arith) ∙ h, z)
            | no ne ↦ cs.gone m (omega arith) (omega arith)
          ];
          others = λ b ne.
              cs.others b (λ m lo hi. ne m (omega arith) (omega arith))
              ∙ apart b (ne j (omega arith) (omega arith));
        },
      )

  pub mywunmap_lem :
      {p : Mappings} (valid : IsValid p) (room : p.total_vmaps < max_vmaps) (i : ℕ)
      (lt : i < p.total_vmaps) (w : W)
      → ((m : ℕ) → m < pages (p.vmas i).length → HasEntry os w ((p.vmas i).addr + m * pgsize))
      → (q : Mappings) × (w' : W) × (mywunmap os p w (p.vmas i).addr ≡ unmapped q w')
        × IsValid q
        × TakenOut p q i
        × ((m : ℕ) → m < pages (p.vmas i).length → IsCleared os w' ((p.vmas i).addr + m * pgsize))
        × ((b : ℕ)
            → ((m : ℕ) → m < pages (p.vmas i).length → (p.vmas i).addr / pgsize + m ≢ b / pgsize)
            → os.entry w' b ≡ os.entry w b)
  unfolding mywunmap
  mywunmap_lem {p} valid room i lt w has =
      let mem = p.vmas i in
      let m = valid.mappings i lt in
      let t = remove_vma-TakenOut p i lt (omega arith) in
      let (w', run, c) =
        unmap_pages-ClearsPages w mem mem.addr (pages mem.length) 0 in_memory
          (λ k lo hi. has k (omega arith)) in
      (
        remove_vma p i,
        w',
        rw (find_mapped-IsValid i valid lt, run, mywunmap) refl,
        TakenOut-IsValid i valid room lt t,
        t,
        (λ k h. c.gone k (omega arith) (omega arith)),
        (λ b ne. c.others b (λ k lo hi. ne k (omega arith))),
      )
    where
      in_memory : (p.vmas i).addr + (0 + pages (p.vmas i).length) * pgsize < 2 ^ 32 + pgsize
      in_memory =
          let m = valid.mappings i lt in
          let pos = m.positive in let ends = m.ends in let high = m.high in ground arith

  -- `mywunmap` at an address below the region fails.
  pub mywunmap_low :
      {p : Mappings}
      → IsValid p
      → (w : W) (addr : ℕ) → addr < wmap_base
      → mywunmap os p w addr ≡ failed
  unfolding mywunmap
  mywunmap_low valid w addr low = rw (find_mapped_low addr valid low, mywunmap) refl
