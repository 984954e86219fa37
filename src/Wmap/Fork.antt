-- ===== src/Wmap/Fork.antt =====
-- The mappings of a new process, `fork` of cs537/P4/xv6-public/proc.c. `parent` and `child` are the
-- kernel's functions on the page table of either process.
pub mod Shared
mod Tests
use schoolwork.Common.{ℕ, zero, suc, ◌+◌, ◌*◌, bit_and, not, none, some, ◌==◌, if◌then◌else◌}
use schoolwork.Wmap.Vma.{pgsize, Vma, Vmas, Mappings, put_vma, copy_vma_struct, pgrounddown, plus}
use schoolwork.Wmap.Place.{map_private}
use schoolwork.Wmap.Pages.{Pages, pte_addr, p2v, v2p, rounded_pages}

-- What a step of `fork` comes to: done, out of memory with the state, or a null pointer.
pub data Forked (A W : Type 0) : Type 0 where
  forked : A → W → Forked A W
  no_memory : W → Forked A W
  fault : Forked A W

module _ {W : Type 0} (parent child : Pages W) where
  -- A page of a private mapping is copied.
  unfoldable pub copy_page : W → ℕ → ℕ → Forked (Unit {0}) W
  copy_page w addr j = elim (parent.entry w (plus addr (j * pgsize))) [
    | none ↦ fault
    | some pte ↦ if pte_addr pte == 0 then forked tt w else elim (parent.kalloc w) [
      | none ↦ no_memory (parent.kill (parent.memset w 0))
      | some (new, w1) ↦
          let w2 =
            child.mappages (parent.memset w1 new) (pgrounddown (plus addr (j * pgsize)))
              (v2p new) in
          forked tt (parent.memmove w2 new (p2v (pte_addr pte)))
    ]
  ]

  unfoldable pub copy_pages : W → ℕ → ℕ → ℕ → Forked (Unit {0}) W
  unfolding copy_page
  copy_pages w addr zero j = forked tt w
  copy_pages w addr (suc n) j = elim (copy_page w addr j) [
    | fault ↦ fault
    | no_memory w' ↦ no_memory w'
    | forked u w' ↦ copy_pages w' addr n (j + 1)
  ]

  -- The pages of any other mapping are shared.
  unfoldable pub share_pages : W → ℕ → ℕ → ℕ → Forked (Unit {0}) W
  share_pages w addr zero j = forked tt w
  share_pages w addr (suc n) j = elim (parent.entry w (plus addr (j * pgsize))) [
    | none ↦ fault
    | some pte ↦
        share_pages (child.mappages w (pgrounddown (plus addr (j * pgsize))) (pte_addr pte)) addr n
          (j + 1)
  ]

  abbrev with_vma : Forked (Unit {0}) W → Vma → Forked Vma W
  with_vma fault a = fault
  with_vma (no_memory w) a = no_memory w
  with_vma (forked u w) a = forked a w

  -- One mapping: its pages, and its entry in the new process.
  unfoldable pub fork_vma : W → Vma → Forked Vma W
  unfolding copy_pages share_pages
  fork_vma w a =
      if not (bit_and a.flags map_private == 0)
      then with_vma (copy_pages w a.addr (rounded_pages a.length) 0) a
      else with_vma (share_pages w a.addr (rounded_pages a.length) 0) (record a { ref = 1 })

  -- The loop over the mappings from `i` on, for `n` rounds: `v` are those of the new process.
  unfoldable pub fork_vmas : W → Vmas → Vmas → ℕ → ℕ → Forked Vmas W
  unfolding fork_vma
  fork_vmas w v from zero i = forked v w
  fork_vmas w v from (suc n) i = elim (fork_vma w (copy_vma_struct (v i) (from i))) [
    | fault ↦ fault
    | no_memory w' ↦ no_memory w'
    | forked a w' ↦ fork_vmas w' (put_vma v i a) from n (i + 1)
  ]

  unfoldable pub fork_mappings : Mappings → Vmas → W → Forked Mappings W
  unfolding fork_vmas
  fork_mappings p v w = elim (fork_vmas w v p.vmas p.total_vmaps 0) [
    | fault ↦ fault
    | no_memory w' ↦ no_memory w'
    | forked v' w' ↦ forked (record { vmas = v'; total_vmaps = p.total_vmaps }) w'
  ]
