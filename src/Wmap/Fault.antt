-- ===== src/Wmap/Fault.antt =====
-- The page faults of the mappings, `trap` of cs537/P4/xv6-public/trap.c, case `T_PGFLT`.
pub mod Choice
use schoolwork.Common.{
  ℕ, zero, suc, ◌+◌, ◌*◌, bit_and, ◌&&◌, not, Option, none, some, [], ltb, leb, ◌==◌, if◌then◌else◌,
  length,
}
use schoolwork.Wmap.Vma.{
  max_vmaps, wmap_base, kernbase, pgsize, Vmas, Mappings, put_vma, pgrounddown, minus, plus,
}
use schoolwork.Wmap.Place.{map_anonymous}
use schoolwork.Wmap.Pages.{Pages, v2p}

-- The first mapping that the address is taken to lie in, among the `n` entries from `i` on.
unfoldable pub find_touched : Vmas → ℕ → ℕ → ℕ → Option ℕ
find_touched v a zero i = none
find_touched v a (suc n) i =
    let rest = find_touched v a n (i + 1) in
    if (v i).mapped == 1 && leb (v i).addr a && leb a (plus (v i).addr (v i).length)
    then some i
    else rest

-- What a fault comes to. `passed_on` is an address outside the region, left to the other cases.
pub data Handled (W : Type 0) : Type 0 where
  loaded : Mappings → W → Handled W
  killed : W → Handled W
  passed_on : Handled W

abbrev pub count_loaded : Mappings → ℕ → Mappings
count_loaded p i = record p {
  vmas = put_vma p.vmas i (record (p.vmas i) { num_loaded = (p.vmas i).num_loaded + 1 });
}

module _ {W : Type 0} (os : Pages W) where
  -- A page for the mapping at `i`.
  unfoldable pub load_page : Mappings → W → ℕ → ℕ → Handled W
  load_page p w a i =
      let mem = p.vmas i in
      elim (os.kalloc w) [
        | none ↦ killed (os.kill w)
        | some (page, w1) ↦
            let w2 = os.memset w1 page in
            if not (bit_and mem.flags map_anonymous == 0)
            then loaded (count_loaded p i) (os.mappages w2 (pgrounddown a) (v2p page))
            else (let w3 = os.mappages w2 (pgrounddown (plus a (i * pgsize))) (v2p page) in
                loaded (count_loaded p i) (os.readi w3 mem.f page (minus a mem.addr)))
      ]

  unfoldable pub page_fault : Mappings → W → ℕ → Handled W
  unfolding find_touched load_page
  page_fault p w a =
      if leb wmap_base a && ltb a kernbase
      then elim (find_touched p.vmas a max_vmaps 0) [
        | none ↦ killed (os.kill w)
        | some i ↦ load_page p w a i
      ]
      else passed_on
