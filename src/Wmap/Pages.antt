-- ===== src/Wmap/Pages.antt =====
-- `mywunmap` of cs537/P4/xv6-public/wmap.c over the page table and the pages of a process, and the
-- loop over the mappings in `exit` of proc.c.
use schoolwork.Common.{
  ℕ, zero, suc, ◌+◌, ◌-◌, ◌*◌, ◌/◌, ◌%◌, ◌^◌, bit_and, Bool, ◌&&◌, not, Option, none, some, ltb,
  ◌==◌, if◌then◌else◌, length,
}
use schoolwork.Wmap.Vma.{
  max_vmaps, pgsize, kernbase, Vma, Vmas, Mappings, put_vma, copy_vma_struct, pgroundup, plus,
}
use schoolwork.Wmap.Place.{map_shared, map_anonymous}

-- The kernel's functions that the mappings use, over a state `W` of page table, pages and files.
pub record Pages (W : Type 0) : Type 0 where
  -- What `walkpgdir` finds for an address, `none` where it returns 0, and the write to it.
  pub entry : W → ℕ → Option ℕ
  pub set_entry : W → ℕ → ℕ → W
  -- `writei` and `readi` with their locks: the file, the page, the offset.
  pub writei : W → ℕ → ℕ → ℕ → W
  pub readi : W → ℕ → ℕ → ℕ → W
  pub kalloc : W → Option (ℕ × W)
  pub kfree : W → ℕ → W
  -- `memset` of a page to 0 and `memmove` of a page.
  pub memset : W → ℕ → W
  pub memmove : W → ℕ → ℕ → W
  -- `mappages` of one page: the virtual address and the physical one.
  pub mappages : W → ℕ → ℕ → W
  -- `myproc()->killed = 1`
  pub kill : W → W

-- `PTE_ADDR`
abbrev pub pte_addr : ℕ → ℕ
pte_addr pte = pte / pgsize * pgsize

-- `P2V` and `V2P`
abbrev pub p2v : ℕ → ℕ
p2v a = plus a kernbase

abbrev pub v2p : ℕ → ℕ
v2p a = (a + (2 ^ 32 - kernbase)) % 2 ^ 32

-- `(length - 1) / PGSIZE + 1` of an `int`, 0 for what is not positive.
abbrev pub pages : ℕ → ℕ
pages length =
    if length == 0
    then 1
    else if ltb length (2 ^ 31)
    then (length - 1) / pgsize + 1
    else if ltb (2 ^ 32 - length + 1) pgsize
    then 1
    else 0

-- `PGROUNDUP(length) / PGSIZE` of an `int`.
abbrev pub rounded_pages : ℕ → ℕ
rounded_pages length = if ltb length (2 ^ 31) then pgroundup length / pgsize else 0

-- The index of the mapping at an address, among the `n` entries from `i` on.
unfoldable pub find_mapped : Vmas → ℕ → ℕ → ℕ → Option ℕ
find_mapped v addr zero i = none
find_mapped v addr (suc n) i =
    let rest = find_mapped v addr n (i + 1) in
    if (v i).mapped == 1 && (v i).addr == addr then some i else rest

-- The loop that moves the entries above `k` down, for `n` rounds.
unfoldable pub shift_left : Vmas → ℕ → ℕ → Vmas
shift_left v k zero = v
shift_left v k (suc n) = shift_left (put_vma v k (copy_vma_struct (v k) (v (suc k)))) (suc k) n

-- What `mywunmap` does to the array at the index `i`.
unfoldable pub remove_vma : Mappings → ℕ → Mappings
unfolding shift_left
remove_vma p i =
    let v = shift_left p.vmas i (max_vmaps - 1 - i) in
    record {
      vmas = put_vma v (max_vmaps - 1) (record (v (max_vmaps - 1)) { mapped = 0 });
      total_vmaps = p.total_vmaps - 1;
    }

pub data Unmapped (W : Type 0) : Type 0 where
  failed : Unmapped W
  unmapped : Mappings → W → Unmapped W
  -- The null pointer that `walkpgdir` has returned is read.
  fault : Unmapped W

module _ {W : Type 0} (os : Pages W) where
  -- Whether the pages of a mapping are written back to its file.
  abbrev pub written_back : Vma → Bool
  written_back mem = bit_and mem.flags map_anonymous == 0 && not (bit_and mem.flags map_shared == 0)

  -- One round of the loop over the pages.
  unfoldable pub unmap_page : W → Vma → ℕ → ℕ → Option W
  unmap_page w mem addr j = elim (os.entry w (plus addr (j * pgsize))) [
    | none ↦ none
    | some pte ↦
        let pa = pte_addr pte in
        if pa == 0
        then some w
        else (let w1 = if written_back mem then os.writei w mem.f (p2v pa) (j * pgsize) else w in
            let w2 = if mem.ref == 0 then os.kfree w1 (p2v pa) else w1 in
            some (os.set_entry w2 (plus addr (j * pgsize)) 0))
  ]

  unfoldable pub unmap_pages : W → Vma → ℕ → ℕ → ℕ → Option W
  unfolding unmap_page
  unmap_pages w mem addr zero j = some w
  unmap_pages w mem addr (suc n) j = elim (unmap_page w mem addr j) [
    | none ↦ none
    | some w' ↦ unmap_pages w' mem addr n (j + 1)
  ]

  -- `mywunmap`
  unfoldable pub mywunmap : Mappings → W → ℕ → Unmapped W
  unfolding unmap_pages find_mapped remove_vma
  mywunmap p w addr = elim (find_mapped p.vmas addr max_vmaps 0) [
    | none ↦ failed
    | some i ↦ elim (unmap_pages w (p.vmas i) addr (pages (p.vmas i).length) 0) [
      | none ↦ fault
      | some w' ↦ unmapped (remove_vma p i) w'
    ]
  ]

  -- The loop over the mappings in `exit`, `n` rounds from the index `i` on. The pages of a mapping
  -- with `ref` set are not freed: the entries of all shared mappings are cleared.
  unfoldable pub clear_pages : W → ℕ → ℕ → ℕ → Option W
  clear_pages w addr zero j = some w
  clear_pages w addr (suc n) j = elim (os.entry w (plus addr (j * pgsize))) [
    | none ↦ none
    | some pte ↦ clear_pages (os.set_entry w (plus addr (j * pgsize)) 0) addr n (j + 1)
  ]

  unfoldable pub clear_shared : W → Vmas → ℕ → ℕ → Option W
  unfolding clear_pages
  clear_shared w v zero i = some w
  clear_shared w v (suc n) i =
      let rest = clear_shared w v n (i + 1) in
      if bit_and (v i).flags map_shared == 0
      then rest
      else elim (clear_pages w (v i).addr (rounded_pages (v i).length) 0) [
        | none ↦ none
        | some w' ↦ clear_shared w' v n (i + 1)
      ]

  unfoldable pub exit_mappings : Mappings → W → ℕ → ℕ → Option (Mappings × W)
  unfolding mywunmap clear_shared
  exit_mappings p w zero i = some (p, w)
  exit_mappings p w (suc n) i =
      if (p.vmas i).ref == 0
      then elim (mywunmap p w (p.vmas i).addr) [
        | fault ↦ none
        | failed ↦ exit_mappings p w n (i + 1)
        | unmapped q w' ↦ exit_mappings q w' n (i + 1)
      ]
      else elim (clear_shared w p.vmas p.total_vmaps 0) [
        | none ↦ none
        | some w' ↦ exit_mappings p w' n (i + 1)
      ]
