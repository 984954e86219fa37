-- ===== src/Wmap/Remap.antt =====
-- `mywremap` of cs537/P4/xv6-public/wmap.c. The entries from `max_vmaps` on stand for the memory
-- behind the array, which the code reads for the mapping after the last entry.
pub mod Length
use schoolwork.Common.{
  ℕ, zero, suc, ◌+◌, ◌-◌, ◌*◌, ◌/◌, ◌^◌, bit_and, ◌⊎◌, inl, inr, Bool, ◌&&◌, ◌||◌, not, Option,
  none, some, [], ltb, leb, ◌==◌, if◌then◌else◌, length,
}
use schoolwork.Wmap.Vma.{
  max_vmaps, pgsize, Vma, Vmas, Mappings, put_vma, pgroundup, pgrounddown, plus,
}
use schoolwork.Wmap.Place.{find_vmap_addr}
use schoolwork.Wmap.Pages.{Pages, pte_addr, p2v, v2p, pages, shift_left, written_back}

abbrev pub mremap_maymove : ℕ
mremap_maymove = 1

-- The index of the mapping with this address and length, among the `n` entries from `i` on.
unfoldable pub find_exact : Vmas → ℕ → ℕ → ℕ → ℕ → Option ℕ
find_exact v addr length zero i = none
find_exact v addr length (suc n) i =
    let rest = find_exact v addr length n (i + 1) in
    if (v i).mapped == 1 && (v i).addr == addr && (v i).length == length then some i else rest

-- What `mywremap` comes to: `FAILED` or the address, with the state; `outside` is the write to
-- `vmas[-1]`, and `fault` the null pointer that `walkpgdir` has returned.
pub data Remapped (W : Type 0) : Type 0 where
  refused : Mappings → W → Remapped W
  remapped_at : ℕ → Mappings → W → Remapped W
  outside : Remapped W
  fault : Remapped W

-- The mapping at `i` with a new length and end.
unfoldable pub expand_vma : Mappings → ℕ → ℕ → Mappings
expand_vma p i newsize = record p {
  vmas =
      put_vma p.vmas i
        (record (p.vmas i) { length = newsize; end_addr = plus (p.vmas i).addr newsize });
}

-- Whether the entry after `i` leaves room.
abbrev pub can_expand : Mappings → ℕ → ℕ → ℕ → Bool
can_expand p i oldaddr newsize =
    (p.vmas (i + 1)).mapped == 0 || ltb (plus oldaddr newsize) (p.vmas (i + 1)).addr

-- The entry that a moved mapping gets at the index `position` of `v`, and the last one unmapped.
unfoldable pub moved_vmas : Vmas → ℕ → Vma → ℕ → ℕ → Vmas
moved_vmas v position old newsize flags =
    let w = put_vma v position (record (v position) {
      end_addr = plus (v position).addr newsize;
      length = newsize;
      flags = flags;
      f = old.f;
      mapped = 1;
      num_loaded = old.num_loaded;
    }) in
    put_vma w (max_vmaps - 1) (record (w (max_vmaps - 1)) { mapped = 0 })

module _ {W : Type 0} (os : Pages W) where
  -- One round of the loop that gives up the pages of the part cut off.
  unfoldable pub cut_page : W → Vma → ℕ → ℕ → Option W
  cut_page w mem addr j = elim (os.entry w (plus addr (j * pgsize))) [
    | none ↦ none
    | some pte ↦
        let pa = pte_addr pte in
        if pa == 0
        then some w
        else (let w1 = if written_back os mem then os.writei w mem.f (p2v pa) (j * pgsize) else w in
            some (os.set_entry (os.kfree w1 (p2v pa)) (plus addr (j * pgsize)) (pte / 2 * 2)))
  ]

  unfoldable pub cut_pages : W → Vma → ℕ → ℕ → ℕ → Option W
  unfolding cut_page
  cut_pages w mem addr zero j = some w
  cut_pages w mem addr (suc n) j = elim (cut_page w mem addr j) [
    | none ↦ none
    | some w' ↦ cut_pages w' mem addr n (j + 1)
  ]

  -- One round of the loop that moves the pages: `inl` where the memory has run out.
  unfoldable pub move_page : W → ℕ → ℕ → ℕ → Option (W ⊎ W)
  move_page w oldaddr newaddr j =
      let va = plus oldaddr (j * pgsize) in
      elim (os.entry w va) [
        | none ↦ none
        | some pte ↦
            if pte_addr pte == 0 then some (inr (os.set_entry w va 0)) else elim (os.kalloc w) [
              | none ↦ some (inl (os.kill (os.memset w 0)))
              | some (new, w1) ↦
                  let w2 =
                    os.mappages (os.memset w1 new) (pgrounddown (plus newaddr (j * pgsize)))
                      (v2p new) in
                  let w3 = os.kfree (os.memmove w2 new (p2v (pte_addr pte))) (p2v (pte_addr pte)) in
                  some (inr (os.set_entry w3 va 0))
            ]
      ]

  unfoldable pub move_pages : W → ℕ → ℕ → ℕ → ℕ → Option (W ⊎ W)
  unfolding move_page
  move_pages w oldaddr newaddr zero j = some (inr w)
  move_pages w oldaddr newaddr (suc n) j = elim (move_page w oldaddr newaddr j) [
    | none ↦ none
    | some (inl w') ↦ some (inl w')
    | some (inr w') ↦ move_pages w' oldaddr newaddr n (j + 1)
  ]

  unfoldable pub shrink_mapping : Mappings → W → ℕ → ℕ → ℕ → Remapped W
  unfolding cut_pages
  shrink_mapping p w i oldaddr newsize =
      let first = pgroundup newsize / pgsize in
      elim (cut_pages w (p.vmas i) oldaddr (pages (p.vmas i).length - first) first) [
        | none ↦ fault
        | some w' ↦
            remapped_at oldaddr
              (record p { vmas = put_vma p.vmas i (record (p.vmas i) { length = newsize }) }) w'
      ]

  unfoldable pub move_mapping : Mappings → W → ℕ → ℕ → ℕ → ℕ → Remapped W
  unfolding find_vmap_addr shift_left moved_vmas move_pages
  move_mapping p w i oldaddr newsize flags =
      let (position, v) =
        find_vmap_addr (record p { vmas = shift_left p.vmas i (max_vmaps - 1 - i) }) newsize in
      elim position [
        | none ↦ outside
        | some k ↦
            let q = record p { vmas = moved_vmas v k (p.vmas i) newsize flags } in
            elim (move_pages w oldaddr (v k).addr (pages newsize) 0) [
              | none ↦ fault
              | some (inl w') ↦ refused q w'
              | some (inr w') ↦ remapped_at (v k).addr q w'
            ]
      ]

  -- `mywremap`
  unfoldable pub mywremap : Mappings → W → ℕ → ℕ → ℕ → ℕ → Remapped W
  unfolding find_exact expand_vma shrink_mapping move_mapping
  mywremap p w oldaddr oldsize newsize flags =
      if newsize == 0 || leb (2 ^ 31) newsize
      then refused p w
      else elim (find_exact p.vmas oldaddr oldsize max_vmaps 0) [
        | none ↦ refused p w
        | some i ↦
            if ltb oldsize (2 ^ 31) && ltb newsize oldsize
            then shrink_mapping p w i oldaddr newsize
            else if can_expand p i oldaddr newsize
            then remapped_at (p.vmas i).addr (expand_vma p i newsize) w
            else if not (bit_and flags mremap_maymove == 0)
            then move_mapping p w i oldaddr newsize flags
            else refused p w
      ]
