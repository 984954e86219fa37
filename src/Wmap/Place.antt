-- ===== src/Wmap/Place.antt =====
-- `find_vmap_addr` and `mywmap` of cs537/P4/xv6-public/wmap.c.
use schoolwork.Common.{
  ℕ, zero, suc, ◌+◌, ◌%◌, bit_and, Bool, true, false, ◌&&◌, ◌||◌, not, Option, none, some, ltb, leb,
  ◌==◌, if◌then◌else◌, length,
}
use schoolwork.Wmap.Vma.{
  max_vmaps, wmap_base, kernbase, pgsize, Vma, Vmas, Mappings, put_vma, copy_vma_struct,
  right_shift_vmas, pgroundup, minus, plus,
}

abbrev pub map_private : ℕ
map_private = 1

abbrev pub map_shared : ℕ
map_shared = 2

abbrev pub map_anonymous : ℕ
map_anonymous = 4

abbrev pub map_fixed : ℕ
map_fixed = 8

-- The loop of `find_vmap_addr` from the index `i` on, for at most `n` rounds.
unfoldable pub find_gap : Mappings → ℕ → ℕ → ℕ → ℕ
find_gap p size zero i = i
find_gap p size (suc n) i =
    let rest = find_gap p size n (i + 1) in
    if ltb i p.total_vmaps && not ((p.vmas (i + 1)).addr == 0)
    then (if ltb (minus size 1) (
          minus (pgroundup (p.vmas (i + 1)).addr)
            (pgroundup (plus (p.vmas i).addr (p.vmas i).length)))
        then i
        else rest)
    else i

-- `find_vmap_addr`: the index of the new mapping, `none` for -1, and the array.
unfoldable pub find_vmap_addr : Mappings → ℕ → Option ℕ × Vmas
unfolding find_gap right_shift_vmas
find_vmap_addr p size =
    if p.total_vmaps == 0
    then (if leb kernbase (pgroundup (plus wmap_base size)) then (none, p.vmas) else (
      some 0,
      put_vma p.vmas 0 (record (p.vmas 0) { addr = pgroundup wmap_base; length = size }),
    ))
    else if ltb size (minus (p.vmas 0).addr wmap_base)
    then (some 0, right_shift_vmas p 0 wmap_base size)
    else (let i = find_gap p size p.total_vmaps 0 in
        let addr = pgroundup (plus (p.vmas i).addr (p.vmas i).length) in
        if ltb kernbase (plus addr size)
        then (none, p.vmas)
        else (some (i + 1), right_shift_vmas p (i + 1) addr size))

-- The search for an entry that is not mapped.
unfoldable pub has_free : Vmas → ℕ → ℕ → Bool
has_free v zero i = false
has_free v (suc n) i = let rest = has_free v n (i + 1) in if (v i).mapped == 0 then true else rest

-- Whether a mapping and the new one are found to overlap.
abbrev pub overlap_found : Vma → ℕ → ℕ → Bool
overlap_found v addr length =
    (leb v.addr addr && ltb addr v.end_addr)
    || (ltb v.addr (plus addr length) && leb (plus addr length) v.end_addr)

-- The loop over the array that looks for an overlap.
unfoldable pub overlaps : Vmas → ℕ → ℕ → ℕ → ℕ → Bool
overlaps v addr length zero j = false
overlaps v addr length (suc n) j =
    let rest = overlaps v addr length n (j + 1) in
    if not ((v j).mapped == 0) && overlap_found (v j) addr length then true else rest

-- The loop that moves the mappings above `addr` up: the index that is free then, and the array.
unfoldable pub insert_slot : Vmas → ℕ → ℕ → ℕ × Vmas
insert_slot v addr zero = (0, v)
insert_slot v addr (suc n) =
    let rest = insert_slot (put_vma v (suc n) (copy_vma_struct (v (suc n)) (v n))) addr n in
    if ltb addr (v n).addr then rest else (suc n, v)

abbrev pub new_vma : ℕ → ℕ → ℕ → ℕ → Vma
new_vma addr length flags f = record {
  addr = addr;
  end_addr = plus addr length;
  length = length;
  flags = flags;
  f = f;
  mapped = 1;
  num_loaded = 0;
  ref = 0;
}

-- What `mywmap` comes to: `FAILED`, or the address. `outside` is the write to `vmas[-1]` that
-- follows when `find_vmap_addr` returns -1.
pub data Wmapped : Type 0 where
  failed : Wmapped
  mapped_at : ℕ → Mappings → Wmapped
  outside : Wmapped

unfoldable pub map_fixed_at : Mappings → ℕ → ℕ → ℕ → ℕ → Wmapped
unfolding overlaps insert_slot
map_fixed_at p addr length flags f =
    if not (addr % pgsize == 0)
    then failed
    else if ltb addr wmap_base || ltb kernbase (plus addr length)
    then failed
    else if overlaps p.vmas addr length max_vmaps 0
    then failed
    else (let (j, v) = insert_slot p.vmas addr p.total_vmaps in
        mapped_at addr (record {
          vmas = put_vma v j (new_vma addr length flags f);
          total_vmaps = p.total_vmaps + 1;
        }))

-- What follows the search, at the index that it returned.
unfoldable pub map_position : Mappings → ℕ → ℕ → ℕ → Option ℕ → Vmas → Wmapped
map_position p length flags f none v = outside
map_position p length flags f (some i) v = mapped_at (v i).addr (record {
  vmas = put_vma v i (new_vma (v i).addr length flags f);
  total_vmaps = p.total_vmaps + 1;
})

unfoldable pub map_anywhere : Mappings → ℕ → ℕ → ℕ → Wmapped
unfolding find_vmap_addr map_position
map_anywhere p length flags f =
    let (position, v) = find_vmap_addr p length in map_position p length flags f position v

-- `mywmap`
unfoldable pub mywmap : Mappings → ℕ → ℕ → ℕ → ℕ → Wmapped
unfolding has_free map_fixed_at map_anywhere
mywmap p addr length flags f =
    if not (bit_and flags map_private == 0) && not (bit_and flags map_shared == 0)
    then failed
    else if bit_and flags map_private == 0 && bit_and flags map_shared == 0
    then failed
    else if not (has_free p.vmas max_vmaps 0)
    then failed
    else if not (bit_and flags map_fixed == 0)
    then map_fixed_at p addr length flags f
    else map_anywhere p length flags f
