-- ===== src/Wfs/Path.antt =====
-- Path lookup in cs537/P7/wfs.c.
pub mod Walk
use schoolwork.Common.{
  ℕ, zero, suc, ◌+◌, ◌-◌, ◌/◌, ◌%◌, ◌^◌, ltb, bit_and, Bool, true, false, ◌&&◌, not, Option, none,
  some, List, [], ◌∷◌, leb, ◌==◌, if◌then◌else◌, length,
}
use schoolwork.Common.Bytes.{Bytes, str_eq, tokens}
use schoolwork.Common.Int.{ℤ, pos, negsuc, signed32}
use schoolwork.Wfs.Memory.{Mem, load, str_eq_at}
use schoolwork.Wfs.Layout.{
  entries_per_block, n_blocks, num_inodes, i_bitmap_ptr, i_blocks_ptr, inode_block, inode_mode,
  entry, entry_num, get_inode_by_number, get_directory_entry, enoent, s_ifdir,
}
use schoolwork.Wfs.Bitmap.{is_bitmap_bit_set}

abbrev pub slash : ℕ
slash = b'/'

-- `strrchr (path, '/')`: what stands before the last slash, and behind it.
unfoldable pub split_last_slash : Bytes → Option (Bytes × Bytes)
split_last_slash [] = none
split_last_slash (c ∷ s) = elim (split_last_slash s) [
  | some (dir, name) ↦ some (c ∷ dir, name)
  | none ↦ if c == slash then some ([], s) else none
]

-- The first of the `n` entries from `j` on whose name is the token; its inode number.
unfoldable pub find_in_block : Mem → ℕ → Bytes → ℕ → ℕ → Option ℤ
find_in_block m b token zero j = none
find_in_block m b token (suc n) j =
    let rest = find_in_block m b token n (j + 1) in
    if str_eq_at m (entry b j) token then some (signed32 (load 4 m (entry_num b j))) else rest

-- What a search, or the whole lookup, comes to.
pub data Found : Type 0 where
  found : ℤ → Found
  missing : Found
  bad_access : Found  -- an access outside the image

-- The `n` blocks from `i` on of the directory whose inode is at `inode`.
unfoldable pub find_in_directory : Mem → ℕ → Bytes → ℕ → ℕ → Found
find_in_directory m inode token zero i = missing
find_in_directory m inode token (suc n) i =
    let rest = find_in_directory m inode token n (i + 1) in
    if load 8 m (inode_block inode i) == 0
    then rest
    else elim (get_directory_entry (load 8 m (inode_block inode i))) [
      | none ↦ bad_access
      | some b ↦ elim (find_in_block m b token entries_per_block 0) [
        | some number ↦ found number
        | none ↦ rest
      ]
    ]

-- The loop of `path2inode` over the tokens: the inode that the lookup has come to, by number and
-- address, and whether the last token was found. `last` is what stands behind the last slash; an
-- entry of that name ends the loop with success. A token that is not found changes nothing.
pub record Position : Type 0 where
  pub number : ℤ
  pub address : ℕ
  pub final : Bool

unfoldable pub walk : Mem → Option Bytes → List Bytes → ℤ → ℕ → Option Position
walk m last [] number inode = some (record { number = number; address = inode; final = false })
walk m last (token ∷ ts) number inode =
    let skip = walk m last ts number inode in
    elim (find_in_directory m inode token n_blocks 0) [
      | bad_access ↦ none
      | missing ↦ skip
      | found n ↦ elim last [
        | none ↦ none
        | some name ↦ elim (get_inode_by_number m n) [
          | none ↦ none
          | some inode' ↦
              let go = walk m last ts n inode' in
              if str_eq name token
              then some (record { number = n; address = inode'; final = true })
              else go
        ]
      ]
    ]

-- `is_bitmap_bit_set` at an `int` that is given by its 32 bits; `none` where a negative one shifts
-- by a negative number or the byte lies before the start of the image.
unfoldable pub is_number_set : Mem → ℕ → ℕ → Option Bool
is_number_set m bitmap n =
    let before = 2 ^ 32 - n in
    if ltb n (2 ^ 31)
    then some (is_bitmap_bit_set m bitmap n)
    else if before % 8 == 0 && leb (before / 8) bitmap
    then some (not (bit_and (m (bitmap - before / 8)) 1 == 0))
    else none

-- The end of `path2inode`, from what the loop comes to.
unfoldable pub checked : Mem → Option Position → Option ℤ
unfolding is_number_set
checked m none = none
checked m (some p) =
    if p.final
    then elim (is_number_set m (i_bitmap_ptr m) (load 4 m p.address)) [
      | none ↦ none
      | some used ↦ if used then some p.number else some enoent
    ]
    else some enoent

-- `path2inode`; `none` is a fault.
unfoldable pub path2inode : Mem → Bytes → Option ℤ
unfolding split_last_slash tokens checked
path2inode m path =
    if length path == 0
    then some (pos 0)
    else if str_eq path (slash ∷ [])
    then some (pos 0)
    else checked m (
        walk m (elim (split_last_slash path) [ none ↦ none | some (dir, name) ↦ some name ])
          (tokens slash path) (pos 0) (i_blocks_ptr m))

-- `isDirectory`
unfoldable pub is_directory : Mem → ℤ → Option Bool
is_directory m (negsuc n) = some false
is_directory m (pos n) =
    if leb (num_inodes m) n then some false else elim (get_inode_by_number m (pos n)) [
      | none ↦ none
      | some a ↦ some (not (bit_and (load 4 m (inode_mode a)) s_ifdir == 0))
    ]
