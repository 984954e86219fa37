-- ===== src/Wfs/Blocks.antt =====
-- `get_block_ptr` of cs537/P7/wfs.c: the data block behind a block index of a file.
pub mod Stable
use schoolwork.Common.{
  ℕ, ◌+◌, ◌-◌, ◌*◌, Bool, true, not, Option, none, some, [], ltb, leb, ◌==◌, if◌then◌else◌,
}
use schoolwork.Common.Int.{unsigned, eq_ℤ}
use schoolwork.Wfs.Memory.{load, store, clear, Io, ◌>>=◌, pure}
use schoolwork.Wfs.Layout.{block_size, d_block, ind_block, pointers_per_block, inode_block, enospc}
use schoolwork.Wfs.Bitmap.{allocate_data_block}

-- The block that a pointer in the image names; one is allocated, and the pointer set, where it is
-- 0 and `allocate` says so. `none` is `NULL`.
unfoldable pub block_at : ℕ → Bool → Io (Option ℕ)
block_at pointer allocate m =
    let b = load 8 m pointer in
    if not (b == 0)
    then some (some b, m)
    else if allocate
    then (let (block, m') = allocate_data_block m in
        if eq_ℤ block enospc
        then some (none, m')
        else some (some (unsigned 64 block), store 8 m' pointer (unsigned 64 block)))
    else some (none, m)

-- The indirect block, cleared when it is new.
unfoldable pub indirect_block : ℕ → Bool → Io (Option ℕ)
indirect_block inode allocate m =
    let b = load 8 m (inode_block inode ind_block) in
    if not (b == 0)
    then some (some b, m)
    else if allocate
    then (let (block, m') = allocate_data_block m in
        if eq_ℤ block enospc
        then some (none, m')
        else (let a = unsigned 64 block in
            some (some a, clear (store 8 m' (inode_block inode ind_block) a) a block_size)))
    else some (none, m)

-- A pointer of 0 in the indirect block, where nothing may be allocated, gives the offset 0.
unfoldable pub indirect_entry : ℕ → Bool → Io (Option ℕ)
unfolding block_at
indirect_entry pointer allocate m =
    if allocate then block_at pointer true m else some (some (load 8 m pointer), m)

unfoldable pub get_block_ptr : ℕ → ℕ → Bool → Io (Option ℕ)
unfolding block_at indirect_block indirect_entry
get_block_ptr inode block_index allocate =
    if ltb block_index d_block
    then block_at (inode_block inode block_index) allocate
    else if leb pointers_per_block (block_index - d_block)
    then pure none
    else do
      indirect ← indirect_block inode allocate
      elim indirect [
        | none ↦ pure none
        | some a ↦ indirect_entry (a + 8 * (block_index - d_block)) allocate
      ]
