-- ===== src/Wfs/Removal.antt =====
-- The operations of cs537/P7/wfs.c that remove files and directories, and free their blocks.
pub mod Entry
pub mod Removed
use schoolwork.Common.{
  ℕ, zero, suc, ◌+◌, ◌-◌, ◌*◌, ◌/◌, bit_and, ◌&&◌, not, Option, none, some, [], ◌∷◌, leb, ◌==◌,
  if◌then◌else◌,
}
use schoolwork.Common.Bytes.{Bytes, str_eq}
use schoolwork.Common.Int.{ℤ, pos, negsuc, eq_ℤ}
use schoolwork.Wfs.Memory.{
  Mem, load, store, clear, str_eq_at, Io, ◌>>=◌, ◌>>◌, pure, fault, fetch, put, modify, ask, need,
}
use schoolwork.Wfs.Layout.{
  block_size, max_name, d_block, ind_block, entries_per_block, pointers_per_block, i_bitmap_ptr,
  d_bitmap_ptr, d_blocks_ptr, inode_mode, inode_block, entry, entry_num, s_iwusr, enoent, eacces,
  einval, get_inode_by_number, get_directory_entry,
}
use schoolwork.Wfs.Bitmap.{clear_bitmap_bit}
use schoolwork.Wfs.Path.{split_last_slash, path2inode}

-- The bit of a block in the data bitmap is cleared; a pointer below the data blocks is a fault.
unfoldable pub free_block_bit : ℕ → Io (Unit {0})
free_block_bit b m =
    if leb (d_blocks_ptr m) b
    then some (tt, clear_bitmap_bit m (d_bitmap_ptr m) ((b - d_blocks_ptr m) / block_size))
    else none

-- The loop of `releaseDataBlocks` over the direct blocks, the `n` from `i` on.
unfoldable pub release_direct : ℕ → ℕ → ℕ → Io (Unit {0})
unfolding free_block_bit
release_direct inode zero i = pure tt
release_direct inode (suc n) i = do
  b ← fetch 8 (inode_block inode i)
  if b == 0 then pure tt else do
    modify λ m. clear m b block_size
    b' ← fetch 8 (inode_block inode i)
    free_block_bit b'
    put 8 (inode_block inode i) 0
  release_direct inode n (i + 1)

-- The loop over the pointers of the indirect block.
unfoldable pub release_indirect : ℕ → ℕ → ℕ → Io (Unit {0})
unfolding free_block_bit
release_indirect indirect zero i = pure tt
release_indirect indirect (suc n) i = do
  b ← fetch 8 (indirect + 8 * i)
  if b == 0
      then pure tt
      else do free_block_bit b; b' ← fetch 8 (indirect + 8 * i); modify λ m. clear m b' block_size
  release_indirect indirect n (i + 1)

-- `releaseDataBlocks`; it leaves the pointer to the indirect block in the inode.
unfoldable pub release_data_blocks : ℕ → Io (Unit {0})
unfolding release_direct release_indirect
release_data_blocks inode = do
  release_direct inode d_block 0
  indirect ← fetch 8 (inode_block inode ind_block)
  if indirect == 0 then pure tt else do
    release_indirect indirect pointers_per_block 0
    modify λ m. clear m indirect block_size
    b ← fetch 8 (inode_block inode ind_block)
    free_block_bit b

-- The first of the `n` entries from `j` on that is in use and has the name.
unfoldable pub find_used_entry : Mem → ℕ → Bytes → ℕ → ℕ → Option ℕ
find_used_entry m b name zero j = none
find_used_entry m b name (suc n) j =
    let rest = find_used_entry m b name n (j + 1) in
    if not (load 4 m (entry_num b j) == 0) && str_eq_at m (entry b j) name
    then some (entry b j)
    else rest

-- The loop of `removeDirectoryEntry`; a block pointer of 0 is followed like any other.
unfoldable pub remove_entry_from : ℕ → Bytes → ℕ → ℕ → Io ℤ
remove_entry_from parent name zero i m = some (enoent, m)
remove_entry_from parent name (suc n) i m =
    let rest = remove_entry_from parent name n (i + 1) m in
    elim (get_directory_entry (load 8 m (inode_block parent i))) [
      | none ↦ none
      | some b ↦ elim (find_used_entry m b name entries_per_block 0) [
        | some e ↦ some (pos 0, clear (store 4 m (e + 28) 0) e max_name)
        | none ↦ rest
      ]
    ]

-- `removeDirectoryEntry`
unfoldable pub remove_directory_entry : Bytes → Io ℤ
remove_directory_entry path = elim (split_last_slash path) [
  | none ↦ pure einval
  | some (dir, name) ↦ do
    parent ← ask (λ m. path2inode m dir) >>= need
    if eq_ℤ parent (negsuc 0) then pure enoent else do
      parent_ptr ← ask (λ m. get_inode_by_number m parent) >>= need
      mode ← fetch 4 (inode_mode parent_ptr)
      if bit_and mode s_iwusr == 0 then pure eacces else remove_entry_from parent_ptr name d_block 0
]

-- A bit of the inode bitmap is cleared; a negative index is a fault.
unfoldable pub free_inode_bit : ℤ → Io (Unit {0})
free_inode_bit (negsuc n) = fault
free_inode_bit (pos n) = modify λ m. clear_bitmap_bit m (i_bitmap_ptr m) n

unfoldable pub wfs_unlink : Bytes → Io ℤ
unfolding release_data_blocks remove_directory_entry free_inode_bit
wfs_unlink path = do
  number ← ask (λ m. path2inode m path) >>= need
  if eq_ℤ number (negsuc 0) then pure enoent else do
    inode ← ask (λ m. get_inode_by_number m number) >>= need
    mode ← fetch 4 (inode_mode inode)
    if bit_and mode s_iwusr == 0 then pure eacces else do
      release_data_blocks inode
      result ← remove_directory_entry path
      if eq_ℤ result (pos 0) then (do free_inode_bit number; pure (pos 0)) else pure result

-- The loop of `wfs_rmdir` over the direct blocks: their bits are cleared, and nothing else.
unfoldable pub free_directory_blocks : ℕ → ℕ → ℕ → Io (Unit {0})
unfolding free_block_bit
free_directory_blocks inode zero i = pure tt
free_directory_blocks inode (suc n) i = do
  b ← fetch 8 (inode_block inode i)
  if b == 0 then pure tt else free_block_bit b
  free_directory_blocks inode n (i + 1)

-- `wfs_rmdir` from the lookup on.
unfoldable pub remove_directory : Bytes → Io ℤ
unfolding free_directory_blocks remove_directory_entry free_inode_bit
remove_directory path = do
  number ← ask (λ m. path2inode m path) >>= need
  if eq_ℤ number (negsuc 0) then pure enoent else do
    inode ← ask (λ m. get_inode_by_number m number) >>= need
    mode ← fetch 4 (inode_mode inode)
    if bit_and mode s_iwusr == 0 then pure eacces else do
      free_directory_blocks inode d_block 0
      result ← remove_directory_entry path
      if eq_ℤ result (pos 0) then (do free_inode_bit number; pure (pos 0)) else pure result

unfoldable pub wfs_rmdir : Bytes → Io ℤ
unfolding remove_directory
wfs_rmdir path = elim (split_last_slash path) [
  | none ↦ remove_directory path
  | some (dir, name) ↦ if str_eq name (b'.' ∷ []) then pure einval else remove_directory path
]
