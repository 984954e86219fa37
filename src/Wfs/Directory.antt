-- ===== src/Wfs/Directory.antt =====
-- The operations of cs537/P7/wfs.c that create files and directories.
pub mod Entry
pub mod Room
pub mod Found
pub mod Created
pub mod Inode
pub mod Create
pub mod Lookup
pub mod Formatted
use schoolwork.Common.{
  ℕ, zero, suc, ◌+◌, ◌-◌, bit_and, bit_or, Option, none, some, [], ◌∷◌, ◌++◌, leb, ◌==◌,
  if◌then◌else◌, length, take,
}
use schoolwork.Common.Bytes.{Bytes}
use schoolwork.Common.Int.{ℤ, pos, negsuc, unsigned, eq_ℤ}
use schoolwork.Wfs.Memory.{
  Mem, load, write_bytes, Io, ◌>>=◌, ◌>>◌, pure, fetch, put, modify, ask, need,
}
use schoolwork.Wfs.Layout.{
  max_name, n_blocks, entries_per_block, inode_mode, inode_uid, inode_gid, inode_size, inode_nlinks,
  inode_atim, inode_mtim, inode_ctim, inode_block, entry, entry_num, s_ifdir, s_iwusr, enoent,
  eacces, einval, enospc, enametoolong, get_inode_by_number, get_directory_entry,
}
use schoolwork.Wfs.Bitmap.{get_empty_inode, allocate_data_block}
use schoolwork.Wfs.Path.{split_last_slash, path2inode}

-- What the system calls `getuid`, `getgid` and `time` return.
pub record Context : Type 0 where
  pub uid : ℕ
  pub gid : ℕ
  pub now : ℕ

-- A new entry: `snprintf` writes at most 27 bytes of the name and a NUL byte, and returns the
-- length of the whole name.
unfoldable pub write_entry : ℕ → ℕ → Bytes → ℕ → ℕ → Io ℤ
write_entry parent e name number now = do
  modify λ m. write_bytes m e (take (max_name - 1) name ++ (0 ∷ []))
  if leb max_name (length name)
      then pure enametoolong
      else do put 4 (e + 28) number; put 8 (inode_mtim parent) now; pure (pos 0)

-- The first of the `n` entries from `j` on whose number is 0.
unfoldable pub free_entry : Mem → ℕ → ℕ → ℕ → Option ℕ
free_entry m b zero j = none
free_entry m b (suc n) j =
    let rest = free_entry m b n (j + 1) in
    if load 4 m (entry_num b j) == 0 then some (entry b j) else rest

-- The loop of `addDirectoryEntry` over the `n` blocks from `i` on.
unfoldable pub add_entry_from : ℕ → Bytes → ℕ → ℕ → ℕ → ℕ → Io ℤ
add_entry_from parent name number now zero i m = some (enospc, m)
add_entry_from parent name number now (suc n) i m =
    let rest = add_entry_from parent name number now n (i + 1) m in
    let b = load 8 m (inode_block parent i) in
    if b == 0
    then (let (block, m') = allocate_data_block m in
        if eq_ℤ block enospc
        then some (enospc, m')
        else (do
          put 8 (inode_block parent i) (unsigned 64 block)
          e ← need (get_directory_entry (unsigned 64 block))
          write_entry parent e name number now)
            m')
    else elim (get_directory_entry b) [
      | none ↦ none
      | some a ↦ elim (free_entry m a entries_per_block 0) [
        | some e ↦ write_entry parent e name number now m
        | none ↦ rest
      ]
    ]

unfoldable pub add_directory_entry : ℕ → Bytes → ℕ → ℕ → Io ℤ
unfolding add_entry_from
add_directory_entry parent name number now = add_entry_from parent name number now n_blocks 0

-- The new inode's fields, in the order of the code. The block pointers are left as they are.
unfoldable pub init_inode : Context → ℕ → ℕ → ℕ → Io (Unit {0})
init_inode c a number mode = do
  put 4 a number
  put 4 (inode_mode a) mode
  put 4 (inode_nlinks a) 1
  put 4 (inode_uid a) c.uid
  put 4 (inode_gid a) c.gid
  put 8 (inode_size a) 0
  put 8 (inode_atim a) c.now
  put 8 (inode_mtim a) c.now
  put 8 (inode_ctim a) c.now

-- `createNewEntry` from the parent's inode on. The test for an inode of -1 can only pass for the
-- allocator: `path2inode` reports a missing parent by another number.
unfoldable pub create_in : Context → ℤ → Bytes → ℕ → Io ℤ
create_in c parent name mode = do
  if eq_ℤ parent (negsuc 0) then pure enoent else do
    parent_ptr ← ask (λ m. get_inode_by_number m parent) >>= need
    parent_mode ← fetch 4 (inode_mode parent_ptr)
    if bit_and parent_mode s_iwusr == 0 then pure eacces else do
      number ← λ m. some (get_empty_inode m)
      if eq_ℤ number (negsuc 0) then pure enospc else do
        new_inode ← ask (λ m. get_inode_by_number m number) >>= need
        init_inode c new_inode (unsigned 32 number) mode
        result ← add_directory_entry parent_ptr name (unsigned 32 number) c.now
        if eq_ℤ result (pos 0) then pure (pos 0) else pure enospc

-- `createNewEntry`
unfoldable pub create_new_entry : Context → Bytes → ℕ → Io ℤ
create_new_entry c path mode = elim (split_last_slash path) [
  | none ↦ pure einval
  | some (dir, name) ↦ do
    parent ← ask (λ m. path2inode m dir) >>= need
    create_in c parent name mode
]

unfoldable pub wfs_mknod : Context → Bytes → ℕ → Io ℤ
unfolding create_new_entry
wfs_mknod c path mode = create_new_entry c path mode

unfoldable pub wfs_mkdir : Context → Bytes → ℕ → Io ℤ
unfolding create_new_entry
wfs_mkdir c path mode = create_new_entry c path (bit_or mode s_ifdir)
