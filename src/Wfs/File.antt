-- ===== src/Wfs/File.antt =====
-- `wfs_getattr`, `wfs_read`, `wfs_write` and `wfs_readdir` of cs537/P7/wfs.c.
pub mod RoundTrip
use schoolwork.Common.{
  ℕ, zero, suc, ◌+◌, ◌-◌, ◌/◌, ◌%◌, ◌^◌, bit_and, min, true, false, Option, none, some, List, [],
  ◌∷◌, ◌++◌, ltb, leb, ◌==◌, if◌then◌else◌, length, take, drop,
}
use schoolwork.Common.Bytes.{Bytes, codes}
use schoolwork.Common.Int.{ℤ, pos, negsuc, eq_ℤ}
use schoolwork.Wfs.Memory.{
  Mem, load, write_bytes, read_bytes, string_at, Io, ◌>>=◌, ◌>>◌, pure, fetch, put, modify, ask,
  need,
}
use schoolwork.Wfs.Layout.{
  block_size, max_name, n_blocks, entries_per_block, pointers_per_block, inode_mode, inode_uid,
  inode_gid, inode_size, inode_atim, inode_mtim, inode_block, entry, entry_num, s_ifreg, enoent,
  eio, eisdir, enotdir, efbig, enospc, get_inode_by_number, get_directory_entry,
}
use schoolwork.Wfs.Path.{path2inode, is_directory}
use schoolwork.Wfs.Blocks.{get_block_ptr}

-- The fields of `struct stat` that are filled in.
pub record Stat : Type 0 where
  pub st_uid : ℕ
  pub st_gid : ℕ
  pub st_atime : ℕ
  pub st_mtime : ℕ
  pub st_mode : ℕ
  pub st_size : ℕ

unfoldable pub wfs_getattr : Mem → Bytes → Option (ℤ × Option Stat)
wfs_getattr m path = elim (path2inode m path) [
  | none ↦ none
  | some number ↦
      if eq_ℤ number enoent then some (enoent, none) else elim (get_inode_by_number m number) [
        | none ↦ none
        | some a ↦ some (
          pos 0,
          some (record {
            st_uid = load 4 m (inode_uid a);
            st_gid = load 4 m (inode_gid a);
            st_atime = load 8 m (inode_atim a);
            st_mtime = load 8 m (inode_mtim a);
            st_mode = load 4 m (inode_mode a);
            st_size = load 8 m (inode_size a);
          }),
        )
      ]
]

-- How much of the `remaining` bytes from an offset on lies in the offset's block.
abbrev pub chunk : ℕ → ℕ → ℕ
chunk offset remaining = min (block_size - offset % block_size) remaining

-- The loop of `wfs_read`: the status and the bytes copied to the buffer so far. Each round copies
-- at least a byte, so `remaining` rounds are enough.
unfoldable pub read_loop : ℕ → ℕ → ℕ → ℕ → Bytes → Io (ℤ × Bytes)
read_loop zero inode offset remaining done = pure (pos (length done), done)
read_loop (suc fuel) inode offset remaining done =
    if remaining == 0 then pure (pos (length done), done) else do
      block ← get_block_ptr inode (offset / block_size) false
      elim block [
        | none ↦ pure (eio, done)
        | some b ↦ λ m.
            read_loop fuel inode (offset + chunk offset remaining)
              (remaining - chunk offset remaining)
              (done ++ read_bytes m (b + offset % block_size) (chunk offset remaining)) m
      ]

-- The size is a `size_t` and wraps in the test; a file's size is not negative.
unfoldable pub wfs_read : Bytes → ℕ → ℕ → Io (ℤ × Bytes)
unfolding read_loop
wfs_read path size offset = do
  number ← ask (λ m. path2inode m path) >>= need
  if eq_ℤ number enoent then pure (enoent, []) else do
    inode ← ask (λ m. get_inode_by_number m number) >>= need
    mode ← fetch 4 (inode_mode inode)
    if bit_and mode s_ifreg == 0 then pure (eisdir, []) else do
      file_size ← fetch 8 (inode_size inode)
      if leb file_size offset then pure (pos 0, []) else do
        let count = if ltb file_size ((offset + size) % 2 ^ 64) then file_size - offset else size
        read_loop count inode offset count []

-- The loop of `wfs_write` over what is left of the buffer.
unfoldable pub write_loop : ℕ → ℕ → ℕ → Bytes → ℕ → Io ℤ
write_loop zero inode offset buf written = pure (pos written)
write_loop (suc fuel) inode offset buf written =
    if length buf == 0
    then pure (pos written)
    else if leb (n_blocks + pointers_per_block) (offset / block_size)
    then pure efbig
    else do
      block ← get_block_ptr inode (offset / block_size) true
      elim block [
        | none ↦ pure enospc
        | some b ↦ do
          modify λ m. write_bytes m (b + offset % block_size) (take (chunk offset (length buf)) buf)
          write_loop fuel inode (offset + chunk offset (length buf))
              (drop (chunk offset (length buf)) buf) (written + chunk offset (length buf))
      ]

unfoldable pub wfs_write : Bytes → Bytes → ℕ → Io ℤ
unfolding write_loop
wfs_write path buf offset = do
  number ← ask (λ m. path2inode m path) >>= need
  if eq_ℤ number (negsuc 0) then pure enoent else do
    inode ← ask (λ m. get_inode_by_number m number) >>= need
    mode ← fetch 4 (inode_mode inode)
    if bit_and mode s_ifreg == 0 then pure eisdir else do
      file_size ← fetch 8 (inode_size inode)
      if ltb file_size offset then pure efbig else do
        if ltb file_size (offset + length buf)
            then put 8 (inode_size inode) (offset + length buf)
            else pure tt
        write_loop (length buf) inode offset buf 0

-- The names of the `n` entries from `j` on that are in use.
unfoldable pub names_in_block : Mem → ℕ → ℕ → ℕ → List Bytes
names_in_block m b zero j = []
names_in_block m b (suc n) j =
    let rest = names_in_block m b n (j + 1) in
    if load 4 m (entry_num b j) == 0 then rest else string_at m (entry b j) max_name ∷ rest

unfoldable pub names_from : Mem → ℕ → ℕ → ℕ → Option (List Bytes)
unfolding names_in_block
names_from m inode zero i = some []
names_from m inode (suc n) i =
    let rest = names_from m inode n (i + 1) in
    if load 8 m (inode_block inode i) == 0
    then rest
    else elim (get_directory_entry (load 8 m (inode_block inode i))) [
      | none ↦ none
      | some b ↦ elim rest [
        | none ↦ none
        | some names ↦ some (names_in_block m b entries_per_block 0 ++ names)
      ]
    ]

-- `wfs_readdir`: the status and the names given to the filler.
unfoldable pub wfs_readdir : Mem → Bytes → Option (ℤ × List Bytes)
unfolding names_from
wfs_readdir m path = elim (path2inode m path) [
  | none ↦ none
  | some number ↦ if eq_ℤ number enoent then some (enoent, []) else elim (is_directory m number) [
    | none ↦ none
    | some directory ↦
        if directory
        then elim (get_inode_by_number m number) [
          | none ↦ none
          | some a ↦ elim (names_from m a n_blocks 0) [
            | none ↦ none
            | some names ↦ some (pos 0, codes "." ∷ codes ".." ∷ names)
          ]
        ]
        else some (enotdir, [])
  ]
]
