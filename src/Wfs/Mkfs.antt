-- ===== src/Wfs/Mkfs.antt =====
-- cs537/P7/mkfs.c: the image of a new file system.
pub mod Sizes
pub mod Image
pub mod Fresh
use schoolwork.Common.{ℕ, ◌+◌, ◌-◌, ◌*◌, ◌/◌, ◌%◌, ◌^◌, bit_or, ◌||◌, ltb, ◌==◌, if◌then◌else◌}
use schoolwork.Wfs.Memory.{Mem, store, clear}
use schoolwork.Wfs.Layout.{
  block_size, sb_size, inode_mode, inode_uid, inode_gid, inode_size, inode_nlinks, inode_atim,
  inode_mtim, inode_ctim, s_ifdir,
}
use schoolwork.Wfs.Bitmap.{set_bitmap_bit}

-- `(n + 31) & ~(size_t) 31`
unfoldable pub round_up : ℕ → ℕ
round_up n = (n + 31) % 2 ^ 64 / 32 * 32

-- The sizes and offsets that `main` computes, for the rounded numbers of inodes and blocks.
unfoldable pub bitmap_bytes : ℕ → ℕ
bitmap_bytes n = (n + 7) / 8

pub record Regions : Type 0 where
  pub i_bitmap : ℕ
  pub d_bitmap : ℕ
  pub i_blocks : ℕ
  pub d_blocks : ℕ
  pub total : ℕ

unfoldable pub regions : ℕ → ℕ → Regions
unfolding bitmap_bytes
regions inodes blocks = record {
  i_bitmap = sb_size;
  d_bitmap = sb_size + bitmap_bytes inodes;
  i_blocks = sb_size + bitmap_bytes inodes + bitmap_bytes blocks;
  d_blocks = sb_size + bitmap_bytes inodes + bitmap_bytes blocks + inodes * block_size;
  total =
      sb_size
      + bitmap_bytes inodes
      + bitmap_bytes blocks
      + inodes * block_size
      + block_size * blocks;
}

-- The stores to the superblock.
unfoldable pub write_superblock : Mem → ℕ → ℕ → Regions → Mem
write_superblock m inodes blocks r =
    store 8
      (store 8
        (store 8 (store 8 (store 8 (store 8 m 0 inodes) 8 blocks) 16 r.i_bitmap) 24 r.d_bitmap) 32
        r.i_blocks)
      40 r.d_blocks

-- The stores to the root inode, at its address.
unfoldable pub write_root : Mem → ℕ → ℕ → ℕ → Mem
write_root m a uid now =
    store 8
      (store 8
        (store 8
          (store 4
            (store 8
              (store 4
                (store 4 (store 4 (store 4 m a 0) (inode_mode a) (bit_or s_ifdir 0x1ed))
                  (inode_uid a) uid)
                (inode_gid a) uid)
              (inode_size a) block_size)
            (inode_nlinks a) 2)
          (inode_atim a) now)
        (inode_mtim a) now)
      (inode_ctim a) now

-- `main` from the rounding on, for an image of `file_size` bytes: the exit status and the image.
unfoldable pub mkfs : Mem → ℕ → ℕ → ℕ → ℕ → ℕ → ℕ × Mem
unfolding round_up regions write_superblock write_root
mkfs m file_size num_inodes num_blocks uid now =
    if num_inodes == 0 || num_blocks == 0
    then (1, m)
    else let inodes = round_up num_inodes in
      let blocks = round_up num_blocks in
      let r = regions inodes blocks in
      if ltb file_size r.total
      then (1, m)
      else (let formatted = write_superblock m inodes blocks r in
          let cleared = clear formatted sb_size (r.i_blocks - sb_size) in
          let emptied = clear cleared r.i_blocks (inodes * block_size) in
          (0, set_bitmap_bit (write_root emptied r.i_blocks uid now) r.i_bitmap 0))
