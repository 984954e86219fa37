-- ===== src/Wfs/Mkfs/Sizes.antt =====
-- The sizes and offsets that cs537/P7/mkfs.c computes.
use schoolwork.Common.{ℕ, ◌+◌, ◌-◌, ◌*◌, ◌%◌, ◌^◌, ◌≤◌, ◌<◌, ◌≡◌, arith}
use schoolwork.Wfs.Layout.{block_size, sb_size}
use schoolwork.Wfs.Mkfs.{round_up, bitmap_bytes, regions}

-- Below 2 ^ 63, rounding gives the next multiple of 32: not below the number, and above it by less
-- than 32.
pub round_up_bounds :
    (n : ℕ) → n < 2 ^ 63 → (n ≤ round_up n) × (round_up n < n + 32) × (round_up n % 32 ≡ 0)
unfolding round_up
round_up_bounds n h = omega arith

-- The regions follow one another: the bitmaps have a bit for each inode and each block, and the
-- inodes and the blocks fill the rest.
pub regions_ordered :
    (inodes blocks : ℕ)
    → let r = regions inodes blocks in
      (r.i_bitmap ≡ sb_size)
      × (inodes ≤ 8 * (r.d_bitmap - r.i_bitmap))
      × (blocks ≤ 8 * (r.i_blocks - r.d_bitmap))
      × (r.i_bitmap ≤ r.d_bitmap)
      × (r.d_bitmap ≤ r.i_blocks)
      × (r.d_blocks ≡ r.i_blocks + inodes * block_size)
      × (r.total ≡ r.d_blocks + blocks * block_size)
unfolding regions bitmap_bytes
regions_ordered inodes blocks = omega arith
