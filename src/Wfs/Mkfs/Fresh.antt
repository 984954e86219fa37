-- ===== src/Wfs/Mkfs/Fresh.antt =====
-- The file system that `mkfs` leaves in the image.
use schoolwork.Common.{ℕ, ◌+◌, ◌^◌, ◌≤◌, ◌<◌, ◌≡◌, ap, ◌∙◌, true, false, arith, ◌==◌, if◌then◌else◌}
use schoolwork.Wfs.Memory.{Mem, load}
use schoolwork.Wfs.Memory.Frames.{IsImage}
use schoolwork.Wfs.Layout.{
  sb_size, num_inodes, num_data_blocks, i_bitmap_ptr, d_bitmap_ptr, i_blocks_ptr, d_blocks_ptr,
}
use schoolwork.Wfs.Bitmap.{is_bitmap_bit_set}
use schoolwork.Wfs.Bitmap.Laws.{is_set-set, set_bitmap_bit-other}
use schoolwork.Wfs.Mkfs.{round_up, Regions, regions, write_superblock, write_root, mkfs}
use schoolwork.Wfs.Mkfs.Sizes.{round_up_bounds, regions_ordered}
use schoolwork.Wfs.Mkfs.Image.{
  emptied, formatted, superblock_load, sb_inode_count, sb_block_count, sb_i_bitmap_at,
  sb_d_bitmap_at, sb_i_blocks_at, sb_d_blocks_at, emptied-IsImage, root-IsImage, bitmaps_zero,
  clear_byte,
}

-- A file system with nothing in it but the root directory.
pub record IsFresh (inodes blocks : ℕ) (m : Mem) : Type 0 where
  pub inode_count : num_inodes m ≡ inodes
  pub block_count : num_data_blocks m ≡ blocks
  pub i_bitmap_at : i_bitmap_ptr m ≡ (regions inodes blocks).i_bitmap
  pub d_bitmap_at : d_bitmap_ptr m ≡ (regions inodes blocks).d_bitmap
  pub i_blocks_at : i_blocks_ptr m ≡ (regions inodes blocks).i_blocks
  pub d_blocks_at : d_blocks_ptr m ≡ (regions inodes blocks).d_blocks
  pub root_used : is_bitmap_bit_set m (i_bitmap_ptr m) 0 ≡ true
  pub inodes_free : (k : ℕ) → 0 < k → k < inodes → is_bitmap_bit_set m (i_bitmap_ptr m) k ≡ false
  pub blocks_free : (k : ℕ) → k < blocks → is_bitmap_bit_set m (d_bitmap_ptr m) k ≡ false

pub formatted-IsFresh :
    (m : Mem) (inodes blocks uid now : ℕ)
    → IsImage m
    → 8 ≤ inodes
    → inodes < 2 ^ 32
    → blocks < 2 ^ 32
    → IsFresh inodes blocks (formatted m inodes blocks uid now)
formatted-IsFresh m inodes blocks uid now image some_inodes low few = record {
  inode_count = kept 0 (omega arith) ∙ sb_inode_count m inodes blocks low few;
  block_count = kept 8 (omega arith) ∙ sb_block_count m inodes blocks low few;
  i_bitmap_at = i_at;
  d_bitmap_at = d_at;
  i_blocks_at = kept 32 (omega arith) ∙ sb_i_blocks_at m inodes blocks low few;
  d_blocks_at = kept 40 (omega arith) ∙ sb_d_blocks_at m inodes blocks low few;
  root_used = rw i_at (ground (arith, marked 0));
  inodes_free = λ k pos lt. rw i_at (ground (arith, marked k, i_clear k lt));
  blocks_free = λ k lt. rw d_at (d_clear k lt);
}
  where
    image' : Mem
    image' = formatted m inodes blocks uid now

    rs : Regions
    rs = regions inodes blocks

    rooted : Mem
    rooted = write_root (emptied m inodes blocks uid now) rs.i_blocks uid now

    kept :
        (a : ℕ) → a + 8 ≤ sb_size → load 8 image' a ≡ load 8 (write_superblock m inodes blocks rs) a
    kept a h = superblock_load m inodes blocks uid now a h

    i_at : load 8 image' 16 ≡ rs.i_bitmap
    i_at = kept 16 (omega arith) ∙ sb_i_bitmap_at m inodes blocks low few

    d_at : load 8 image' 24 ≡ rs.d_bitmap
    d_at = kept 24 (omega arith) ∙ sb_d_bitmap_at m inodes blocks low few

    marked :
        (k : ℕ)
        → is_bitmap_bit_set image' rs.i_bitmap k
          ≡ (if 0 == k then true else is_bitmap_bit_set rooted rs.i_bitmap k)
    marked k = is_set-set rooted rs.i_bitmap 0 k (
        root-IsImage m inodes blocks uid now image (emptied m inodes blocks uid now) rs.i_blocks
          (emptied-IsImage m inodes blocks uid now image))

    i_clear : (k : ℕ) → k < inodes → is_bitmap_bit_set rooted rs.i_bitmap k ≡ false
    i_clear k lt = clear_byte rooted rs.i_bitmap k (
        bitmaps_zero m inodes blocks uid now image _ (omega (arith, regions_ordered inodes blocks))
          (omega (arith, regions_ordered inodes blocks)))

    d_clear : (k : ℕ) → k < blocks → is_bitmap_bit_set image' rs.d_bitmap k ≡ false
    d_clear k lt = clear_byte image' rs.d_bitmap k (
        set_bitmap_bit-other rooted rs.i_bitmap 0 _ (omega (arith, regions_ordered inodes blocks))
        ∙ bitmaps_zero m inodes blocks uid now image _
            (omega (arith, regions_ordered inodes blocks))
            (omega (arith, regions_ordered inodes blocks)))

-- The image that `mkfs` leaves when the file is large enough.
pub mkfs-formatted :
    (m : Mem) (file_size ni nb uid now : ℕ)
    → 0 < ni
    → 0 < nb
    → (regions (round_up ni) (round_up nb)).total ≤ file_size
    → mkfs m file_size ni nb uid now ≡ (0, formatted m (round_up ni) (round_up nb) uid now)
unfolding mkfs
mkfs-formatted m file_size ni nb uid now pi pb fits = ground arith

-- For numbers of inodes and blocks from 1 up to below 2 ^ 31, and an image file that is large
-- enough, `mkfs` succeeds, whatever bytes were in the image, and leaves a file system with at least
-- the numbers asked for, rounded up by less than 32, in which only the root inode is in use.
pub mkfs-IsFresh :
    (m : Mem) (file_size ni nb uid now : ℕ)
    → IsImage m
    → 0 < ni
    → ni < 2 ^ 31
    → 0 < nb
    → nb < 2 ^ 31
    → (regions (round_up ni) (round_up nb)).total ≤ file_size
    → ((mkfs m file_size ni nb uid now).0 ≡ 0)
      × IsFresh (round_up ni) (round_up nb) (mkfs m file_size ni nb uid now).1
      × (ni ≤ round_up ni)
      × (round_up ni < ni + 32)
      × (nb ≤ round_up nb)
      × (round_up nb < nb + 32)
mkfs-IsFresh m file_size ni nb uid now image pi li pb lb fits =
    let (a, b, c) = round_up_bounds ni (omega arith) in
    let (d, e, f) = round_up_bounds nb (omega arith) in
    (
      ap (λ (p : ℕ × Mem). p.0) runs,
      rw runs (
          formatted-IsFresh m (round_up ni) (round_up nb) uid now image (omega arith) (omega arith)
            (omega arith)),
      a,
      b,
      d,
      e,
    )
  where
    runs : mkfs m file_size ni nb uid now ≡ (0, formatted m (round_up ni) (round_up nb) uid now)
    runs = mkfs-formatted m file_size ni nb uid now pi pb fits
