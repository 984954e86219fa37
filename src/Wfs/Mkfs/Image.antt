-- ===== src/Wfs/Mkfs/Image.antt =====
-- What the superblock and the bitmaps of a new image hold.
use schoolwork.Common.{
  ℕ, ◌+◌, ◌-◌, ◌*◌, ◌/◌, ◌%◌, ◌^◌, ◌≤◌, ◌<◌, bit_and, ◌≡◌, ◌∙◌, ◌⊎◌, inl, false, arith,
}
use Prim.Native.Nat.{bit_and-bitwise}
use schoolwork.Wfs.Memory.{Mem, load, clear}
use schoolwork.Wfs.Memory.Frames.{
  IsImage, store-IsImage, clear-IsImage, store-other, clear-inside, clear-outside, load-store,
  load-store_apart, load-agree, write_byte-other,
}
use schoolwork.Wfs.Layout.{block_size, sb_size}
use schoolwork.Wfs.Bitmap.{set_bitmap_bit, is_bitmap_bit_set}
use schoolwork.Wfs.Mkfs.{bitmap_bytes, Regions, regions, write_superblock, write_root}
use schoolwork.Wfs.Mkfs.Sizes.{regions_ordered}

module _ (m : Mem) (inodes blocks uid now : ℕ) where
  abbrev pub r : Regions
  r = regions inodes blocks

  -- The image before the root inode and its bit are written.
  abbrev pub emptied : Mem
  emptied =
      clear (clear (write_superblock m inodes blocks r) sb_size (r.i_blocks - sb_size)) r.i_blocks
        (inodes * block_size)

  abbrev pub formatted : Mem
  formatted = set_bitmap_bit (write_root emptied r.i_blocks uid now) r.i_bitmap 0

  pub write_root-other :
      (m : Mem) (a b : ℕ) → (b < a) ⊎ (a + 56 ≤ b) → write_root m a uid now b ≡ m b
  unfolding write_root
  write_root-other m a b h =
      store-other 8 _ _ now b (omega arith)
      ∙ store-other 8 _ _ now b (omega arith)
      ∙ store-other 8 _ _ now b (omega arith)
      ∙ store-other 4 _ _ _ b (omega arith)
      ∙ store-other 8 _ _ _ b (omega arith)
      ∙ store-other 4 _ _ uid b (omega arith)
      ∙ store-other 4 _ _ uid b (omega arith)
      ∙ store-other 4 _ _ _ b (omega arith)
      ∙ store-other 4 m a 0 b (omega arith)

  superblock_kept : (b : ℕ) → b < sb_size → formatted b ≡ write_superblock m inodes blocks r b
  unfolding set_bitmap_bit
  superblock_kept b h =
      write_byte-other _ _ _ b (omega (arith, regions_ordered inodes blocks))
      ∙ write_root-other emptied r.i_blocks b (inl (omega (arith, regions_ordered inodes blocks)))
      ∙ clear-outside _ r.i_blocks _ b (inl (omega (arith, regions_ordered inodes blocks)))
      ∙ clear-outside _ sb_size _ b (inl h)

  pub superblock_load :
      (a : ℕ) → a + 8 ≤ sb_size → load 8 formatted a ≡ load 8 (write_superblock m inodes blocks r) a
  superblock_load a h =
      load-agree 8 formatted (write_superblock m inodes blocks r) a
        λ b x y. superblock_kept b (omega arith)

module _ (m : Mem) (inodes blocks : ℕ) (low : inodes < 2 ^ 32) (few : blocks < 2 ^ 32) where
  abbrev pub sb : Mem
  sb = write_superblock m inodes blocks (regions inodes blocks)

  bounded : (regions inodes blocks).d_blocks < 256 ^ 8
  unfolding regions bitmap_bytes
  bounded = omega arith

  pub sb_inode_count : load 8 sb 0 ≡ inodes
  unfolding write_superblock
  sb_inode_count =
      load-store_apart 8 8 _ 0 40 _ (inl (omega arith))
      ∙ load-store_apart 8 8 _ 0 32 _ (inl (omega arith))
      ∙ load-store_apart 8 8 _ 0 24 _ (inl (omega arith))
      ∙ load-store_apart 8 8 _ 0 16 _ (inl (omega arith))
      ∙ load-store_apart 8 8 _ 0 8 _ (inl (omega arith))
      ∙ load-store 8 _ 0 _ (omega (arith, bounded, regions_ordered inodes blocks))

  pub sb_block_count : load 8 sb 8 ≡ blocks
  unfolding write_superblock
  sb_block_count =
      load-store_apart 8 8 _ 8 40 _ (inl (omega arith))
      ∙ load-store_apart 8 8 _ 8 32 _ (inl (omega arith))
      ∙ load-store_apart 8 8 _ 8 24 _ (inl (omega arith))
      ∙ load-store_apart 8 8 _ 8 16 _ (inl (omega arith))
      ∙ load-store 8 _ 8 _ (omega (arith, bounded, regions_ordered inodes blocks))

  pub sb_i_bitmap_at : load 8 sb 16 ≡ (regions inodes blocks).i_bitmap
  unfolding write_superblock
  sb_i_bitmap_at =
      load-store_apart 8 8 _ 16 40 _ (inl (omega arith))
      ∙ load-store_apart 8 8 _ 16 32 _ (inl (omega arith))
      ∙ load-store_apart 8 8 _ 16 24 _ (inl (omega arith))
      ∙ load-store 8 _ 16 _ (omega (arith, bounded, regions_ordered inodes blocks))

  pub sb_d_bitmap_at : load 8 sb 24 ≡ (regions inodes blocks).d_bitmap
  unfolding write_superblock
  sb_d_bitmap_at =
      load-store_apart 8 8 _ 24 40 _ (inl (omega arith))
      ∙ load-store_apart 8 8 _ 24 32 _ (inl (omega arith))
      ∙ load-store 8 _ 24 _ (omega (arith, bounded, regions_ordered inodes blocks))

  pub sb_i_blocks_at : load 8 sb 32 ≡ (regions inodes blocks).i_blocks
  unfolding write_superblock
  sb_i_blocks_at =
      load-store_apart 8 8 _ 32 40 _ (inl (omega arith))
      ∙ load-store 8 _ 32 _ (omega (arith, bounded, regions_ordered inodes blocks))

  pub sb_d_blocks_at : load 8 sb 40 ≡ (regions inodes blocks).d_blocks
  unfolding write_superblock
  sb_d_blocks_at = load-store 8 _ 40 _ (omega (arith, bounded, regions_ordered inodes blocks))

module _ (m : Mem) (inodes blocks uid now : ℕ) (image : IsImage m) where
  superblock-IsImage : IsImage (write_superblock m inodes blocks (regions inodes blocks))
  unfolding write_superblock
  superblock-IsImage = store-IsImage 8 _ _ _ (
      store-IsImage 8 _ _ _ (
        store-IsImage 8 _ _ _
          (store-IsImage 8 _ _ _ (store-IsImage 8 _ _ _ (store-IsImage 8 m _ _ image)))))

  pub emptied-IsImage : IsImage (emptied m inodes blocks uid now)
  emptied-IsImage = clear-IsImage _ _ _ (clear-IsImage _ _ _ superblock-IsImage)

  pub root-IsImage : (m : Mem) (a : ℕ) → IsImage m → IsImage (write_root m a uid now)
  unfolding write_root
  root-IsImage m a h = store-IsImage 8 _ _ _ (
      store-IsImage 8 _ _ _ (
        store-IsImage 8 _ _ _ (
          store-IsImage 4 _ _ _ (
            store-IsImage 8 _ _ _ (
              store-IsImage 4 _ _ _
                (store-IsImage 4 _ _ _ (store-IsImage 4 _ _ _ (store-IsImage 4 m _ _ h))))))))

  -- Before the root's bit is set, every byte of the bitmaps is 0.
  pub bitmaps_zero :
      (b : ℕ)
      → sb_size ≤ b
      → b < (regions inodes blocks).i_blocks
      → write_root (emptied m inodes blocks uid now) (regions inodes blocks).i_blocks uid now b ≡ 0
  bitmaps_zero b lo hi =
      write_root-other m inodes blocks uid now (emptied m inodes blocks uid now)
        (regions inodes blocks).i_blocks b (inl hi)
      ∙ clear-outside _ (regions inodes blocks).i_blocks _ b (inl hi)
      ∙ clear-inside _ sb_size _ b lo (omega arith)

zero-bit_and : (b : ℕ) → bit_and 0 b ≡ 0
zero-bit_and b = bit_and-bitwise 0 b

pub clear_byte :
    (m : Mem) (bitmap k : ℕ) → m (bitmap + k / 8) ≡ 0 → is_bitmap_bit_set m bitmap k ≡ false
unfolding is_bitmap_bit_set
clear_byte m bitmap k e = rw (e, zero-bit_and (2 ^ (k % 8)))
