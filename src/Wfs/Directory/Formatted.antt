-- ===== src/Wfs/Directory/Formatted.antt =====
-- An entry made by `wfs_mknod` of cs537/P7/wfs.c in the image that cs537/P7/mkfs.c writes.
use schoolwork.Common.{
  zero, suc, ℕ, ◌+◌, ◌/◌, ◌^◌, ◌≤◌, ◌<◌, bit_or, ◌≡◌, refl, ◌∙◌, inl, inr, some, ◌∷◌, arith, length,
  All,
}
use schoolwork.Common.Bytes.{Bytes, IsToken}
use schoolwork.Common.Int.{pos}
use schoolwork.Wfs.Memory.{Mem, load}
use schoolwork.Wfs.Memory.Frames.{
  IsImage, clear-inside, load-store, load-store_apart, load-zero, load-write_byte_apart,
}
use schoolwork.Wfs.Layout.{
  max_name, n_blocks, inode_block, inode_mode, s_ifdir, num_inodes, i_bitmap_ptr,
}
use schoolwork.Wfs.Bitmap.{set_bitmap_bit}
use schoolwork.Wfs.Bitmap.Laws.{set_bitmap_bit-IsImage, set_bitmap_bit-other}
use schoolwork.Wfs.Bitmap.Allocation.{AllUsed}
use schoolwork.Wfs.Path.{slash, missing, find_in_directory, path2inode}
use schoolwork.Wfs.Directory.{Context, wfs_mknod}
use schoolwork.Wfs.Directory.Entry.{IsString}
use schoolwork.Wfs.Directory.Room.{IsDirectory, NoRoom}
use schoolwork.Wfs.Directory.Inode.{IsLaidOut, inode_at}
use schoolwork.Wfs.Directory.Lookup.{path2inode-wfs_mknod}
use schoolwork.Wfs.Mkfs.{round_up, bitmap_bytes, Regions, regions, write_root, mkfs}
use schoolwork.Wfs.Mkfs.Sizes.{round_up_bounds, regions_ordered}
use schoolwork.Wfs.Mkfs.Image.{emptied, formatted, write_root-other, emptied-IsImage, root-IsImage}
use schoolwork.Wfs.Mkfs.Fresh.{IsFresh, formatted-IsFresh, mkfs-formatted}

module _ (m : Mem) (inodes blocks uid now : ℕ) (image : IsImage m) (some_inodes : 8 ≤ inodes)
    (some_blocks : 0 < blocks) (fits : (regions inodes blocks).total ≤ 2 ^ 31) where
  abbrev made : Mem
  made = formatted m inodes blocks uid now

  abbrev rs : Regions
  rs = regions inodes blocks

  few_inodes : inodes < 2 ^ 32
  few_inodes = omega (arith, fits, regions_ordered inodes blocks)

  few_blocks : blocks < 2 ^ 32
  few_blocks = omega (arith, fits, regions_ordered inodes blocks)

  fresh : IsFresh inodes blocks made
  fresh = formatted-IsFresh m inodes blocks uid now image some_inodes few_inodes few_blocks

  made-IsImage : IsImage made
  made-IsImage = set_bitmap_bit-IsImage _ rs.i_bitmap 0 (
      root-IsImage m inodes blocks uid now image _ rs.i_blocks
        (emptied-IsImage m inodes blocks uid now image))

  -- The block pointers of the root inode are 0.
  root_pointer : (i : ℕ) → i < n_blocks → load 8 made (inode_block rs.i_blocks i) ≡ 0
  root_pointer i lt = load-zero 8 made (inode_block rs.i_blocks i) λ b x y.
      set_bitmap_bit-other _ rs.i_bitmap 0 b (omega (arith, regions_ordered inodes blocks))
      ∙ write_root-other m inodes blocks uid now (emptied m inodes blocks uid now) rs.i_blocks b
          (inr (omega arith))
      ∙ clear-inside _ rs.i_blocks _ b (omega arith) (omega arith)

  root_mode : load 4 made (inode_mode rs.i_blocks) ≡ bit_or s_ifdir 0x1ed
  unfolding set_bitmap_bit write_root
  root_mode =
      load-write_byte_apart 4 _ _ _ _ (inr (omega (arith, regions_ordered inodes blocks)))
      ∙ load-store_apart 4 8 _ _ _ _ (inl (omega arith))
      ∙ load-store_apart 4 8 _ _ _ _ (inl (omega arith))
      ∙ load-store_apart 4 8 _ _ _ _ (inl (omega arith))
      ∙ load-store_apart 4 4 _ _ _ _ (inl (omega arith))
      ∙ load-store_apart 4 8 _ _ _ _ (inl (omega arith))
      ∙ load-store_apart 4 4 _ _ _ _ (inl (omega arith))
      ∙ load-store_apart 4 4 _ _ _ _ (inl (omega arith))
      ∙ load-store 4 _ _ _ (omega arith)

  root_at : inode_at made 0 ≡ rs.i_blocks
  root_at = omega (arith, fresh.i_blocks_at)

  bitmaps :
      (rs.d_bitmap ≡ rs.i_bitmap + (inodes + 7) / 8)
      × (rs.i_blocks ≡ rs.d_bitmap + (blocks + 7) / 8)
  unfolding regions bitmap_bytes
  bitmaps = omega arith

  made-IsLaidOut : IsLaidOut made
  made-IsLaidOut = record {
    image = made-IsImage;
    i_bitmap = omega (arith, fresh.i_bitmap_at, regions_ordered inodes blocks);
    d_bitmap = omega (arith, fresh.i_bitmap_at, fresh.inode_count, fresh.d_bitmap_at, bitmaps);
    i_blocks = omega (arith, fresh.d_bitmap_at, fresh.block_count, fresh.i_blocks_at, bitmaps);
    d_blocks = omega (
      arith,
      fresh.i_blocks_at,
      fresh.inode_count,
      fresh.d_blocks_at,
      regions_ordered inodes blocks,
    );
    small = omega (arith, fresh.inode_count, fits, regions_ordered inodes blocks);
  }

  root-IsDirectory : IsDirectory made rs.i_blocks
  root-IsDirectory = record {
    placed = record {
      bitmap = omega (arith, fresh.d_bitmap_at, regions_ordered inodes blocks);
      before = omega (arith, fresh.d_bitmap_at, fresh.block_count, bitmaps);
      after = omega (arith, fresh.d_blocks_at, regions_ordered inodes blocks);
      small =
          omega (arith, fresh.d_blocks_at, fresh.block_count, fits, regions_ordered inodes blocks);
    };
    block = λ i lt has. absurd (has (root_pointer i lt));
    apart = λ i j lt lt' ne has. absurd (has (root_pointer i lt));
    dense = λ i j lt lt' e. root_pointer j lt';
  }

  nothing_in_root :
      (name : Bytes) (n i : ℕ)
      → n + i ≤ n_blocks
      → find_in_directory made rs.i_blocks name n i ≡ missing
  unfolding find_in_directory
  nothing_in_root name zero i h = refl
  nothing_in_root name (suc n) i h =
      rw (root_pointer i (omega arith)) (nothing_in_root name n (i + 1) (omega arith))

  has_inode : ¬ AllUsed made (i_bitmap_ptr made) (num_inodes made)
  has_inode used =
      let a = used 1 (omega (arith, fresh.inode_count)) in
      let b = fresh.inodes_free 1 (omega arith) (omega arith) in absurd (cc (a, b))

  has_room : ¬ NoRoom made rs.i_blocks
  has_room (inl used) =
      let a = used 0 (omega (arith, fresh.block_count)) in
      let b = fresh.blocks_free 0 some_blocks in absurd (cc (a, b))
  has_room (inr full) = (full 0 (omega arith)).0 (root_pointer 0 (omega arith))

  -- Nothing that the creation of an entry needs is missing.
  module _ (c : Context) (name : Bytes) (mode : ℕ) (token : IsToken slash name)
      (text : IsString name) (bytes : All (λ b. b < 256) name) (short : length name < max_name)
      (mode_fits : mode < 2 ^ 32) where
    pub made-wfs_mknod :
        (m' : Mem) × (i : ℕ) × (wfs_mknod c (slash ∷ name) mode made ≡ some (pos 0, m'))
        × (path2inode m' (slash ∷ name) ≡ some (pos i))
        × (load 4 m' (inode_mode (inode_at m' i)) ≡ mode)
    made-wfs_mknod =
        elim (path2inode-wfs_mknod c made name mode made-IsLaidOut (rw root_at root-IsDirectory)
          (omega (arith, fresh.inode_count)) fresh.root_used (rw (root_at, root_mode) refl) token
          text bytes short mode_fits (rw root_at (nothing_in_root name n_blocks 0 (omega arith)))) [
            | inl (m', run, inl used) ↦ absurd (has_inode used)
            | inl (m', run, inr full) ↦ absurd (has_room (rw root_at at full))
            | inr done ↦ done
          ]

-- For numbers of inodes and blocks from 1 up to below 2 ^ 31, and an image file that is large
-- enough for them and not larger than 2 ^ 31 bytes: in the image that `mkfs` leaves, whatever bytes
-- were in it, `wfs_mknod` of a string of 1 to 27 bytes without a slash in the root directory
-- returns 0, and then the lookup of the same path returns the number of an inode with the mode.
pub wfs_mknod-mkfs :
    (m : Mem) (file_size ni nb uid now : ℕ) (c : Context) (name : Bytes) (mode : ℕ)
    → IsImage m
    → 0 < ni
    → ni < 2 ^ 31
    → 0 < nb
    → nb < 2 ^ 31
    → (regions (round_up ni) (round_up nb)).total ≤ file_size
    → file_size ≤ 2 ^ 31
    → IsToken slash name
    → IsString name
    → All (λ b. b < 256) name
    → length name < max_name
    → mode < 2 ^ 32
    → (m' : Mem) × (i : ℕ) × (wfs_mknod c (slash ∷ name) mode (mkfs m file_size ni nb uid now).1
        ≡ some (pos 0, m'))
      × (path2inode m' (slash ∷ name) ≡ some (pos i))
      × (load 4 m' (inode_mode (inode_at m' i)) ≡ mode)
wfs_mknod-mkfs m file_size ni nb uid now c name mode image pi li pb lb large small token text bytes
      short mode_fits =
    let (a, b, e) = round_up_bounds ni (omega arith) in
    let (x, y, z) = round_up_bounds nb (omega arith) in
    rw (mkfs-formatted m file_size ni nb uid now pi pb large) (
      made-wfs_mknod m (round_up ni) (round_up nb) uid now image (omega arith) (omega arith)
        (omega arith) c name mode token text bytes short mode_fits)
