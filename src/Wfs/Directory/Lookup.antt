-- ===== src/Wfs/Directory/Lookup.antt =====
-- A file that `wfs_mknod` of cs537/P7/wfs.c creates in the root directory, looked up by its path.
use schoolwork.Common.{
  ℕ, ◌+◌, ◌*◌, ◌^◌, ◌<◌, bit_and, ◌≡◌, refl, ap, ◌∙◌, ◌⊎◌, inl, inr, true, false, some, [], ◌∷◌,
  ◌++◌, append-nil, arith, ◌==◌, length, All,
}
use schoolwork.Common.Bytes.{Bytes, IsToken}
use schoolwork.Common.Int.{pos}
use schoolwork.Wfs.Memory.{Mem, load}
use schoolwork.Wfs.Layout.{
  max_name, n_blocks, block_size, inode_mode, s_iwusr, enospc, num_inodes, i_bitmap_ptr,
  i_blocks_ptr,
}
use schoolwork.Wfs.Bitmap.{is_bitmap_bit_set}
use schoolwork.Wfs.Bitmap.Allocation.{AllUsed}
use schoolwork.Wfs.Path.{slash, missing, find_in_directory, path2inode}
use schoolwork.Wfs.Path.Walk.{split_last_slash-append, path2inode-Descends}
use schoolwork.Wfs.Directory.{Context, create_new_entry, wfs_mknod}
use schoolwork.Wfs.Directory.Entry.{IsString}
use schoolwork.Wfs.Directory.Room.{IsDirectory, NoRoom}
use schoolwork.Wfs.Directory.Inode.{IsLaidOut, inode_at, get_inode_by_number-pos}
use schoolwork.Wfs.Directory.Create.{no_inode, no_room, created, create_new_entry-Creation}

-- On an image laid out as by `mkfs`, with a writable root directory that does not have the name, a
-- string of 1 to 27 bytes without a slash: `wfs_mknod` of the name returns -ENOSPC, as no inode is
-- free, no data block is free, or the directory has all its blocks and no free entry; or it returns
-- 0, and then the lookup of the same path returns the number of an inode with the mode.
pub path2inode-wfs_mknod :
    (c : Context) (m : Mem) (name : Bytes) (mode : ℕ)
    → IsLaidOut m
    → IsDirectory m (inode_at m 0)
    → 0 < num_inodes m
    → is_bitmap_bit_set m (i_bitmap_ptr m) 0 ≡ true
    → (bit_and (load 4 m (inode_mode (inode_at m 0))) s_iwusr == 0) ≡ false
    → IsToken slash name
    → IsString name
    → All (λ b. b < 256) name
    → length name < max_name
    → mode < 2 ^ 32
    → find_in_directory m (inode_at m 0) name n_blocks 0 ≡ missing
    → ((m' : Mem) × (wfs_mknod c (slash ∷ name) mode m ≡ some (enospc, m'))
        × (AllUsed m (i_bitmap_ptr m) (num_inodes m) ⊎ NoRoom m (inode_at m 0)))
      ⊎ ((m' : Mem) × (i : ℕ) × (wfs_mknod c (slash ∷ name) mode m ≡ some (pos 0, m'))
          × (path2inode m' (slash ∷ name) ≡ some (pos i))
          × (load 4 m' (inode_mode (inode_at m' i)) ≡ mode))
path2inode-wfs_mknod c m name mode laid d some_inode in_use writable token text bytes short fits
      absent =
    elim (create_new_entry-Creation c m (slash ∷ name) [] name 0 mode
      (split_last_slash-append [] name token.1) root laid d some_inode in_use writable text bytes
      short fits absent) [
        | no_inode run used ↦ inl (m, mknod ∙ run, inl used)
        | no_room i m' run taken still room ↦ inl (m', mknod ∙ run, inr room)
        | created i m' run taken there number mode_set links empty words ↦
            let at : inode_at m' i ≡ inode_at m i =
              ap (λ b. b + i * block_size) (words 32 (omega arith)) in
            let start : inode_at m 0 ≡ i_blocks_ptr m' = omega (arith, words 32 (omega arith)) in
            let bit : is_bitmap_bit_set m' (i_bitmap_ptr m') (load 4 m' (inode_at m' i)) ≡ true =
              rw (at, number, words 16 (omega arith)) taken.1 in
            let few : i < 2 ^ 22 =
              omega (arith, taken.0.below, laid.d_blocks, d.placed.after, d.placed.small) in
            let walked =
              path2inode-Descends m' [] name (pos i) (inode_at m' i) (token, tt) token tt
                (rw start at there, get_inode_by_number-pos m' i few)
                (rw (at, number) (omega (arith, few))) bit in
            let same_path : slash ∷ (name ++ []) ≡ slash ∷ name =
              ap (λ s. slash ∷ s) (append-nil name) in
            inr (m', i, mknod ∙ run, rw same_path at walked, rw at mode_set)
      ]
  where
    root : path2inode m [] ≡ some (pos 0)
    root = unfold path2inode in refl

    mknod : wfs_mknod c (slash ∷ name) mode m ≡ create_new_entry c (slash ∷ name) mode m
    mknod = unfold wfs_mknod in refl
