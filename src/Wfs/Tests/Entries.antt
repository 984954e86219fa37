-- ===== src/Wfs/Tests/Entries.antt =====
-- Entries that are made and removed in a small image.
use schoolwork.Common.{
  ℕ, ◌+◌, ◌*◌, ◌<◌, ◌≡◌, refl, sym, ap, ◌∙◌, ◌≢◌, ◌⊎◌, true, some, arith, ◌==◌, if◌then◌else◌,
  get_or,
}
use native.Mathlib.Decide.{ℕ_discrete}
use schoolwork.Wfs.Layout.{s_iwusr, s_ifreg, inode_block, n_blocks}
use schoolwork.Wfs.Path.{found, walk}
use schoolwork.Wfs.Directory.{add_directory_entry, create_new_entry}
use schoolwork.Wfs.Path.{missing}
use schoolwork.Wfs.Layout.{entry}
use schoolwork.Wfs.Removal.{remove_directory_entry}
use schoolwork.Wfs.Removal.Entry.{IsOnly}
use schoolwork.Wfs.Removal.Removed.{find_in_directory-remove_directory_entry}
use schoolwork.Wfs.Directory.Room.{IsDirectory, NoRoom}
use schoolwork.Wfs.Directory.Created.{find_in_directory-add_directory_entry}
use schoolwork.Wfs.Directory.Inode.{IsLaidOut, inode_at}
use schoolwork.Wfs.Directory.Create.{Creation, create_new_entry-Creation}
use schoolwork.Common.Bytes.{codes, str_eq}
use schoolwork.Common.Int.{pos}
use schoolwork.Wfs.Memory.{Mem, load, str_eq_at}
use schoolwork.Wfs.Memory.Frames.{IsImage}
use schoolwork.Wfs.Layout.{
  block_size, num_data_blocks, d_bitmap_ptr, d_blocks_ptr, enospc, get_inode_by_number,
  get_directory_entry,
}
use schoolwork.Wfs.Bitmap.{is_bitmap_bit_set}
use schoolwork.Wfs.Path.{find_in_block, find_in_directory, path2inode}
use schoolwork.Wfs.Blocks.Stable.{Placed}
use schoolwork.Wfs.Tests.{image}
use schoolwork.Wfs.Bitmap.Allocation.{AllUsed}
use schoolwork.Wfs.Layout.{i_bitmap_ptr, num_inodes}
use schoolwork.Wfs.Layout.{inode_mode}
use schoolwork.Wfs.Memory.Frames.{load-zero}
use schoolwork.Wfs.Directory.{wfs_mknod}
use schoolwork.Wfs.Directory.Lookup.{path2inode-wfs_mknod}

-- The same image with a mode for the root directory and for `/a`.
abbrev writable : Mem
writable a = if a == 68 then s_iwusr else if a == 580 then s_iwusr else image a

writable-IsImage : IsImage writable
writable-IsImage a = ground arith

writable-IsLaidOut : IsLaidOut writable
unfolding load
writable-IsLaidOut = record {
  image = writable-IsImage;
  i_bitmap = omega arith;
  d_bitmap = omega arith;
  i_blocks = omega arith;
  d_blocks = omega arith;
  small = omega arith;
}

-- A directory with its first block only.
single_block :
    (parent k : ℕ)
    → Placed writable parent
    → load 8 writable (inode_block parent 0) ≡ d_blocks_ptr writable + k * block_size
    → k < num_data_blocks writable
    → is_bitmap_bit_set writable (d_bitmap_ptr writable) k ≡ true
    → ((i : ℕ) → i < 8 → i ≢ 0 → load 8 writable (inode_block parent i) ≡ 0)
    → IsDirectory writable parent
single_block parent k placed at inside used later = record {
  placed = placed;
  block = λ i h has. rw (first i h has) (k, at, inside, used);
  apart = λ i j h l ne has e. has (e ∙ later j l (λ z. ne (first i h has ∙ sym z)));
  dense = λ i j lt h e. later j h (omega arith);
}
  where
    first : (i : ℕ) → i < 8 → load 8 writable (inode_block parent i) ≢ 0 → i ≡ 0
    first i h has = elim (ℕ_discrete i 0) [ yes e ↦ e | no ne ↦ absurd (has (later i h ne)) ]

a-later : (i : ℕ) → i < 8 → i ≢ 0 → load 8 writable (inode_block 576 i) ≡ 0
a-later i h ne = load-zero 8 writable (inode_block 576 i) (λ b x y. ground arith)

root-later : (i : ℕ) → i < 8 → i ≢ 0 → load 8 writable (inode_block 64 i) ≡ 0
root-later i h ne = load-zero 8 writable (inode_block 64 i) (λ b x y. ground arith)

a-IsDirectory : IsDirectory writable 576
unfolding load is_bitmap_bit_set
a-IsDirectory =
    single_block 576 1
      (record {
        bitmap = omega arith;
        before = omega arith;
        after = omega arith;
        small = omega arith;
      })
      refl (omega arith) refl a-later

root-IsDirectory : IsDirectory writable 64
unfolding load is_bitmap_bit_set
root-IsDirectory =
    single_block 64 0
      (record {
        bitmap = omega arith;
        before = omega arith;
        after = omega arith;
        small = omega arith;
      })
      refl (omega arith) refl root-later

first_block : (i : ℕ) → i < 8 → load 8 writable (inode_block 576 i) ≢ 0 → i ≡ 0
first_block i h has = elim (ℕ_discrete i 0) [ yes e ↦ e | no ne ↦ absurd (has (a-later i h ne)) ]

create_new_entry-Creation_example :
    Creation writable 576
      (codes "c")
      s_ifreg
      (create_new_entry (record { uid = 5; gid = 5; now = 1000 }) (codes "/a/c") s_ifreg writable)
unfolding find_in_directory get_directory_entry find_in_block str_eq_at path2inode is_bitmap_bit_set
    load get_inode_by_number str_eq walk
create_new_entry-Creation_example =
    create_new_entry-Creation (record { uid = 5; gid = 5; now = 1000 }) writable (codes "/a/c")
      (codes "/a") (codes "c") 1 s_ifreg refl refl writable-IsLaidOut a-IsDirectory (omega arith)
      refl refl ((λ e. omega arith), tt) (omega arith, tt) (omega arith) (omega arith) refl

b-ne-c : codes "b" ≢ codes "c"
b-ne-c e =
    let q : get_or (codes "b") 0 0 ≡ get_or (codes "c") 0 0 = ap (λ s. get_or s 0 0) e in
    omega (arith, q)

find_in_directory-add_directory_entry_example :
    ((add_directory_entry 576 (codes "c") 9 1000 writable ≡ some (enospc, writable))
      × NoRoom writable 576)
    ⊎ ((m : Mem) × (add_directory_entry 576 (codes "c") 9 1000 writable ≡ some (pos 0, m))
        × (find_in_directory m 576 (codes "c") n_blocks 0 ≡ found (pos 9)))
unfolding find_in_directory get_directory_entry find_in_block str_eq_at load
find_in_directory-add_directory_entry_example =
    find_in_directory-add_directory_entry writable 576 (codes "c") 9 1000 a-IsDirectory
      ((λ e. omega arith), tt) (omega arith, tt) (omega arith) (omega arith) refl

-- `/a/b` is removed again; `c` is missing before and after.
b_only : (k : ℕ) → str_eq_at writable (entry 16960 k) (codes "b") ≡ true → k ≡ 0
unfolding str_eq_at
b_only k e = ground arith

b-IsOnly : IsOnly writable 576 (codes "b") 0 0
unfolding load str_eq_at
b-IsOnly = record {
  index = omega arith;
  within = omega arith;
  used_block = λ e. omega (arith, e);
  named = refl;
  used = refl;
  only = λ l k h kl has e. let first = first_block l h has in (first, b_only k (rw first at e));
}

find_in_directory-remove_directory_entry_example :
    (m : Mem) × (remove_directory_entry (codes "/a/b") writable ≡ some (pos 0, m))
    × (find_in_directory m 576 (codes "b") n_blocks 0 ≡ missing)
    × (find_in_directory m 576 (codes "c") n_blocks 0
        ≡ find_in_directory writable 576 (codes "c") n_blocks 0)
unfolding find_in_directory get_directory_entry find_in_block str_eq_at path2inode is_bitmap_bit_set
    load get_inode_by_number str_eq walk
find_in_directory-remove_directory_entry_example =
    find_in_directory-remove_directory_entry writable (codes "/a/b") (codes "/a") (codes "b")
      (codes "c") 1 0 0 refl refl refl a-IsDirectory b-IsOnly (omega arith) ((λ e. omega arith), tt)
      (omega arith) (λ e. cc) ((λ e. omega arith), tt) (omega arith) (λ e. b-ne-c (sym e)) (λ e. cc)

path2inode-wfs_mknod_example :
    ((m : Mem) × (wfs_mknod (record { uid = 5; gid = 5; now = 1000 }) (codes "/c") s_ifreg writable
        ≡ some (enospc, m))
      × (AllUsed writable (i_bitmap_ptr writable) (num_inodes writable) ⊎ NoRoom writable 64))
    ⊎ ((m : Mem) × (i : ℕ) × (wfs_mknod
            (record { uid = 5; gid = 5; now = 1000 })
            (codes "/c")
            s_ifreg
            writable
          ≡ some (pos 0, m))
        × (path2inode m (codes "/c") ≡ some (pos i))
        × (load 4 m (inode_mode (inode_at m i)) ≡ s_ifreg))
unfolding find_in_directory get_directory_entry find_in_block str_eq_at load is_bitmap_bit_set
path2inode-wfs_mknod_example =
    path2inode-wfs_mknod (record { uid = 5; gid = 5; now = 1000 }) writable (codes "c") s_ifreg
      writable-IsLaidOut root-IsDirectory (omega arith) refl refl
      ((λ e. cc), ((λ e. omega arith), tt)) ((λ e. omega arith), tt) (omega arith, tt) (omega arith)
      (omega arith) refl
