-- ===== src/Wfs/Tests.antt =====
-- The file system at small images.
mod Entries
use schoolwork.Common.{
  ℕ, zero, suc, ◌+◌, ◌-◌, ◌*◌, ◌≤◌, ◌<◌, ◌≡◌, refl, sym, ap, ◌∙◌, subst, ◌≢◌, ◌⊎◌, inl, true, false,
  none, some, List, [], ◌∷◌, arith, ◌==◌, if◌then◌else◌, get_or,
}
use native.Mathlib.Decide.{ℕ_discrete}
use schoolwork.Wfs.Layout.{s_iwusr, s_ifreg, inode_block, n_blocks}
use schoolwork.Wfs.Path.{found, walk}
use schoolwork.Wfs.Directory.{add_directory_entry, create_new_entry}
use schoolwork.Wfs.Path.{missing}
use schoolwork.Wfs.Layout.{entry}
use schoolwork.Wfs.Removal.{remove_directory_entry}
use schoolwork.Wfs.Removal.Entry.{IsOnly}
use schoolwork.Wfs.Removal.Removed.{find_in_directory-remove_directory_entry}
use schoolwork.Wfs.Directory.Room.{IsDirectory}
use schoolwork.Wfs.Directory.Created.{find_in_directory-add_directory_entry}
use schoolwork.Wfs.Directory.Inode.{IsLaidOut, inode_at}
use schoolwork.Wfs.Directory.Formatted.{wfs_mknod-mkfs}
use schoolwork.Wfs.Directory.{wfs_mknod}
use schoolwork.Wfs.Layout.{inode_mode}
use schoolwork.Wfs.Directory.Create.{Creation, create_new_entry-Creation}
use schoolwork.Common.Bytes.{Bytes, codes, str_eq, IsToken}
use schoolwork.Common.Int.{pos}
use schoolwork.Wfs.Memory.{Mem, load, store, clear, str_eq_at}
use schoolwork.Wfs.Memory.Frames.{IsImage}
use schoolwork.Wfs.Layout.{
  block_size, num_data_blocks, d_bitmap_ptr, d_blocks_ptr, enospc, get_inode_by_number,
  get_directory_entry,
}
use schoolwork.Wfs.Bitmap.{first_clear, is_bitmap_bit_set, set_bitmap_bit, allocate_data_block}
use schoolwork.Wfs.Bitmap.Allocation.{IsFirstFree, AllUsed, Marked, allocate_data_block_cases}
use schoolwork.Wfs.Mkfs.{round_up, regions, mkfs}
use schoolwork.Wfs.Mkfs.Fresh.{IsFresh, mkfs-IsFresh}
use schoolwork.Wfs.Path.{slash, find_in_block, find_in_directory, path2inode}
use schoolwork.Wfs.Path.Walk.{path2inode-Descends, path2inode_skips_missing}
use schoolwork.Wfs.Blocks.{get_block_ptr}
use schoolwork.Wfs.File.{read_loop, write_loop}
use schoolwork.Wfs.File.RoundTrip.{read_loop-write_loop}
use schoolwork.Wfs.Blocks.Stable.{Placed, get_block_ptr-stable}

-- An image given by its bytes that are not 0.
abbrev bytes_at : List (ℕ × ℕ) → Mem
bytes_at [] a = 0
bytes_at ((k, v) ∷ bs) a = if k == a then v else bytes_at bs a

abbrev blank : Mem
blank = bytes_at []

blank-IsImage : IsImage blank
blank-IsImage a = omega arith

-- 32 inodes from 64 on and 32 blocks from 16448 on; the directory `/a` with the file `/a/b`.
abbrev image : Mem
image = bytes_at (
    (0, 32)
    ∷ (8, 32)
    ∷ (16, 48)
    ∷ (24, 52)
    ∷ (32, 64)
    ∷ (40, 64)
    ∷ (41, 64)
    ∷ (48, 7)
    ∷ (52, 3)
    ∷ (120, 64)
    ∷ (121, 64)
    ∷ (16448, b'a')
    ∷ (16476, 1)
    ∷ (576, 1)
    ∷ (632, 64)
    ∷ (633, 66)
    ∷ (16960, b'b')
    ∷ (16988, 2)
    ∷ (1088, 2)
    ∷ [])

mkfs-IsFresh_example :
    ((mkfs blank 1048576 30 200 1000 5).0 ≡ 0)
    × IsFresh (round_up 30) (round_up 200) (mkfs blank 1048576 30 200 1000 5).1
    × (30 ≤ round_up 30)
    × (round_up 30 < 30 + 32)
    × (200 ≤ round_up 200)
    × (round_up 200 < 200 + 32)
unfolding regions round_up
mkfs-IsFresh_example =
    mkfs-IsFresh blank 1048576 30 200 1000 5 blank-IsImage (omega arith) (omega arith) (omega arith)
      (omega arith) (omega arith)

a-IsToken : IsToken slash (codes "a")
a-IsToken = ((λ e. cc), ((λ e. omega arith), tt))

wfs_mknod-mkfs_example :
    (m : Mem) × (i : ℕ) × (wfs_mknod
        (record { uid = 5; gid = 5; now = 7 })
        (codes "/a")
        s_ifreg
        (mkfs blank 1048576 30 200 1000 5).1
      ≡ some (pos 0, m))
    × (path2inode m (codes "/a") ≡ some (pos i))
    × (load 4 m (inode_mode (inode_at m i)) ≡ s_ifreg)
unfolding regions round_up
wfs_mknod-mkfs_example =
    wfs_mknod-mkfs blank 1048576 30 200 1000 5 (record { uid = 5; gid = 5; now = 7 }) (codes "a")
      s_ifreg blank-IsImage (omega arith) (omega arith) (omega arith) (omega arith) (omega arith)
      (omega arith) a-IsToken ((λ e. omega arith), tt) (omega arith, tt) (omega arith) (omega arith)

b-IsToken : IsToken slash (codes "b")
b-IsToken = ((λ e. cc), ((λ e. omega arith), tt))

a-ne-b : codes "a" ≢ codes "b"
a-ne-b e =
    let q : get_or (codes "a") 0 0 ≡ get_or (codes "b") 0 0 = ap (λ s. get_or s 0 0) e in
    omega (arith, q)

path2inode-Descends_example : path2inode image (codes "/a/b") ≡ some (pos 2)
unfolding find_in_directory get_inode_by_number is_bitmap_bit_set load get_directory_entry
    find_in_block str_eq_at
path2inode-Descends_example =
    path2inode-Descends image (codes "a" ∷ []) (codes "b") (pos 2) 1088 (a-IsToken, (b-IsToken, tt))
      b-IsToken (a-ne-b, tt) (pos 1, 576, refl, refl, (refl, refl)) (omega arith) refl

-- `/b/a` is not in the image.
path2inode_skips_missing_example : path2inode image (codes "/b/a") ≡ path2inode image (codes "/a")
unfolding find_in_directory load get_directory_entry find_in_block str_eq_at
path2inode_skips_missing_example =
    path2inode_skips_missing image (codes "b") [] (codes "a") (b-IsToken, (a-IsToken, tt)) a-IsToken
      refl

image-Placed : Placed image 1088
unfolding load
image-Placed = record {
  bitmap = omega arith;
  before = omega arith;
  after = omega arith;
  small = omega arith;
}

-- The first block behind the indirect block of `/a/b`, and the image with both allocated.
abbrev far_block : ℕ
far_block = 16448 + 3 * 512

abbrev grown : Mem
grown = elim (get_block_ptr 1088 6 true image) [ none ↦ image | some (b, m) ↦ m ]

get_block_ptr-stable_example : get_block_ptr 1088 6 false grown ≡ some (some far_block, grown)
unfolding get_block_ptr load allocate_data_block first_clear is_bitmap_bit_set clear store
    set_bitmap_bit
get_block_ptr-stable_example =
    get_block_ptr-stable image grown 1088 6 far_block image-Placed (inl refl) refl

-- Two bytes in the middle of the first block of `/a/b`, which has none yet.
abbrev two_bytes : Bytes
two_bytes = codes "xy"

abbrev with_block : Mem
with_block = elim (get_block_ptr 1088 0 true image) [ none ↦ image | some (b, m) ↦ m ]

read_loop-write_loop_example :
    (m : Mem) × (write_loop 2 1088 100 two_bytes 0 image ≡ some (pos 2, m))
    × (read_loop 2 1088 100 2 [] m ≡ some ((pos 2, two_bytes), m))
unfolding get_block_ptr load allocate_data_block first_clear is_bitmap_bit_set clear store
    set_bitmap_bit
read_loop-write_loop_example =
    read_loop-write_loop image with_block 1088 100 (16448 + 2 * 512) b'x' (b'y' ∷ []) image-Placed
      (inl refl) (omega arith) (omega arith) (omega arith, (omega arith, tt)) refl
