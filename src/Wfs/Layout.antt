-- ===== src/Wfs/Layout.antt =====
-- The structures of cs537/P7/wfs.h as they lie in the image: field offsets on a 64-bit target.
use schoolwork.Common.{
  ℕ, ◌+◌, ◌-◌, ◌*◌, ◌%◌, ◌^◌, ◌||◌, Option, none, some, ltb, leb, if◌then◌else◌,
}
use schoolwork.Common.Int.{ℤ, negsuc, neg_part, pos_part}
use schoolwork.Wfs.Memory.{Mem, load}

abbrev pub block_size : ℕ
block_size = 512

abbrev pub max_name : ℕ
max_name = 28

abbrev pub d_block : ℕ
d_block = 6

-- `D_BLOCK + 1`
abbrev pub ind_block : ℕ
ind_block = 7

abbrev pub n_blocks : ℕ
n_blocks = 8

-- `sizeof (struct wfs_sb)`, `sizeof (struct wfs_dentry)`, and how many entries a block holds.
abbrev pub sb_size : ℕ
sb_size = 48

abbrev pub dentry_size : ℕ
dentry_size = 32

abbrev pub entries_per_block : ℕ
entries_per_block = 16

-- `BLOCK_SIZE / sizeof (off_t)`
abbrev pub pointers_per_block : ℕ
pointers_per_block = 64

-- The superblock, at the start of the image.
abbrev pub num_inodes : Mem → ℕ
num_inodes m = load 8 m 0

abbrev pub num_data_blocks : Mem → ℕ
num_data_blocks m = load 8 m 8

abbrev pub i_bitmap_ptr : Mem → ℕ
i_bitmap_ptr m = load 8 m 16

abbrev pub d_bitmap_ptr : Mem → ℕ
d_bitmap_ptr m = load 8 m 24

abbrev pub i_blocks_ptr : Mem → ℕ
i_blocks_ptr m = load 8 m 32

abbrev pub d_blocks_ptr : Mem → ℕ
d_blocks_ptr m = load 8 m 40

-- The fields of the inode at an address.
abbrev pub inode_mode : ℕ → ℕ
inode_mode a = a + 4

abbrev pub inode_uid : ℕ → ℕ
inode_uid a = a + 8

abbrev pub inode_gid : ℕ → ℕ
inode_gid a = a + 12

abbrev pub inode_size : ℕ → ℕ
inode_size a = a + 16

abbrev pub inode_nlinks : ℕ → ℕ
inode_nlinks a = a + 24

abbrev pub inode_atim : ℕ → ℕ
inode_atim a = a + 32

abbrev pub inode_mtim : ℕ → ℕ
inode_mtim a = a + 40

abbrev pub inode_ctim : ℕ → ℕ
inode_ctim a = a + 48

-- `&inode->blocks[i]`
abbrev pub inode_block : ℕ → ℕ → ℕ
inode_block a i = a + 56 + 8 * i

-- `&entries[j]` and `&entries[j].num`
abbrev pub entry : ℕ → ℕ → ℕ
entry b j = b + dentry_size * j

abbrev pub entry_num : ℕ → ℕ → ℕ
entry_num b j = entry b j + 28

abbrev pub s_ifdir : ℕ
s_ifdir = 0x4000

abbrev pub s_ifreg : ℕ
s_ifreg = 0x8000

abbrev pub s_iwusr : ℕ
s_iwusr = 0x80

-- `-e` for an error number.
abbrev pub error : ℕ → ℤ
error e = negsuc (e - 1)

abbrev pub enoent : ℤ
enoent = error 2

abbrev pub eio : ℤ
eio = error 5

abbrev pub eacces : ℤ
eacces = error 13

abbrev pub enotdir : ℤ
enotdir = error 20

abbrev pub eisdir : ℤ
eisdir = error 21

abbrev pub einval : ℤ
einval = error 22

abbrev pub efbig : ℤ
efbig = error 27

abbrev pub enospc : ℤ
enospc = error 28

abbrev pub enametoolong : ℤ
enametoolong = error 36

-- `get_inode_by_number`, as an offset; `none` where the product is not an int, or the offset lies
-- before the start of the image.
unfoldable pub get_inode_by_number : Mem → ℤ → Option ℕ
get_inode_by_number m n =
    if leb (2 ^ 31) (pos_part n * block_size) || ltb (2 ^ 31) (neg_part n * block_size)
    then none
    else if leb (neg_part n * block_size) (i_blocks_ptr m)
    then some (i_blocks_ptr m + pos_part n * block_size - neg_part n * block_size)
    else none

-- `get_directory_entry`: the offset passes through an `int`.
unfoldable pub get_directory_entry : ℕ → Option ℕ
get_directory_entry b = if ltb (b % 2 ^ 32) (2 ^ 31) then some (b % 2 ^ 32) else none
