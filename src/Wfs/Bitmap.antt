-- ===== src/Wfs/Bitmap.antt =====
-- The bitmaps of cs537/P7/wfs.c and mkfs.c, and the two allocators that search them.
pub mod Bits
pub mod Laws
pub mod Allocation
use schoolwork.Common.{
  ℕ, zero, suc, ◌+◌, ◌-◌, ◌*◌, ◌/◌, ◌%◌, ◌^◌, bit_and, bit_or, Bool, not, Option, none, some, [],
  ◌==◌, if◌then◌else◌,
}
use schoolwork.Common.Int.{ℤ, negsuc, signed32}
use schoolwork.Wfs.Memory.{Mem, write_byte}
use schoolwork.Wfs.Layout.{
  num_inodes, num_data_blocks, i_bitmap_ptr, d_bitmap_ptr, d_blocks_ptr, block_size, enospc,
}

unfoldable pub set_bitmap_bit : Mem → ℕ → ℕ → Mem
set_bitmap_bit m bitmap index =
    write_byte m (bitmap + index / 8) (bit_or (m (bitmap + index / 8)) (2 ^ (index % 8)))

-- `& ~(1 << k)` on a byte.
unfoldable pub clear_bitmap_bit : Mem → ℕ → ℕ → Mem
clear_bitmap_bit m bitmap index =
    write_byte m (bitmap + index / 8) (bit_and (m (bitmap + index / 8)) (255 - 2 ^ (index % 8)))

unfoldable pub is_bitmap_bit_set : Mem → ℕ → ℕ → Bool
is_bitmap_bit_set m bitmap index = not (bit_and (m (bitmap + index / 8)) (2 ^ (index % 8)) == 0)

-- The search of both allocators: the first clear bit among the `n` from `i` on.
unfoldable pub first_clear : Mem → ℕ → ℕ → ℕ → Option ℕ
first_clear m bitmap zero i = none
first_clear m bitmap (suc n) i =
    let rest = first_clear m bitmap n (i + 1) in
    if is_bitmap_bit_set m bitmap i then rest else some i

-- `getEmptyInode`
unfoldable pub get_empty_inode : Mem → ℤ × Mem
get_empty_inode m = elim (first_clear m (i_bitmap_ptr m) (num_inodes m) 0) [
  | none ↦ (negsuc 0, m)
  | some i ↦ (signed32 (i % 2 ^ 32), set_bitmap_bit m (i_bitmap_ptr m) i)
]

-- `allocateDataBlock`: the offset of the block, computed in `int`.
unfoldable pub allocate_data_block : Mem → ℤ × Mem
allocate_data_block m = elim (first_clear m (d_bitmap_ptr m) (num_data_blocks m) 0) [
  | none ↦ (enospc, m)
  | some i ↦
      (signed32 ((i * block_size + d_blocks_ptr m) % 2 ^ 32), set_bitmap_bit m (d_bitmap_ptr m) i)
]
