-- ===== src/Wfs/Bitmap/Laws.antt =====
-- The bitmaps as sets of indices, and the allocators as the choice of their smallest free index.
use schoolwork.Common.{ℕ, ◌+◌, ◌/◌, ◌%◌, ◌≡◌, ◌≢◌, true, false, arith, ◌==◌, if◌then◌else◌}
use schoolwork.Wfs.Memory.{Mem, write_byte}
use schoolwork.Wfs.Memory.Frames.{IsImage, write_byte-IsImage, write_byte-other}
use schoolwork.Wfs.Bitmap.{set_bitmap_bit, clear_bitmap_bit, is_bitmap_bit_set}
use schoolwork.Wfs.Bitmap.Bits.{bit-set, bit-clear}

-- On an image of bytes, setting a bit of a bitmap sets that bit and no other of the bitmap.
pub is_set-set :
    (m : Mem) (bitmap i j : ℕ)
    → IsImage m
    → is_bitmap_bit_set (set_bitmap_bit m bitmap i) bitmap j
      ≡ (if i == j then true else is_bitmap_bit_set m bitmap j)
unfolding is_bitmap_bit_set set_bitmap_bit write_byte
is_set-set m bitmap i j h =
    ground (arith, bit-set (m (bitmap + i / 8)) (i % 8) (j % 8) (h (bitmap + i / 8)))

-- On an image of bytes, clearing a bit of a bitmap clears that bit and no other of the bitmap.
pub is_set-clear :
    (m : Mem) (bitmap i j : ℕ)
    → IsImage m
    → is_bitmap_bit_set (clear_bitmap_bit m bitmap i) bitmap j
      ≡ (if i == j then false else is_bitmap_bit_set m bitmap j)
unfolding is_bitmap_bit_set clear_bitmap_bit write_byte
is_set-clear m bitmap i j h =
    ground (arith, bit-clear (m (bitmap + i / 8)) (i % 8) (j % 8) (h (bitmap + i / 8)))

pub set_bitmap_bit-other :
    (m : Mem) (bitmap i b : ℕ) → bitmap + i / 8 ≢ b → set_bitmap_bit m bitmap i b ≡ m b
unfolding set_bitmap_bit
set_bitmap_bit-other m bitmap i b ne = write_byte-other m (bitmap + i / 8) _ b ne

pub set_bitmap_bit-IsImage :
    (m : Mem) (bitmap i : ℕ) → IsImage m → IsImage (set_bitmap_bit m bitmap i)
unfolding set_bitmap_bit
set_bitmap_bit-IsImage m bitmap i h = write_byte-IsImage m (bitmap + i / 8) _ h
