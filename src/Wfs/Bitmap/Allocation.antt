-- ===== src/Wfs/Bitmap/Allocation.antt =====
-- What the allocators of cs537/P7/wfs.c return, on both branches.
use schoolwork.Common.{
  ℕ, zero, suc, ◌+◌, ◌*◌, ◌^◌, ◌≤◌, ◌<◌, ◌≡◌, refl, ◌⊎◌, inl, inr, true, false, none, some, arith,
  ◌==◌, if◌then◌else◌, Bool-cases, Option-cases,
}
use native.Mathlib.Decide.{ℕ_discrete}
use schoolwork.Common.Int.{pos, negsuc}
use schoolwork.Wfs.Memory.{Mem}
use schoolwork.Wfs.Memory.Frames.{IsImage}
use schoolwork.Wfs.Layout.{
  num_inodes, num_data_blocks, i_bitmap_ptr, d_bitmap_ptr, d_blocks_ptr, block_size, enospc,
}
use schoolwork.Wfs.Bitmap.{is_bitmap_bit_set, first_clear, get_empty_inode, allocate_data_block}
use schoolwork.Wfs.Bitmap.Laws.{is_set-set}

-- `i` is the smallest index below `n` whose bit is clear.
pub record IsFirstFree (m : Mem) (bitmap n i : ℕ) : Type 0 where
  pub below : i < n
  pub free : is_bitmap_bit_set m bitmap i ≡ false
  pub first : (k : ℕ) → k < i → is_bitmap_bit_set m bitmap k ≡ true

abbrev pub AllUsed : Mem → ℕ → ℕ → Type 0
AllUsed m bitmap n = (k : ℕ) → k < n → is_bitmap_bit_set m bitmap k ≡ true

-- Bit `i` is set, and every other is as before.
abbrev pub Marked : Mem → Mem → ℕ → ℕ → Type 0
Marked m m' bitmap i =
    (k : ℕ)
    → is_bitmap_bit_set m' bitmap k ≡ (if i == k then true else is_bitmap_bit_set m bitmap k)

pub first_clear-some :
    (m : Mem) (bitmap n i j : ℕ)
    → first_clear m bitmap n i ≡ some j
    → (i ≤ j)
      × (j < i + n)
      × (is_bitmap_bit_set m bitmap j ≡ false)
      × ((k : ℕ) → i ≤ k → k < j → is_bitmap_bit_set m bitmap k ≡ true)
unfolding first_clear
first_clear-some m bitmap zero i j e = absurd (cc)
first_clear-some m bitmap (suc n) i j e = elim (Bool-cases (is_bitmap_bit_set m bitmap i)) [
  | inl used ↦
      let (a, b, c, d) = first_clear-some m bitmap n (i + 1) j (rw used at e) in
      (
        omega arith,
        omega arith,
        c,
        λ k x y. elim (ℕ_discrete k i) [ yes q ↦ rw q used | no q ↦ d k (omega arith) y ],
      )
  | inr free ↦ ground (arith, free, e)
]

pub first_clear-none :
    (m : Mem) (bitmap n i : ℕ)
    → first_clear m bitmap n i ≡ none
    → (k : ℕ) → i ≤ k
    → k < i + n
    → is_bitmap_bit_set m bitmap k ≡ true
unfolding first_clear
first_clear-none m bitmap zero i e k a b = absurd (omega arith)
first_clear-none m bitmap (suc n) i e k a b = elim (Bool-cases (is_bitmap_bit_set m bitmap i)) [
  | inl used ↦ elim (ℕ_discrete k i) [
    | yes q ↦ rw q used
    | no q ↦ first_clear-none m bitmap n (i + 1) (rw used at e) k (omega arith) (omega arith)
  ]
  | inr free ↦ ground (arith, free, e)
]

search_cases :
    (m : Mem) (bitmap n : ℕ)
    → ((i : ℕ) × (first_clear m bitmap n 0 ≡ some i) × IsFirstFree m bitmap n i)
      ⊎ ((first_clear m bitmap n 0 ≡ none) × AllUsed m bitmap n)
search_cases m bitmap n = elim (Option-cases (first_clear m bitmap n 0)) [
  | inl e ↦ inr (e, λ k h. first_clear-none m bitmap n 0 e k (omega arith) (omega arith))
  | inr (i, e) ↦
      let (a, b, c, d) = first_clear-some m bitmap n 0 i e in
      inl (i, e, record { below = omega arith; free = c; first = λ k h. d k (omega arith) h })
]

-- On an image of bytes with at most 2 ^ 31 inodes, `getEmptyInode` returns the smallest free number
-- and marks exactly it in the bitmap, or -1, and then every inode is in use and the image is
-- unchanged.
pub get_empty_inode_cases :
    (m : Mem)
    → IsImage m
    → num_inodes m ≤ 2 ^ 31
    → ((i : ℕ) × ((get_empty_inode m).0 ≡ pos i)
        × IsFirstFree m (i_bitmap_ptr m) (num_inodes m) i
        × Marked m (get_empty_inode m).1 (i_bitmap_ptr m) i)
      ⊎ (((get_empty_inode m).0 ≡ negsuc 0)
          × ((get_empty_inode m).1 ≡ m)
          × AllUsed m (i_bitmap_ptr m) (num_inodes m))
unfolding get_empty_inode
get_empty_inode_cases m h small = elim (search_cases m (i_bitmap_ptr m) (num_inodes m)) [
  | inl (i, e, f) ↦ inl (
    i,
    rw (e, get_empty_inode) (ground (arith, f.below)),
    f,
    λ k. rw (e, get_empty_inode) (is_set-set m (i_bitmap_ptr m) i k h),
  )
  | inr (e, f) ↦ inr (rw (e, get_empty_inode) refl, rw (e, get_empty_inode) refl, f)
]

-- On an image of bytes whose data blocks end below 2 GiB, `allocateDataBlock` returns the offset of
-- the first free block and marks exactly it in the bitmap, or -ENOSPC, and then every block is in
-- use and the image is unchanged.
pub allocate_data_block_cases :
    (m : Mem)
    → IsImage m
    → d_blocks_ptr m + num_data_blocks m * block_size ≤ 2 ^ 31
    → ((i : ℕ) × ((allocate_data_block m).0 ≡ pos (d_blocks_ptr m + i * block_size))
        × IsFirstFree m (d_bitmap_ptr m) (num_data_blocks m) i
        × Marked m (allocate_data_block m).1 (d_bitmap_ptr m) i)
      ⊎ (((allocate_data_block m).0 ≡ enospc)
          × ((allocate_data_block m).1 ≡ m)
          × AllUsed m (d_bitmap_ptr m) (num_data_blocks m))
unfolding allocate_data_block
allocate_data_block_cases m h small = elim (search_cases m (d_bitmap_ptr m) (num_data_blocks m)) [
  | inl (i, e, f) ↦ inl (
    i,
    rw (e, allocate_data_block) (ground (arith, f.below)),
    f,
    λ k. rw (e, allocate_data_block) (is_set-set m (d_bitmap_ptr m) i k h),
  )
  | inr (e, f) ↦ inr (rw (e, allocate_data_block) refl, rw (e, allocate_data_block) refl, f)
]
