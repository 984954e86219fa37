-- ===== src/Wfs/Directory/Room.antt =====
-- Where `addDirectoryEntry` of cs537/P7/wfs.c puts an entry: into a block of the directory that
-- has room, or into a new block.
use schoolwork.Common.{
  ℕ, zero, suc, ◌+◌, ◌*◌, ◌/◌, ◌^◌, ◌≤◌, ◌<◌, ◌≡◌, refl, ◌≢◌, ◌⊎◌, inl, inr, true, false, Option,
  none, some, arith, ◌==◌, Option-cases,
}
use native.Mathlib.Decide.{ℕ_discrete}
use schoolwork.Common.Bytes.{Bytes}
use schoolwork.Common.Int.{ℤ, pos, unsigned, eq_ℤ}
use schoolwork.Wfs.Memory.{Mem, load, store, ◌>>=◌}
use schoolwork.Wfs.Layout.{
  n_blocks, block_size, entries_per_block, inode_block, enospc, d_bitmap_ptr, d_blocks_ptr,
  num_data_blocks, get_directory_entry,
}
use schoolwork.Wfs.Bitmap.{allocate_data_block, first_clear, set_bitmap_bit, is_bitmap_bit_set}
use schoolwork.Wfs.Bitmap.Laws.{set_bitmap_bit-other}
use schoolwork.Wfs.Bitmap.Allocation.{AllUsed, first_clear-some, first_clear-none}
use schoolwork.Wfs.Blocks.Stable.{Placed}
use schoolwork.Wfs.Directory.{write_entry, free_entry, add_entry_from}

-- The blocks of the directory whose inode is at `parent` are different data blocks that are marked
-- in use, and its block pointers are used from the first one on.
pub record IsDirectory (m : Mem) (parent : ℕ) : Type 0 where
  pub placed : Placed m parent
  pub block :
      (i : ℕ)
      → i < n_blocks
      → load 8 m (inode_block parent i) ≢ 0
      → (k : ℕ) × (load 8 m (inode_block parent i) ≡ d_blocks_ptr m + k * block_size)
        × (k < num_data_blocks m)
        × (is_bitmap_bit_set m (d_bitmap_ptr m) k ≡ true)
  pub apart :
      (i j : ℕ)
      → i < n_blocks
      → j < n_blocks
      → i ≢ j
      → load 8 m (inode_block parent i) ≢ 0
      → load 8 m (inode_block parent i) ≢ load 8 m (inode_block parent j)
  pub dense :
      (i j : ℕ)
      → i < j
      → j < n_blocks
      → load 8 m (inode_block parent i) ≡ 0
      → load 8 m (inode_block parent j) ≡ 0

-- The entry at `e` was written into block `b` of the directory, which has the index `i`.
pub record Added (m m' : Mem) (parent i b e : ℕ) : Type 0 where
  pub index : i < n_blocks
  pub pointer : load 8 m' (inode_block parent i) ≡ b
  pub pointers :
      (j : ℕ)
      → j < n_blocks
      → j ≢ i
      → load 8 m' (inode_block parent j) ≡ load 8 m (inode_block parent j)
  pub contents : (a : ℕ) → d_blocks_ptr m ≤ a → (a < e) ⊎ (e + 32 ≤ a) → m' a ≡ m a
  pub low : b ≤ e
  pub high : e + 32 ≤ b + block_size
  pub number : ℕ
  pub aligned : b ≡ d_blocks_ptr m + number * block_size
  pub within : number < num_data_blocks m
  pub unique : (j : ℕ) → j < n_blocks → j ≢ i → load 8 m (inode_block parent j) ≢ b

-- A byte that is not in the bitmap of the data blocks.
abbrev pub OffBitmap : Mem → ℕ → Type 0
OffBitmap m a = (a < d_bitmap_ptr m) ⊎ (d_bitmap_ptr m + (num_data_blocks m + 7) / 8 ≤ a)

-- The data block that is allocated was free, and nothing changes but the bitmap.
pub allocate_data_block-fresh :
    (m : Mem) (inode : ℕ)
    → Placed m inode
    → ((allocate_data_block m ≡ (enospc, m))
        × (first_clear m (d_bitmap_ptr m) (num_data_blocks m) 0 ≡ none))
      ⊎ ((k : ℕ) × (m' : Mem) × (allocate_data_block m
            ≡ (pos (d_blocks_ptr m + k * block_size), m'))
          × (k < num_data_blocks m)
          × (is_bitmap_bit_set m (d_bitmap_ptr m) k ≡ false)
          × ((a : ℕ) → OffBitmap m a → m' a ≡ m a))
unfolding allocate_data_block
allocate_data_block-fresh m inode p =
    elim (Option-cases (first_clear m (d_bitmap_ptr m) (num_data_blocks m) 0)) [
      | inl e ↦ inl (rw (e, allocate_data_block) refl, e)
      | inr (i, e) ↦
          let (lo, hi, c, d) = first_clear-some m (d_bitmap_ptr m) (num_data_blocks m) 0 i e in
          inr (
            i,
            set_bitmap_bit m (d_bitmap_ptr m) i,
            rw (e, allocate_data_block) (ground (arith, p.small)),
            omega (arith, hi),
            c,
            λ a h. set_bitmap_bit-other m (d_bitmap_ptr m) i a (omega arith),
          )
    ]

-- No data block is free, or the directory has all its blocks and no free entry in them.
abbrev pub NoRoom : Mem → ℕ → Type 0
NoRoom m parent =
    AllUsed m (d_bitmap_ptr m) (num_data_blocks m)
    ⊎ ((j : ℕ)
        → j < n_blocks
        → (load 8 m (inode_block parent j) ≢ 0)
          × (free_entry m (load 8 m (inode_block parent j)) entries_per_block 0 ≡ none))

-- The three ways in which the loop over the blocks ends.
pub data Outcome (m : Mem) (parent : ℕ) (name : Bytes) (number now : ℕ) (r : Option (ℤ × Mem))
    : Type 0 where
  full : r ≡ some (enospc, m) → NoRoom m parent → Outcome m parent name number now r
  has_room :
      (i e : ℕ)
      → i < n_blocks
      → load 8 m (inode_block parent i) ≢ 0
      → free_entry m (load 8 m (inode_block parent i)) entries_per_block 0 ≡ some e
      → r ≡ write_entry parent e name number now m
      → Outcome m parent name number now r
  grows :
      (i k : ℕ) (m1 : Mem)
      → i < n_blocks
      → load 8 m (inode_block parent i) ≡ 0
      → k < num_data_blocks m
      → is_bitmap_bit_set m (d_bitmap_ptr m) k ≡ false
      → ((a : ℕ) → OffBitmap m a → m1 a ≡ m a)
      → r
        ≡ write_entry parent
            (d_blocks_ptr m + k * block_size)
            name
            number
            now
            (store 8 m1 (inode_block parent i) (d_blocks_ptr m + k * block_size))
      → Outcome m parent name number now r

pub get_directory_entry-small : (b : ℕ) → b < 2 ^ 31 → get_directory_entry b ≡ some b
unfolding get_directory_entry
get_directory_entry-small b h = ground arith

unsigned-pos : (n : ℕ) → n < 2 ^ 64 → unsigned 64 (pos n) ≡ n
unsigned-pos n h = omega arith

module _ (m : Mem) (parent : ℕ) (name : Bytes) (number now : ℕ) (d : IsDirectory m parent) where
  pub add_entry_from-Outcome :
      (n i : ℕ)
      → i + n ≡ n_blocks
      → ((j : ℕ)
          → j < i
          → (load 8 m (inode_block parent j) ≢ 0)
            × (free_entry m (load 8 m (inode_block parent j)) entries_per_block 0 ≡ none))
      → Outcome m parent name number now (add_entry_from parent name number now n i m)
  unfolding add_entry_from
  add_entry_from-Outcome zero i h past = full refl (inr (λ j lt. past j (omega arith)))
  add_entry_from-Outcome (suc n) i h past = elim (ℕ_discrete (load 8 m (inode_block parent i)) 0) [
    | yes none_yet ↦ elim (allocate_data_block-fresh m parent d.placed) [
      | inl (e, all_used) ↦ full (rw (none_yet, e) refl) (
          inl (λ k lt.
            first_clear-none m (d_bitmap_ptr m) (num_data_blocks m) 0 all_used k (omega arith)
              (omega arith)))
      | inr (k, m1, e, lt, clear, kept) ↦
          let ok =
            get_directory_entry-small (d_blocks_ptr m + k * block_size)
              (omega (arith, d.placed.small)) in
          let whole =
            unsigned-pos (d_blocks_ptr m + k * block_size) (omega (arith, d.placed.small)) in
          let not_full : eq_ℤ (pos (d_blocks_ptr m + k * block_size)) enospc ≡ false =
            ground arith in
          grows i k m1 (omega arith) none_yet lt clear kept
            (rw (none_yet, e, whole, ok, not_full, ◌>>=◌) refl)
    ]
    | no has ↦
        let no_room : (load 8 m (inode_block parent i) == 0) ≡ false = ground arith in
        let (k, at, lt, used) = d.block i (omega arith) has in
        let ok =
          get_directory_entry-small (load 8 m (inode_block parent i))
            (omega (arith, at, d.placed.small)) in
        elim (Option-cases (free_entry m (load 8 m (inode_block parent i)) entries_per_block 0)) [
          | inl none_free ↦
              rw (no_room, ok, none_free)
                (add_entry_from-Outcome n (i + 1) (omega arith) λ j lt. elim (ℕ_discrete j i) [
                  | yes e ↦ rw e (has, none_free)
                  | no ne ↦ past j (omega (arith, ne))
                ])
          | inr (e, q) ↦ has_room i e (omega arith) has q (rw (no_room, ok, q) refl)
        ]
  ]
