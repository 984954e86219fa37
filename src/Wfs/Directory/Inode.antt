-- ===== src/Wfs/Directory/Inode.antt =====
-- The inode that `createNewEntry` of cs537/P7/wfs.c takes, and the directory of the parent, which
-- that leaves as it is.
use schoolwork.Common.{
  true, false, ℕ, zero, suc, ◌+◌, ◌*◌, ◌/◌, ◌^◌, ◌≤◌, ◌<◌, ◌≡◌, ◌≢◌, refl, sym, ap, ◌∙◌, ◌⊎◌, inl,
  inr, none, some, arith, Option-cases, length,
}
use native.Mathlib.Decide.{ℕ_discrete}
use schoolwork.Common.Bytes.{Bytes}
use schoolwork.Common.Int.{pos, negsuc, eq_ℤ}
use schoolwork.Wfs.Memory.{Mem, load, store}
use schoolwork.Wfs.Memory.Frames.{load-store, load-store_apart, load-agree, store-other}
use schoolwork.Wfs.Layout.{
  max_name, n_blocks, block_size, entries_per_block, inode_block, inode_mode, inode_size,
  inode_nlinks, num_inodes, i_bitmap_ptr, i_blocks_ptr, d_bitmap_ptr, d_blocks_ptr, num_data_blocks,
  get_inode_by_number,
}
use schoolwork.Wfs.Bitmap.{first_clear, is_bitmap_bit_set, get_empty_inode}
use schoolwork.Wfs.Bitmap.Laws.{set_bitmap_bit-other}
use schoolwork.Wfs.Bitmap.Allocation.{first_clear-some}
use schoolwork.Wfs.Memory.Frames.{IsImage}
use schoolwork.Wfs.Path.{find_in_directory}
use schoolwork.Wfs.Directory.{free_entry, Context, init_inode}
use schoolwork.Wfs.Directory.Entry.{find_in_block-agree, free_entry-agree}
use schoolwork.Wfs.Directory.Room.{IsDirectory, NoRoom}
use schoolwork.Wfs.Directory.Found.{slot, in_block, slot-unused, slot-block, find_in_directory-slot}

-- The regions of the image, one behind the other, as `mkfs` lays them out.
pub record IsLaidOut (m : Mem) : Type 0 where
  pub image : IsImage m
  pub i_bitmap : 48 ≤ i_bitmap_ptr m
  pub d_bitmap : i_bitmap_ptr m + (num_inodes m + 7) / 8 ≤ d_bitmap_ptr m
  pub i_blocks : d_bitmap_ptr m + (num_data_blocks m + 7) / 8 ≤ i_blocks_ptr m
  pub d_blocks : i_blocks_ptr m + num_inodes m * block_size ≤ d_blocks_ptr m
  pub small : num_inodes m ≤ 2 ^ 31

abbrev pub inode_at : Mem → ℕ → ℕ
inode_at m i = i_blocks_ptr m + i * block_size

pub get_inode_by_number-pos :
    (m : Mem) (i : ℕ) → i < 2 ^ 22 → get_inode_by_number m (pos i) ≡ some (inode_at m i)
unfolding get_inode_by_number
get_inode_by_number-pos m i small = ground arith

pub pos-ne-negsuc : (n : ℕ) → eq_ℤ (pos n) (negsuc 0) ≡ false
pos-ne-negsuc n = ground arith

pub is_set-agree :
    (m m' : Mem) (bitmap i : ℕ)
    → m' (bitmap + i / 8) ≡ m (bitmap + i / 8)
    → is_bitmap_bit_set m' bitmap i ≡ is_bitmap_bit_set m bitmap i
unfolding is_bitmap_bit_set
is_set-agree m m' bitmap i e = rw e refl

-- What the new inode's fields are, and what the code leaves alone.
pub record Initialised (m m' : Mem) (a number mode : ℕ) : Type 0 where
  pub numbered : load 4 m' a ≡ number
  pub mode_set : load 4 m' (inode_mode a) ≡ mode
  pub links : load 4 m' (inode_nlinks a) ≡ 1
  pub empty : load 8 m' (inode_size a) ≡ 0
  pub other : (b : ℕ) → (b < a) ⊎ (a + 56 ≤ b) → m' b ≡ m b

pub init_inode-Initialised :
    (c : Context) (m : Mem) (a number mode : ℕ)
    → number < 2 ^ 32
    → mode < 2 ^ 32
    → (m' : Mem) × (init_inode c a number mode m ≡ some (tt, m')) × Initialised m m' a number mode
init_inode-Initialised c m a number mode fits small = (
  m9,
  unfold init_inode in refl,
  record {
    numbered =
        load-store_apart 4 8 m8 a (a + 48) c.now (inl (omega arith))
        ∙ load-store_apart 4 8 m7 a (a + 40) c.now (inl (omega arith))
        ∙ load-store_apart 4 8 m6 a (a + 32) c.now (inl (omega arith))
        ∙ load-store_apart 4 8 m5 a (a + 16) 0 (inl (omega arith))
        ∙ load-store_apart 4 4 m4 a (a + 12) c.gid (inl (omega arith))
        ∙ load-store_apart 4 4 m3 a (a + 8) c.uid (inl (omega arith))
        ∙ load-store_apart 4 4 m2 a (a + 24) 1 (inl (omega arith))
        ∙ load-store_apart 4 4 m1 a (a + 4) mode (inl (omega arith))
        ∙ load-store 4 m a number (omega arith);
    mode_set =
        load-store_apart 4 8 m8 (a + 4) (a + 48) c.now (inl (omega arith))
        ∙ load-store_apart 4 8 m7 (a + 4) (a + 40) c.now (inl (omega arith))
        ∙ load-store_apart 4 8 m6 (a + 4) (a + 32) c.now (inl (omega arith))
        ∙ load-store_apart 4 8 m5 (a + 4) (a + 16) 0 (inl (omega arith))
        ∙ load-store_apart 4 4 m4 (a + 4) (a + 12) c.gid (inl (omega arith))
        ∙ load-store_apart 4 4 m3 (a + 4) (a + 8) c.uid (inl (omega arith))
        ∙ load-store_apart 4 4 m2 (a + 4) (a + 24) 1 (inl (omega arith))
        ∙ load-store 4 m1 (a + 4) mode (omega arith);
    links =
        load-store_apart 4 8 m8 (a + 24) (a + 48) c.now (inl (omega arith))
        ∙ load-store_apart 4 8 m7 (a + 24) (a + 40) c.now (inl (omega arith))
        ∙ load-store_apart 4 8 m6 (a + 24) (a + 32) c.now (inl (omega arith))
        ∙ load-store_apart 4 8 m5 (a + 24) (a + 16) 0 (inr (omega arith))
        ∙ load-store_apart 4 4 m4 (a + 24) (a + 12) c.gid (inr (omega arith))
        ∙ load-store_apart 4 4 m3 (a + 24) (a + 8) c.uid (inr (omega arith))
        ∙ load-store 4 m2 (a + 24) 1 (omega arith);
    empty =
        load-store_apart 8 8 m8 (a + 16) (a + 48) c.now (inl (omega arith))
        ∙ load-store_apart 8 8 m7 (a + 16) (a + 40) c.now (inl (omega arith))
        ∙ load-store_apart 8 8 m6 (a + 16) (a + 32) c.now (inl (omega arith))
        ∙ load-store 8 m5 (a + 16) 0 (omega arith);
    other = λ b h.
        store-other 8 m8 (a + 48) c.now b (omega arith)
        ∙ store-other 8 m7 (a + 40) c.now b (omega arith)
        ∙ store-other 8 m6 (a + 32) c.now b (omega arith)
        ∙ store-other 8 m5 (a + 16) 0 b (omega arith)
        ∙ store-other 4 m4 (a + 12) c.gid b (omega arith)
        ∙ store-other 4 m3 (a + 8) c.uid b (omega arith)
        ∙ store-other 4 m2 (a + 24) 1 b (omega arith)
        ∙ store-other 4 m1 (a + 4) mode b (omega arith)
        ∙ store-other 4 m a number b (omega arith);
  },
)
  where
    m1 : Mem
    m1 = store 4 m a number

    m2 : Mem
    m2 = store 4 m1 (a + 4) mode

    m3 : Mem
    m3 = store 4 m2 (a + 24) 1

    m4 : Mem
    m4 = store 4 m3 (a + 8) c.uid

    m5 : Mem
    m5 = store 4 m4 (a + 12) c.gid

    m6 : Mem
    m6 = store 8 m5 (a + 16) 0

    m7 : Mem
    m7 = store 8 m6 (a + 32) c.now

    m8 : Mem
    m8 = store 8 m7 (a + 40) c.now

    m9 : Mem
    m9 = store 8 m8 (a + 48) c.now

-- The bytes that a search of the directory, or the addition of an entry, reads.
abbrev pub Read : Mem → ℕ → ℕ → Type 0
Read m parent a =
    (a < 48)
    ⊎ (((d_bitmap_ptr m ≤ a) × (a < d_bitmap_ptr m + (num_data_blocks m + 7) / 8))
        ⊎ (((parent ≤ a) × (a < parent + 120)) ⊎ (d_blocks_ptr m ≤ a)))

module _ (m m' : Mem) (parent : ℕ) (d : IsDirectory m parent)
    (same : (a : ℕ) → Read m parent a → m' a ≡ m a) where
  pub word : (a : ℕ) → a + 8 ≤ 48 → load 8 m' a ≡ load 8 m a
  word a h = load-agree 8 m' m a (λ b x y. same b (inl (omega arith)))

  pointer :
      (i : ℕ) → i < n_blocks → load 8 m' (inode_block parent i) ≡ load 8 m (inode_block parent i)
  pointer i h =
      load-agree 8 m' m (inode_block parent i)
        (λ b x y. same b (inr (inr (inl (omega arith, omega arith)))))

  slot-agree :
      (token : Bytes) (i : ℕ)
      → length token < max_name
      → i < n_blocks
      → slot m' parent token i ≡ slot m parent token i
  slot-agree token i short lt = elim (ℕ_discrete (load 8 m (inode_block parent i)) 0) [
    | yes none_yet ↦
        slot-unused m' parent token i (pointer i lt ∙ none_yet)
        ∙ sym (slot-unused m parent token i none_yet)
    | no has ↦
        let b = load 8 m (inode_block parent i) in
        let (k, at, inside, used) = d.block i lt has in
        let in_use : b < 2 ^ 31 = omega (arith, at, d.placed.small) in
        slot-block m' parent token i b (pointer i lt) has in_use
        ∙ ap in_block (
            find_in_block-agree m m' b token entries_per_block 0 short
              (λ c x y. same c (inr (inr (inr (omega (arith, at)))))))
        ∙ sym (slot-block m parent token i b refl has in_use)
  ]

  pub find_in_directory-agree :
      (token : Bytes) (n i : ℕ)
      → length token < max_name
      → i + n ≤ n_blocks
      → find_in_directory m' parent token n i ≡ find_in_directory m parent token n i
  find_in_directory-agree token zero i short h = unfold find_in_directory in refl
  find_in_directory-agree token (suc n) i short h =
      find_in_directory-slot m' parent token n i
      ∙ rw
          (
            slot-agree token i short (omega arith),
            find_in_directory-agree token n (i + 1) short (omega arith),
          )
          refl
      ∙ sym (find_in_directory-slot m parent token n i)

  -- If there is no room afterwards, there was none before.
  pub NoRoom-agree : NoRoom m' parent → NoRoom m parent
  NoRoom-agree (inl used) = inl λ k lt.
      let set' : is_bitmap_bit_set m' (d_bitmap_ptr m') k ≡ true =
        used k (omega (arith, lt, word 8 (omega arith))) in
      let set : is_bitmap_bit_set m' (d_bitmap_ptr m) k ≡ true =
        rw (word 24 (omega arith)) at set' in
      sym (
        is_set-agree m m' (d_bitmap_ptr m) k
          (same (d_bitmap_ptr m + k / 8) (inr (inl (omega arith, omega (arith, lt))))))
      ∙ set
  NoRoom-agree (inr full) = inr λ j lt.
      let (has', none') = full j lt in
      let has : load 8 m (inode_block parent j) ≢ 0 = rw (pointer j lt) at has' in
      let (k, at, inside, used) = d.block j lt has in
      let b = load 8 m (inode_block parent j) in
      let none_there : free_entry m' b entries_per_block 0 ≡ none = rw (pointer j lt) at none' in
      (
        has,
        sym (
              free_entry-agree m m' b entries_per_block 0
                (λ c x y. same c (inr (inr (inr (omega (arith, at)))))))
            ∙ none_there,
      )

  pub IsDirectory-agree : IsDirectory m' parent
  IsDirectory-agree = record {
    placed = record {
      bitmap = rw (word 24 (omega arith)) d.placed.bitmap;
      before = rw (word 24 (omega arith), word 8 (omega arith)) d.placed.before;
      after = rw (word 40 (omega arith)) d.placed.after;
      small = rw (word 40 (omega arith), word 8 (omega arith)) d.placed.small;
    };
    block = λ i lt has.
        let (k, at, inside, used) = d.block i lt (rw (pointer i lt) at has) in
        (
          k,
          pointer i lt ∙ at ∙ rw (word 40 (omega arith)) refl,
          rw (word 8 (omega arith)) inside,
          rw (word 24 (omega arith)) (
              unfold is_bitmap_bit_set in
              rw (same (d_bitmap_ptr m + k / 8) (inr (inl (omega arith, omega (arith, inside)))))
                used),
        );
    apart = λ i j a b ne has.
        rw (pointer i a, pointer j b) (d.apart i j a b ne (rw (pointer i a) at has));
    dense = λ i j a b e. pointer j b ∙ d.dense i j a b (sym (pointer i (omega arith)) ∙ e);
  }

-- `getEmptyInode` changes nothing but the bitmap of the inodes.
pub get_empty_inode-other :
    (m : Mem) (b : ℕ)
    → (b < i_bitmap_ptr m) ⊎ (i_bitmap_ptr m + (num_inodes m + 7) / 8 ≤ b)
    → (get_empty_inode m).1 b ≡ m b
unfolding get_empty_inode
get_empty_inode-other m b h =
    elim (Option-cases (first_clear m (i_bitmap_ptr m) (num_inodes m) 0)) [
      | inl e ↦ rw (e, get_empty_inode) refl
      | inr (i, e) ↦
          let (lo, hi, c, k) = first_clear-some m (i_bitmap_ptr m) (num_inodes m) 0 i e in
          rw (e, get_empty_inode) (set_bitmap_bit-other m (i_bitmap_ptr m) i b (omega arith))
    ]
