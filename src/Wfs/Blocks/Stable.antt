-- ===== src/Wfs/Blocks/Stable.antt =====
-- What `get_block_ptr` allocates is found again when a file is read.
use schoolwork.Common.{
  ℕ, ◌+◌, ◌-◌, ◌*◌, ◌/◌, ◌^◌, ◌≤◌, ◌<◌, ◌≡◌, refl, sym, ap, ◌∙◌, ◌≢◌, ◌⊎◌, inl, inr, Bool, true,
  false, Option, none, some, arith, ltb, leb, lt→ltb, Option-cases,
}
use native.Mathlib.Decide.{ℕ_discrete, dec_lt}
use schoolwork.Common.Int.{pos}
use schoolwork.Wfs.Memory.{Mem, load, store, clear, ◌>>=◌}
use schoolwork.Wfs.Memory.Frames.{load-store, load-store_apart, load-clear_apart, load-agree}
use schoolwork.Wfs.Layout.{
  block_size, d_block, ind_block, pointers_per_block, inode_block, enospc, d_bitmap_ptr,
  d_blocks_ptr, num_data_blocks,
}
use schoolwork.Wfs.Bitmap.{allocate_data_block, first_clear, set_bitmap_bit}
use schoolwork.Wfs.Bitmap.Laws.{set_bitmap_bit-other}
use schoolwork.Wfs.Bitmap.Allocation.{first_clear-some}
use schoolwork.Wfs.Blocks.{block_at, indirect_block, indirect_entry, get_block_ptr}

-- The image is laid out as `mkfs` does it, around the inode at an address.
pub record Placed (m : Mem) (inode : ℕ) : Type 0 where
  pub bitmap : 48 ≤ d_bitmap_ptr m
  pub before : d_bitmap_ptr m + (num_data_blocks m + 7) / 8 ≤ inode
  pub after : inode + 120 ≤ d_blocks_ptr m
  pub small : d_blocks_ptr m + num_data_blocks m * block_size ≤ 2 ^ 31

-- A number above the bitmap is not changed by an allocation, and the block is a data block.
pub allocation :
    (m : Mem) (inode : ℕ)
    → Placed m inode
    → (allocate_data_block m ≡ (enospc, m))
      ⊎ ((b : ℕ) × (m' : Mem) × (allocate_data_block m ≡ (pos b, m'))
          × (d_blocks_ptr m ≤ b)
          × (b < 2 ^ 31)
          × ((k a : ℕ) → inode ≤ a → load k m' a ≡ load k m a)
          × ((a : ℕ) → a + 8 ≤ 48 → load 8 m' a ≡ load 8 m a))
unfolding allocate_data_block
allocation m inode p = elim (Option-cases (first_clear m (d_bitmap_ptr m) (num_data_blocks m) 0)) [
  | inl e ↦ inl (rw (e, allocate_data_block) refl)
  | inr (i, e) ↦
      let (lo, hi, c, d) = first_clear-some m (d_bitmap_ptr m) (num_data_blocks m) 0 i e in
      inr (
        d_blocks_ptr m + i * block_size,
        set_bitmap_bit m (d_bitmap_ptr m) i,
        rw (e, allocate_data_block) (ground (arith, p.small)),
        omega arith,
        omega (arith, p.small),
        λ k a h.
            load-agree k _ m a
              λ b x y. set_bitmap_bit-other m (d_bitmap_ptr m) i b (omega (arith, p.before)),
        λ a h.
            load-agree 8 _ m a
              λ b x y. set_bitmap_bit-other m (d_bitmap_ptr m) i b (omega (arith, p.bitmap)),
      )
]

-- The pointer behind a direct block or an entry of the indirect block, after `block_at` has
-- allocated through it.
pub block_at-stable :
    (m m' : Mem) (inode pointer b : ℕ)
    → Placed m inode
    → block_at pointer true m ≡ some (some b, m')
    → (load 8 m' pointer ≡ b) × (b ≢ 0)
unfolding block_at
block_at-stable m m' inode pointer b p e = elim (allocation m inode p) [
  | inl full ↦ ground (arith, full)
  | inr (c, m1, got, lo, hi, above, below) ↦
      ground (arith, got, lo, hi, p.after, load-store 8 m1 pointer c)
]

-- A number of the inode that lies apart from the pointer is left alone.
pub block_at-other :
    (m m' : Mem) (inode pointer b a : ℕ)
    → Placed m inode
    → block_at pointer true m ≡ some (some b, m')
    → inode ≤ a
    → a + 8 ≤ pointer
    → load 8 m' a ≡ load 8 m a
unfolding block_at
block_at-other m m' inode pointer b a p e above apart = elim (allocation m inode p) [
  | inl full ↦ ground (arith, full)
  | inr (c, m1, got, lo, hi, kept, below) ↦
      ground (arith, got, kept 8 a, load-store_apart 8 8 m1 a pointer c)
]

pub block_at-found :
    (m : Mem) (pointer b : ℕ)
    → load 8 m pointer ≡ b
    → b ≢ 0
    → block_at pointer false m ≡ some (some b, m)
unfolding block_at
block_at-found m pointer b e ne = ground arith

-- The indirect block of an inode, its pointer, and that the image stays laid out.
indirect_block-stable :
    (m m1 : Mem) (inode c : ℕ)
    → Placed m inode
    → (load 8 m (inode_block inode ind_block) ≡ 0)
      ⊎ (d_blocks_ptr m ≤ load 8 m (inode_block inode ind_block))
    → indirect_block inode true m ≡ some (some c, m1)
    → (load 8 m1 (inode_block inode ind_block) ≡ c) × (inode + 120 ≤ c) × Placed m1 inode
unfolding indirect_block
indirect_block-stable m m1 inode c p ind e =
    elim (ℕ_discrete (load 8 m (inode_block inode ind_block)) 0) [
      | no has ↦
          let same : m1 ≡ m = ground (arith) in
          let here : load 8 m (inode_block inode ind_block) ≡ c = ground arith in
          (rw same here, omega (arith, p.after), rw same p)
      | yes new ↦ elim (allocation m inode p) [
        | inl full ↦ absurd (ground (arith, full, new))
        | inr (d, m2, got, lo, hi, kept, below) ↦
            let is_d : c ≡ d = ground (arith, got, new, hi) in
            let image : m1 ≡ clear (store 8 m2 (inode_block inode ind_block) d) d block_size =
              ground (arith, got, new, hi) in
            let word : (a : ℕ) → a + 8 ≤ 48 → load 8 m1 a ≡ load 8 m a = λ a h. rw image (
              load-clear_apart 8 block_size _ a d
                (inl (omega (arith, lo, p.after, p.before, p.bitmap)))
              ∙ load-store_apart 8 8 m2 a (inode_block inode ind_block) d
                  (inl (omega (arith, p.before, p.bitmap)))
              ∙ below a h) in
            (
              rw image (
                  load-clear_apart 8 block_size _ (inode_block inode ind_block) d
                    (inl (omega (arith, lo, p.after)))
                  ∙ load-store 8 m2 (inode_block inode ind_block) d (omega (arith, hi))
                  ∙ sym is_d),
              omega (arith, is_d, lo, p.after),
              record {
                bitmap = rw (word 24 (omega arith)) p.bitmap;
                before = rw (word 24 (omega arith), word 8 (omega arith)) p.before;
                after = rw (word 40 (omega arith)) p.after;
                small = rw (word 40 (omega arith), word 8 (omega arith)) p.small;
              },
            )
      ]
    ]

module _ (inode index : ℕ) where
  pub direct :
      (allocate : Bool) (m : Mem)
      → index < d_block
      → get_block_ptr inode index allocate m ≡ block_at (inode_block inode index) allocate m
  unfolding get_block_ptr
  direct allocate m h = rw (lt→ltb index d_block h)

  too_far :
      (allocate : Bool) (m : Mem)
      → d_block + pointers_per_block ≤ index
      → get_block_ptr inode index allocate m ≡ some (none, m)
  unfolding get_block_ptr
  too_far allocate m h =
      let a : ltb index d_block ≡ false = ground arith in
      let b : leb pointers_per_block (index - d_block) ≡ true = ground arith in rw (a, b)

  indirect :
      (allocate : Bool) (m m1 : Mem) (c : ℕ)
      → d_block ≤ index
      → index < d_block + pointers_per_block
      → indirect_block inode allocate m ≡ some (some c, m1)
      → get_block_ptr inode index allocate m
        ≡ indirect_entry (c + 8 * (index - d_block)) allocate m1
  unfolding get_block_ptr
  indirect allocate m m1 c lo hi e =
      let a : ltb index d_block ≡ false = ground arith in
      let b : leb pointers_per_block (index - d_block) ≡ false = ground arith in rw (a, b, e, ◌>>=◌)

  no_indirect :
      (m m1 : Mem)
      → d_block ≤ index
      → index < d_block + pointers_per_block
      → indirect_block inode true m ≡ some (none, m1)
      → get_block_ptr inode index true m ≡ some (none, m1)
  unfolding get_block_ptr
  no_indirect m m1 lo hi e =
      let a : ltb index d_block ≡ false = ground arith in
      let b : leb pointers_per_block (index - d_block) ≡ false = ground arith in rw (a, b, e, ◌>>=◌)

indirect_block_cases :
    (inode : ℕ) (m : Mem)
    → ((m1 : Mem) × (indirect_block inode true m ≡ some (none, m1)))
      ⊎ ((c : ℕ) × (m1 : Mem) × (indirect_block inode true m ≡ some (some c, m1)))
indirect_block_cases inode m = go (indirect_block inode true m) refl
  where
    go :
        (r : Option (Option ℕ × Mem))
        → indirect_block inode true m ≡ r
        → ((m1 : Mem) × (indirect_block inode true m ≡ some (none, m1)))
          ⊎ ((c : ℕ) × (m1 : Mem) × (indirect_block inode true m ≡ some (some c, m1)))
    go none e = absurd (unfold indirect_block in ground arith)
    go (some (none, m1)) e = inl (m1, e)
    go (some (some c, m1)) e = inr (c, m1, e)

-- On an image laid out in order (data bitmap, inode, data blocks, below 2 GiB): a block that
-- `get_block_ptr` returned for writing is the one that it returns for reading the same index
-- afterwards, direct or indirect. An indirect block that the inode has already must lie among the
-- data blocks.
pub get_block_ptr-stable :
    (m m' : Mem) (inode index b : ℕ)
    → Placed m inode
    → (load 8 m (inode_block inode ind_block) ≡ 0)
      ⊎ (d_blocks_ptr m ≤ load 8 m (inode_block inode ind_block))
    → get_block_ptr inode index true m ≡ some (some b, m')
    → get_block_ptr inode index false m' ≡ some (some b, m')
get_block_ptr-stable m m' inode index b p ind e = elim (dec_lt index d_block) [
  | yes near ↦
      let (l, ne) =
        block_at-stable m m' inode (inode_block inode index) b p
          (sym (direct inode index true m near) ∙ e) in
      direct inode index false m' near ∙ block_at-found m' (inode_block inode index) b l ne
  | no far ↦ elim (dec_lt index (d_block + pointers_per_block)) [
    | no out ↦ absurd (clash (sym (too_far inode index true m (omega arith)) ∙ e))
    | yes fits ↦ elim (indirect_block_cases inode m) [
      | inl (m1, q) ↦ absurd (clash (sym (no_indirect inode index m m1 (omega arith) fits q) ∙ e))
      | inr (c, m1, q) ↦ far_case c m1 (omega arith) fits q
    ]
  ]
]
  where
    clash :
        {m1 m2 : Mem} {b : ℕ}
        → ◌≡◌ {A = Option (Option ℕ × Mem)} (some (none, m1)) (some (some b, m2))
        → ⊥
    clash h = cc

    far_case :
        (c : ℕ) (m1 : Mem)
        → d_block ≤ index
        → index < d_block + pointers_per_block
        → indirect_block inode true m ≡ some (some c, m1)
        → get_block_ptr inode index false m' ≡ some (some b, m')
    far_case c m1 lo hi q =
        let (l, above, p1) = indirect_block-stable m m1 inode c p ind q in
        let entry = c + 8 * (index - d_block) in
        let step : block_at entry true m1 ≡ some (some b, m') =
          unfold indirect_entry in sym (indirect inode index true m m1 c lo hi q) ∙ e in
        let (l', ne) = block_at-stable m1 m' inode entry b p1 step in
        let kept : load 8 m' (inode_block inode ind_block) ≡ c =
          block_at-other m1 m' inode entry b (inode_block inode ind_block) p1 step (omega arith)
            (omega (arith, above))
          ∙ l in
        indirect inode index false m' m' c lo hi
          (unfold indirect_block in ground (arith, kept, above))
        ∙ (unfold indirect_entry in ap (λ v. some (some v, m')) l')
