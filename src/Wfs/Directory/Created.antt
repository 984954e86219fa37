-- ===== src/Wfs/Directory/Created.antt =====
-- What a lookup in a directory finds after `addDirectoryEntry` of cs537/P7/wfs.c.
use schoolwork.Common.{
  ℕ, ◌+◌, ◌*◌, ◌^◌, ◌≤◌, ◌<◌, ◌≡◌, refl, sym, ap, ◌∙◌, ◌≢◌, ◌⊎◌, inl, inr, false, Option, none,
  some, arith, length, All,
}
use native.Mathlib.Decide.{ℕ_discrete}
use schoolwork.Common.Bytes.{Bytes}
use schoolwork.Common.Int.{ℤ, pos, signed32}
use schoolwork.Wfs.Memory.{Mem, load, store}
use schoolwork.Wfs.Memory.Frames.{load-store, load-store_apart, load-agree, store-other}
use schoolwork.Wfs.Layout.{
  max_name, n_blocks, block_size, entries_per_block, inode_block, inode_mtim, enospc, d_bitmap_ptr,
  d_blocks_ptr, num_data_blocks,
}
use schoolwork.Wfs.Bitmap.{is_bitmap_bit_set}
use schoolwork.Wfs.Path.{found, missing, find_in_block, find_in_directory}
use schoolwork.Wfs.Directory.{free_entry, add_directory_entry}
use schoolwork.Wfs.Directory.Entry.{
  IsString, Entered, write_entry-Entered, free_entry-within, find_in_block-agree,
  find_in_block-Entered, find_in_block-other, find_in_block-first,
}
use schoolwork.Wfs.Directory.Room.{
  IsDirectory, NoRoom, OffBitmap, Added, full, has_room, grows, add_entry_from-Outcome,
  get_directory_entry-small,
}
use schoolwork.Wfs.Directory.Found.{
  slot, in_block, found-inj, slot-unused, slot-block, find_in_directory-new,
  find_in_directory-other, slot_missing,
}

in_block-missing : (r : Option ℤ) → in_block r ≡ missing → r ≡ none
in_block-missing none e = refl
in_block-missing (some n) e = absurd (cc)

in_block-found : (r : Option ℤ) (x : ℤ) → in_block r ≡ found x → r ≡ some x
in_block-found none x e = absurd (cc)
in_block-found (some n) x e = ap some (found-inj n x e)

some-inj : (x y : ℤ) → some x ≡ some y → x ≡ y
some-inj x y e = ground (arith, e)

signed32-small : (n : ℕ) → n < 2 ^ 31 → signed32 n ≡ pos n
signed32-small n h = ground arith

-- What is added: the new name is found, and every other one as before.
abbrev pub Grown : Mem → ℕ → Mem → ℕ → Bytes → Type 0
Grown m parent m' number name =
    (find_in_directory m' parent name n_blocks 0 ≡ found (pos number))
    × ((other : Bytes) (x : ℤ)
        → IsString other
        → length other < max_name
        → other ≢ name
        → x ≢ pos 0
        → find_in_directory m parent other n_blocks 0 ≡ found x
        → find_in_directory m' parent other n_blocks 0 ≡ found x)

-- Nothing below the data blocks changes but their bitmap and the parent's inode.
abbrev pub Kept : Mem → ℕ → Mem → Type 0
Kept m parent m' =
    (a : ℕ) → OffBitmap m a → (a < parent) ⊎ (parent + 120 ≤ a) → a < d_blocks_ptr m → m' a ≡ m a

module _ (m : Mem) (parent : ℕ) (d : IsDirectory m parent) where
  below_blocks : (i : ℕ) → i < n_blocks → inode_block parent i + 8 ≤ d_blocks_ptr m
  below_blocks i h = omega (arith, d.placed.after)

  -- In a block with room.
  Added-room :
      (m' : Mem) (i e number : ℕ) (name : Bytes)
      → i < n_blocks
      → load 8 m (inode_block parent i) ≢ 0
      → free_entry m (load 8 m (inode_block parent i)) entries_per_block 0 ≡ some e
      → Entered m m' parent e name number
      → Added m m' parent i (load 8 m (inode_block parent i)) e
  Added-room m' i e number name lt has free new =
      let (k, at, inside, used) = d.block i lt has in
      let (lo, hi) =
        free_entry-within m (load 8 m (inode_block parent i)) entries_per_block 0 e free in
      let above : d_blocks_ptr m ≤ e = omega (arith, at, lo) in
      let same : (j : ℕ)
          → j < n_blocks
          → load 8 m' (inode_block parent j) ≡ load 8 m (inode_block parent j) =
        λ j h.
          load-agree 8 m' m (inode_block parent j) (λ a x y.
            new.other a (inl (omega (arith, above, d.placed.after))) (inr (omega arith))) in
      record {
        index = lt;
        pointer = same i lt;
        pointers = λ j h _. same j h;
        contents = λ a h x. new.other a x (inr (omega (arith, d.placed.after, h)));
        low = omega (arith, lo);
        high = omega (arith, hi);
        number = k;
        aligned = at;
        within = inside;
        unique = λ j h ne q. d.apart i j lt h (λ r. ne (sym r)) has (sym q);
      }

  -- In a new block.
  Added-new :
      (m1 m' : Mem) (i k number : ℕ) (name : Bytes)
      → i < n_blocks
      → load 8 m (inode_block parent i) ≡ 0
      → k < num_data_blocks m
      → is_bitmap_bit_set m (d_bitmap_ptr m) k ≡ false
      → ((a : ℕ) → OffBitmap m a → m1 a ≡ m a)
      → Entered
          (store 8 m1 (inode_block parent i) (d_blocks_ptr m + k * block_size))
          m'
          parent
          (d_blocks_ptr m + k * block_size)
          name
          number
      → Added m m' parent i (d_blocks_ptr m + k * block_size) (d_blocks_ptr m + k * block_size)
  Added-new m1 m' i k number name lt none_yet inside clear kept new =
      let b = d_blocks_ptr m + k * block_size in
      let m2 = store 8 m1 (inode_block parent i) b in
      let same : (j : ℕ)
          → j < n_blocks
          → load 8 m' (inode_block parent j) ≡ load 8 m2 (inode_block parent j) =
        λ j h.
          load-agree 8 m' m2 (inode_block parent j)
            (λ a x y. new.other a (inl (omega (arith, d.placed.after))) (inr (omega arith))) in
      record {
        index = lt;
        pointer =
            same i lt ∙ load-store 8 m1 (inode_block parent i) b (omega (arith, d.placed.small));
        pointers = λ j h ne.
            same j h
            ∙ load-store_apart 8 8 m1 (inode_block parent j) (inode_block parent i) b
                (omega (arith, ne))
            ∙ load-agree 8 m1 m (inode_block parent j)
                (λ a x y. kept a (inr (omega (arith, d.placed.before))));
        contents = λ a h x.
            new.other a x (inr (omega (arith, d.placed.after, h)))
            ∙ store-other 8 m1 (inode_block parent i) b a
                (inr (omega (arith, d.placed.after, h, lt)))
            ∙ kept a (inr (omega (arith, d.placed.after, d.placed.before, h)));
        low = omega arith;
        high = omega arith;
        number = k;
        aligned = refl;
        within = inside;
        unique = λ j h ne q.
            let (k', at, inside', used) =
              d.block j h
                (λ z. omega (arith, z, q, d.placed.bitmap, d.placed.before, d.placed.after)) in
            let same_block : k' ≡ k = omega (arith, at, q) in
            let clear' : is_bitmap_bit_set m (d_bitmap_ptr m) k' ≡ false = rw same_block clear in
            absurd (cc (used, clear'));
      }

  -- A search of another block of the directory finds what it found before.
  pub slot-Added :
      (m' : Mem) (i b e : ℕ) (token : Bytes) (j : ℕ)
      → Added m m' parent i b e
      → length token < max_name
      → j < n_blocks
      → j ≢ i
      → slot m' parent token j ≡ slot m parent token j
  unfolding slot
  slot-Added m' i b e token j new short lt ne =
      rw (new.pointers j lt ne) (elim (ℕ_discrete (load 8 m (inode_block parent j)) 0) [
        | yes none_here ↦ rw none_here refl
        | no has ↦
            let (k, at, inside, used) = d.block j lt has in
            let apart : new.number ≢ k =
              λ q. new.unique j lt ne (at ∙ rw (← q) (sym new.aligned)) in
            rw
              (
                get_directory_entry-small (load 8 m (inode_block parent j))
                    (omega (arith, at, d.placed.small)),
                find_in_block-agree m m' (load 8 m (inode_block parent j)) token entries_per_block 0
                    short
                    (λ c x y.
                      new.contents c (omega (arith, at))
                        (omega (arith, new.aligned, at, new.low, new.high, apart))),
              )
              refl
      ])

  module _ (name : Bytes) (number : ℕ) (short : length name < max_name) (small : number < 2 ^ 31)
      (text : IsString name) (absent : find_in_directory m parent name n_blocks 0 ≡ missing) where
    room-Grown :
        (m' : Mem) (i e : ℕ)
        → i < n_blocks
        → load 8 m (inode_block parent i) ≢ 0
        → free_entry m (load 8 m (inode_block parent i)) entries_per_block 0 ≡ some e
        → Entered m m' parent e name number
        → Grown m parent m' number name
    room-Grown m' i e lt has free new =
        let added = Added-room m' i e number name lt has free new in
        let (k, at, inside, used) = d.block i lt has in
        let b = load 8 m (inode_block parent i) in
        let in_use : b < 2 ^ 31 = omega (arith, at, d.placed.small) in
        let at_before = λ (token : Bytes). slot-block m parent token i b refl has in_use in
        let at_after = λ (token : Bytes). slot-block m' parent token i b added.pointer has in_use in
        let before =
          slot_missing m parent name n_blocks 0 i absent (omega arith) (omega (arith, lt)) in
        let apart : inode_mtim parent + 8 ≤ b = omega (arith, at, d.placed.after) in
        let kept_in_block =
          λ (other : Bytes) (r : Option ℤ) (s : IsString other) (t : length other < max_name)
              (ne : other ≢ name) (nz : r ≢ some (pos 0))
              (q : find_in_block m b other entries_per_block 0 ≡ r).
            find_in_block-other m m' parent b e name number new other entries_per_block 0 r text s
              ne t apart free nz q in
        (
          find_in_directory-new m m' parent i name (pos number) n_blocks 0
              (λ j h ne. slot-Added m' i b e name j added short (omega (arith, h)) ne)
              (at_after name
                ∙ rw
                    (find_in_block-Entered m m' parent b e name number new entries_per_block 0 short
                      apart free (in_block-missing _ (sym (at_before name) ∙ before)))
                    (ap found (signed32-small number small)))
              (omega arith) (omega (arith, lt)) absent,
          λ other x s t ne nz.
              find_in_directory-other m m' parent i other x n_blocks 0
                (λ j h q. slot-Added m' i b e other j added t (omega (arith, h)) q)
                (λ q.
                  at_after other
                  ∙ rw
                      (kept_in_block other (some x) s t ne (λ z. nz (some-inj x (pos 0) z))
                        (in_block-found _ x (sym (at_before other) ∙ q)))
                      refl)
                (λ q. inl (
                  at_after other
                  ∙ rw
                      (kept_in_block other none s t ne (λ z. absurd (cc))
                        (in_block-missing _ (sym (at_before other) ∙ q)))
                      refl)),
        )

    new-Grown :
        (m1 m' : Mem) (i k : ℕ)
        → i < n_blocks
        → load 8 m (inode_block parent i) ≡ 0
        → k < num_data_blocks m
        → is_bitmap_bit_set m (d_bitmap_ptr m) k ≡ false
        → ((a : ℕ) → OffBitmap m a → m1 a ≡ m a)
        → Entered
            (store 8 m1 (inode_block parent i) (d_blocks_ptr m + k * block_size))
            m'
            parent
            (d_blocks_ptr m + k * block_size)
            name
            number
        → Grown m parent m' number name
    new-Grown m1 m' i k lt none_yet inside clear kept new =
        let b = d_blocks_ptr m + k * block_size in
        let added = Added-new m1 m' i k number name lt none_yet inside clear kept new in
        (
          find_in_directory-new m m' parent i name (pos number) n_blocks 0
              (λ j h ne. slot-Added m' i b b name j added short (omega (arith, h)) ne)
              (slot-block m' parent name i b added.pointer
                  (omega (arith, d.placed.bitmap, d.placed.before, d.placed.after))
                  (omega (arith, inside, d.placed.small))
                ∙ rw (find_in_block-first _ m' parent b b name number new)
                    (ap found (signed32-small number small)))
              (omega arith) (omega (arith, lt)) absent,
          λ other x s t ne nz.
              find_in_directory-other m m' parent i other x n_blocks 0
                (λ j h q. slot-Added m' i b b other j added t (omega (arith, h)) q)
                (λ q. absurd (cc (q, slot-unused m parent other i none_yet)))
                (λ q. inr (λ j above h.
                  slot-unused m parent other j (d.dense i j above (omega (arith, h)) none_yet))),
        )

-- How `addDirectoryEntry` ends, and what it leaves alone.
pub added_cases :
    (m : Mem) (parent : ℕ) (name : Bytes) (number now : ℕ) (d : IsDirectory m parent)
    → IsString name
    → All (λ c. c < 256) name
    → length name < max_name
    → number < 2 ^ 31
    → find_in_directory m parent name n_blocks 0 ≡ missing
    → ((add_directory_entry parent name number now m ≡ some (enospc, m)) × NoRoom m parent)
      ⊎ ((m' : Mem) × (add_directory_entry parent name number now m ≡ some (pos 0, m'))
          × Grown m parent m' number name
          × Kept m parent m')
unfolding add_directory_entry
added_cases m parent name number now d text bytes short small absent =
    elim (add_entry_from-Outcome m parent name number now d n_blocks 0 (omega arith)
      (λ j lt. absurd (omega arith))) [
        | full q room ↦ inl (q, room)
        | has_room i e lt has free q ↦
            let (k, at, inside, used) = d.block i lt has in
            let lo =
              (free_entry-within m (load 8 m (inode_block parent i)) entries_per_block 0 e
                free).0 in
            let (m', wrote, new) =
              write_entry-Entered m parent e number now name short bytes small
                (omega (arith, at, lo, d.placed.after)) in
            inr (
              m',
              q ∙ wrote,
              room-Grown m parent d name number short small text absent m' i e lt has free new,
              λ a x y z. new.other a (inl (omega (arith, at, lo))) (omega arith),
            )
        | grows i k m1 lt none_yet inside clear kept q ↦
            let b = d_blocks_ptr m + k * block_size in
            let (m', wrote, new) =
              write_entry-Entered (store 8 m1 (inode_block parent i) b) parent b number now name
                short bytes small (omega (arith, d.placed.after)) in
            inr (
              m',
              q ∙ wrote,
              new-Grown m parent d name number short small text absent m1 m' i k lt none_yet inside
                  clear kept new,
              λ a x y z.
                  new.other a (inl (omega arith)) (omega arith)
                  ∙ store-other 8 m1 (inode_block parent i) b a (omega (arith, lt))
                  ∙ kept a x,
            )
      ]

-- In a directory that does not have the name, which is a string shorter than 28 bytes:
-- `addDirectoryEntry` returns -ENOSPC, as no data block is free or the directory has all its blocks
-- and no free entry, and changes nothing; or it succeeds, and then the lookup in the directory
-- finds the number under the name.
pub find_in_directory-add_directory_entry :
    (m : Mem) (parent : ℕ) (name : Bytes) (number now : ℕ)
    → IsDirectory m parent
    → IsString name
    → All (λ c. c < 256) name
    → length name < max_name
    → number < 2 ^ 31
    → find_in_directory m parent name n_blocks 0 ≡ missing
    → ((add_directory_entry parent name number now m ≡ some (enospc, m)) × NoRoom m parent)
      ⊎ ((m' : Mem) × (add_directory_entry parent name number now m ≡ some (pos 0, m'))
          × (find_in_directory m' parent name n_blocks 0 ≡ found (pos number)))
find_in_directory-add_directory_entry m parent name number now d text bytes short small absent =
    elim (added_cases m parent name number now d text bytes short small absent) [
      | inl q ↦ inl q
      | inr (m', q, (new, others), kept) ↦ inr (m', q, new)
    ]

-- In such a directory, another string shorter than 28 bytes, which stands for an inode other than
-- the root: where `addDirectoryEntry` succeeds, the lookup finds that inode as before.
pub find_in_directory-add_directory_entry_other :
    (m m' : Mem) (parent : ℕ) (name other : Bytes) (number now : ℕ) (x : ℤ)
    → IsDirectory m parent
    → IsString name
    → All (λ c. c < 256) name
    → length name < max_name
    → number < 2 ^ 31
    → find_in_directory m parent name n_blocks 0 ≡ missing
    → IsString other
    → length other < max_name
    → other ≢ name
    → x ≢ pos 0
    → find_in_directory m parent other n_blocks 0 ≡ found x
    → add_directory_entry parent name number now m ≡ some (pos 0, m')
    → find_in_directory m' parent other n_blocks 0 ≡ found x
find_in_directory-add_directory_entry_other m m' parent name other number now x d text bytes short
      small absent s t ne nz before run =
    elim (added_cases m parent name number now d text bytes short small absent) [
      | inl q ↦ absurd (cc (q.0, run))
      | inr (m2, q, (new, others), kept) ↦
          let e : some (pos 0, m2) ≡ some (pos 0, m') = sym q ∙ run in
          let same : m2 ≡ m' = ground (arith, e) in rw same at (others other x s t ne nz before)
    ]
