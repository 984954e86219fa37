-- ===== src/Wfs/Directory/Create.antt =====
-- `createNewEntry` of cs537/P7/wfs.c from the path to the entry in the parent's directory.
use schoolwork.Common.{
  ℕ, ◌+◌, ◌*◌, ◌/◌, ◌^◌, ◌≤◌, ◌<◌, bit_and, ◌≡◌, refl, ap, ◌∙◌, ◌≢◌, ◌⊎◌, inl, inr, true, false,
  Option, some, arith, ◌==◌, if◌then◌else◌, length, All,
}
use schoolwork.Common.Bytes.{Bytes}
use schoolwork.Common.Int.{ℤ, pos, negsuc, unsigned, eq_ℤ}
use schoolwork.Wfs.Memory.{Mem, load, ◌>>=◌, ◌>>◌}
use schoolwork.Wfs.Memory.Frames.{load-agree}
use schoolwork.Wfs.Layout.{
  max_name, n_blocks, block_size, inode_mode, inode_size, inode_nlinks, s_iwusr, enospc, num_inodes,
  i_bitmap_ptr, d_bitmap_ptr, d_blocks_ptr, num_data_blocks, get_inode_by_number,
}
use schoolwork.Wfs.Bitmap.{is_bitmap_bit_set, get_empty_inode}
use schoolwork.Wfs.Bitmap.Allocation.{AllUsed, get_empty_inode_cases, IsFirstFree, Marked}
use schoolwork.Wfs.Path.{found, missing, find_in_directory, split_last_slash, path2inode}
use schoolwork.Wfs.Directory.{Context, init_inode, add_directory_entry, create_in, create_new_entry}
use schoolwork.Wfs.Directory.Entry.{IsString}
use schoolwork.Wfs.Directory.Room.{IsDirectory, NoRoom}
use schoolwork.Wfs.Directory.Created.{Kept, added_cases}
use schoolwork.Wfs.Directory.Inode.{
  IsLaidOut, inode_at, get_inode_by_number-pos, pos-ne-negsuc, is_set-agree, NoRoom-agree,
  Initialised, init_inode-Initialised, Read, word, find_in_directory-agree, IsDirectory-agree,
  get_empty_inode-other,
}

-- The inode `i` was the first free one, and is in use now.
abbrev pub Taken : Mem → Mem → ℕ → Type 0
Taken m m' i =
    IsFirstFree m (i_bitmap_ptr m) (num_inodes m) i
    × (is_bitmap_bit_set m' (i_bitmap_ptr m) i ≡ true)

-- How `createNewEntry` may end in a directory that does not have the name: there is no inode;
-- there is no room for the entry; the entry leads to a new inode.
pub data Creation (m : Mem) (parent : ℕ) (name : Bytes) (mode : ℕ) (r : Option (ℤ × Mem))
    : Type 0 where
  no_inode :
      r ≡ some (enospc, m)
      → AllUsed m (i_bitmap_ptr m) (num_inodes m)
      → Creation m parent name mode r
  no_room :
      (i : ℕ) (m' : Mem)
      → r ≡ some (enospc, m')
      → Taken m m' i
      → find_in_directory m' parent name n_blocks 0 ≡ missing
      → NoRoom m parent
      → Creation m parent name mode r
  created :
      (i : ℕ) (m' : Mem)
      → r ≡ some (pos 0, m')
      → Taken m m' i
      → find_in_directory m' parent name n_blocks 0 ≡ found (pos i)
      → load 4 m' (inode_at m i) ≡ i
      → load 4 m' (inode_mode (inode_at m i)) ≡ mode
      → load 4 m' (inode_nlinks (inode_at m i)) ≡ 1
      → load 8 m' (inode_size (inode_at m i)) ≡ 0
      → ((a : ℕ) → a + 8 ≤ 48 → load 8 m' a ≡ load 8 m a)
      → Creation m parent name mode r

unsigned32-pos : (n : ℕ) → n < 2 ^ 32 → unsigned 32 (pos n) ≡ n
unsigned32-pos n h = omega arith

-- `createNewEntry` in a writable directory, with what its callees return.
module _ (c : Context) (m : Mem) (p mode : ℕ) (name : Bytes) (is_int : p < 2 ^ 22)
    (writable : (bit_and (load 4 m (inode_mode (inode_at m p))) s_iwusr == 0) ≡ false) where
  create_in-no_inode :
      (get_empty_inode m).0 ≡ negsuc 0
      → (get_empty_inode m).1 ≡ m
      → create_in c (pos p) name mode m ≡ some (enospc, m)
  unfolding create_in
  create_in-no_inode got unchanged =
      rw (pos-ne-negsuc p, ◌>>=◌)
        (rw (get_inode_by_number-pos m p is_int, ◌>>=◌)
          (rw (writable, ◌>>=◌) (rw (got, unchanged) refl)))

  create_in-add :
      (i : ℕ) (m2 m3 : Mem) (r : ℤ)
      → (get_empty_inode m).0 ≡ pos i
      → i < 2 ^ 32
      → get_inode_by_number (get_empty_inode m).1 (pos i) ≡ some (inode_at m i)
      → init_inode c (inode_at m i) i mode (get_empty_inode m).1 ≡ some (tt, m2)
      → add_directory_entry (inode_at m p) name i c.now m2 ≡ some (r, m3)
      → create_in c (pos p) name mode m ≡ some ((if eq_ℤ r (pos 0) then pos 0 else enospc), m3)
  unfolding create_in
  create_in-add i m2 m3 r got fits at wrote added =
      rw (pos-ne-negsuc p, ◌>>=◌)
        (rw (get_inode_by_number-pos m p is_int, ◌>>=◌)
          (rw (writable, ◌>>=◌)
            (rw (got, pos-ne-negsuc i)
              (rw (at, unsigned32-pos i fits, ◌>>◌, ◌>>=◌)
                (rw (wrote, ◌>>=◌)
                  (rw (unsigned32-pos i fits, ◌>>=◌) (rw added (ground arith))))))))

module _ (c : Context) (m : Mem) (p mode : ℕ) (name : Bytes) (laid : IsLaidOut m)
    (d : IsDirectory m (inode_at m p)) (is_inode : p < num_inodes m)
    (in_use : is_bitmap_bit_set m (i_bitmap_ptr m) p ≡ true)
    (writable : (bit_and (load 4 m (inode_mode (inode_at m p))) s_iwusr == 0) ≡ false)
    (text : IsString name) (bytes : All (λ b. b < 256) name) (short : length name < max_name)
    (mode_fits : mode < 2 ^ 32)
    (absent : find_in_directory m (inode_at m p) name n_blocks 0 ≡ missing) where
  m1 : Mem
  m1 = (get_empty_inode m).1

  -- With the first free inode taken and initialised.
  module _ (i : ℕ) (m2 : Mem) (first : IsFirstFree m (i_bitmap_ptr m) (num_inodes m) i)
      (marked : Marked m m1 (i_bitmap_ptr m) i)
      (init : Initialised m1 m2 (inode_at m i) i mode) where
    other_inode : i ≢ p
    other_inode e =
        let clear : is_bitmap_bit_set m (i_bitmap_ptr m) p ≡ false = rw (← e) first.free in
        absurd (cc (clear, in_use))

    same : (a : ℕ) → Read m (inode_at m p) a → m2 a ≡ m a
    unfolding m1
    same a h =
        init.other a (
          omega (
            arith, other_inode, d.placed.before, laid.d_blocks, laid.i_bitmap, laid.d_bitmap,
            laid.i_blocks, first.below,
          ))
        ∙ get_empty_inode-other m a
            (omega (arith, laid.i_bitmap, laid.d_bitmap, laid.i_blocks, laid.d_blocks))

    bit_set : is_bitmap_bit_set m2 (i_bitmap_ptr m) i ≡ true
    bit_set =
        is_set-agree m1 m2 (i_bitmap_ptr m) i (
          init.other (i_bitmap_ptr m + i / 8)
            (inl (omega (arith, laid.d_bitmap, laid.i_blocks, first.below))))
        ∙ marked i
        ∙ ground arith

    -- What the addition of the entry leaves of the new inode.
    module _ (m3 : Mem) (kept : Kept m2 (inode_at m p) m3) where
      kept_below :
          (a : ℕ)
          → (a < d_bitmap_ptr m) ⊎ (d_bitmap_ptr m + (num_data_blocks m + 7) / 8 ≤ a)
          → (a < inode_at m p) ⊎ (inode_at m p + 120 ≤ a)
          → a < d_blocks_ptr m
          → m3 a ≡ m2 a
      kept_below a x y z =
          let w = word m m2 (inode_at m p) d same in
          kept a (rw (w 24 (omega arith), w 8 (omega arith)) x) y (rw (w 40 (omega arith)) z)

      field : (n o : ℕ) → o + n ≤ 56 → load n m3 (inode_at m i + o) ≡ load n m2 (inode_at m i + o)
      field n o h = load-agree n m3 m2 (inode_at m i + o) (λ a x y.
          kept_below a (inr (omega (arith, laid.i_blocks))) (omega (arith, other_inode))
            (omega (arith, first.below, laid.d_blocks)))

      still_set : is_bitmap_bit_set m3 (i_bitmap_ptr m) i ≡ true
      still_set =
          is_set-agree m2 m3 (i_bitmap_ptr m) i (
            kept_below (i_bitmap_ptr m + i / 8) (inl (omega (arith, first.below, laid.d_bitmap)))
              (inl (omega (arith, first.below, laid.d_bitmap, laid.i_blocks)))
              (omega (arith, first.below, laid.d_bitmap, laid.i_blocks, laid.d_blocks)))
          ∙ bit_set

  pub create_in-Creation : Creation m (inode_at m p) name mode (create_in c (pos p) name mode m)
  unfolding m1
  create_in-Creation = elim (get_empty_inode_cases m laid.image laid.small) [
    | inr (none_left, unchanged, all_used) ↦
        no_inode
          (create_in-no_inode c m p mode name (omega (arith, d.placed.after, d.placed.small))
            writable none_left unchanged)
          all_used
    | inl (i, got, first, marked) ↦
        let fits : i < 2 ^ 32 = omega (arith, first.below, laid.small) in
        let (m2, wrote, init) = init_inode-Initialised c m1 (inode_at m i) i mode fits mode_fits in
        let at : get_inode_by_number m1 (pos i) ≡ some (inode_at m i) =
          get_inode_by_number-pos m1 i
            (omega (arith, first.below, laid.d_blocks, d.placed.after, d.placed.small))
          ∙ ap (λ b. some (b + i * block_size))
              (load-agree 8 m1 m 32
                (λ b x y. get_empty_inode-other m b (inl (omega (arith, laid.i_bitmap))))) in
        let agree = same i m2 first marked init in
        let d2 = IsDirectory-agree m m2 (inode_at m p) d agree in
        let absent2 =
          find_in_directory-agree m m2 (inode_at m p) d agree name n_blocks 0 short (omega arith)
          ∙ absent in
        elim (added_cases m2 (inode_at m p) name i c.now d2 text bytes short
          (omega (arith, first.below, laid.small)) absent2) [
            | inl (q, room) ↦
                no_room i m2
                  (create_in-add c m p mode name (omega (arith, d.placed.after, d.placed.small))
                    writable i m2 m2 enospc got fits at wrote q)
                  (first, bit_set i m2 first marked init) absent2
                  (NoRoom-agree m m2 (inode_at m p) d agree room)
            | inr (m3, q, grown, kept) ↦
                let start : inode_at m i + 0 ≡ inode_at m i = omega arith in
                let f = field i m2 first marked init m3 kept in
                created i m3
                  (create_in-add c m p mode name (omega (arith, d.placed.after, d.placed.small))
                    writable i m2 m3 (pos 0) got fits at wrote q)
                  (first, still_set i m2 first marked init m3 kept) grown.0
                  (rw start at (f 4 0 (omega arith)) ∙ init.numbered)
                  (f 4 4 (omega arith) ∙ init.mode_set) (f 4 24 (omega arith) ∙ init.links)
                  (f 8 16 (omega arith) ∙ init.empty)
                  (λ a h. load-agree 8 m3 m a λ b x y.
                    kept_below i m2 first marked init m3 kept b
                      (inl (omega (arith, d.placed.bitmap)))
                      (inl (omega (arith, d.placed.bitmap, d.placed.before)))
                      (omega (arith, d.placed.bitmap, d.placed.before, d.placed.after))
                    ∙ agree b (inl (omega arith)))
          ]
  ]

create_new_entry-create_in :
    (c : Context) (m : Mem) (path dir name : Bytes) (p mode : ℕ)
    → split_last_slash path ≡ some (dir, name)
    → path2inode m dir ≡ some (pos p)
    → create_new_entry c path mode m ≡ create_in c (pos p) name mode m
unfolding create_new_entry
create_new_entry-create_in c m path dir name p mode cut at =
    rw (cut, create_new_entry) (rw (at, ◌>>=◌) refl)

-- A path behind whose last slash stands a name of less than 28 bytes, in a writable directory, in
-- use, that does not have the name, on an image laid out as by `mkfs`: `createNewEntry` returns
-- -ENOSPC because no inode is free, and nothing changes; or -ENOSPC because no data block is free
-- or the directory has all its blocks and no free entry, and then the inode that was free is left
-- marked in use with no entry for it; or 0, and then the lookup of the name in the directory finds
-- the inode that was the first free one, now in use, with the mode, one link and no bytes.
pub create_new_entry-Creation :
    (c : Context) (m : Mem) (path dir name : Bytes) (p mode : ℕ)
    → split_last_slash path ≡ some (dir, name)
    → path2inode m dir ≡ some (pos p)
    → IsLaidOut m
    → IsDirectory m (inode_at m p)
    → p < num_inodes m
    → is_bitmap_bit_set m (i_bitmap_ptr m) p ≡ true
    → (bit_and (load 4 m (inode_mode (inode_at m p))) s_iwusr == 0) ≡ false
    → IsString name
    → All (λ b. b < 256) name
    → length name < max_name
    → mode < 2 ^ 32
    → find_in_directory m (inode_at m p) name n_blocks 0 ≡ missing
    → Creation m (inode_at m p) name mode (create_new_entry c path mode m)
create_new_entry-Creation c m path dir name p mode cut at laid d is_inode in_use writable text bytes
      short fits absent =
    rw (create_new_entry-create_in c m path dir name p mode cut at) (
      create_in-Creation c m p mode name laid d is_inode in_use writable text bytes short fits
        absent)
