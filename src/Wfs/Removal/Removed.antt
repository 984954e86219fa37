-- ===== src/Wfs/Removal/Removed.antt =====
-- What a lookup in a directory finds after `removeDirectoryEntry` of cs537/P7/wfs.c.
use schoolwork.Common.{
  ℕ, zero, suc, ◌+◌, ◌^◌, ◌≤◌, ◌<◌, bit_and, ◌≡◌, refl, sym, ap, ◌∙◌, ◌≢◌, inl, inr, false, none,
  some, [], arith, ◌==◌, Bool-cases, length,
}
use native.Mathlib.Decide.{ℕ_discrete}
use schoolwork.Common.Bytes.{Bytes}
use schoolwork.Common.Int.{pos}
use schoolwork.Wfs.Memory.{Mem, load, str_eq_at, ◌>>=◌}
use schoolwork.Wfs.Layout.{
  max_name, n_blocks, d_block, entries_per_block, inode_block, inode_mode, entry, s_iwusr,
}
use schoolwork.Wfs.Path.{missing, find_in_block, find_in_directory, split_last_slash, path2inode}
use schoolwork.Wfs.Directory.Entry.{IsString}
use schoolwork.Wfs.Directory.Room.{IsDirectory, Added, get_directory_entry-small}
use schoolwork.Wfs.Directory.Found.{slot, in_block, slot-unused, slot-block, find_in_directory-slot}
use schoolwork.Wfs.Directory.Created.{slot-Added}
use schoolwork.Wfs.Directory.Inode.{inode_at, get_inode_by_number-pos, pos-ne-negsuc}
use schoolwork.Wfs.Removal.{remove_entry_from, remove_directory_entry}
use schoolwork.Wfs.Removal.Entry.{
  IsOnly, without, find_in_block-none, find_used_entry-none, find_used_entry-only,
  find_in_block-without, find_in_block-without_other, Added-without,
}

find_in_directory-missing :
    (m : Mem) (parent : ℕ) (token : Bytes) (n i : ℕ)
    → ((k : ℕ) → k < i + n → slot m parent token k ≡ missing)
    → find_in_directory m parent token n i ≡ missing
find_in_directory-missing m parent token zero i h = unfold find_in_directory in refl
find_in_directory-missing m parent token (suc n) i h =
    find_in_directory-slot m parent token n i
    ∙ rw (h i (omega arith))
        (find_in_directory-missing m parent token n (i + 1) (λ k x. h k (omega arith)))

find_in_directory-same :
    (m m' : Mem) (parent : ℕ) (token : Bytes) (n i : ℕ)
    → ((k : ℕ) → k < i + n → slot m' parent token k ≡ slot m parent token k)
    → find_in_directory m' parent token n i ≡ find_in_directory m parent token n i
find_in_directory-same m m' parent token zero i h = unfold find_in_directory in refl
find_in_directory-same m m' parent token (suc n) i h =
    find_in_directory-slot m' parent token n i
    ∙ rw
        (
          h i (omega arith),
          find_in_directory-same m m' parent token n (i + 1) (λ k x. h k (omega arith)),
        )
        refl
    ∙ sym (find_in_directory-slot m parent token n i)

module _ (m : Mem) (parent : ℕ) (name : Bytes) (i j : ℕ) (d : IsDirectory m parent)
    (o : IsOnly m parent name i j) (text : IsString name) (short : length name < max_name)
    (nonempty : name ≢ []) where
  b : ℕ
  b = load 8 m (inode_block parent i)

  in_use :
      (l : ℕ)
      → l < n_blocks
      → load 8 m (inode_block parent l) ≢ 0
      → load 8 m (inode_block parent l) < 2 ^ 31
  in_use l lt has =
      let (k, at, inside, used) = d.block l lt has in omega (arith, at, inside, d.placed.small)

  -- A block without the name is passed over, and the entry is found in its block.
  remove_entry_from-only :
      (n k : ℕ)
      → k ≤ i
      → i < k + n
      → remove_entry_from parent name n k m ≡ some (pos 0, without m (entry b j))
  unfolding remove_entry_from b
  remove_entry_from-only zero k lo hi = absurd (omega arith)
  remove_entry_from-only (suc n) k lo hi = elim (ℕ_discrete k i) [
    | yes here ↦
        let found_there =
          find_used_entry-only m (load 8 m (inode_block parent i)) name j entries_per_block 0
            (omega arith) o.within o.named o.used
            (λ l lt e. (o.only i l o.index lt o.used_block e).1) (omega arith) in
        rw here (
          rw
            (
              get_directory_entry-small (load 8 m (inode_block parent i))
                  (in_use i o.index o.used_block),
              remove_entry_from,
            )
            (rw found_there refl))
    | no away ↦
        let has : load 8 m (inode_block parent k) ≢ 0 =
          λ z. o.used_block (d.dense k i (omega (arith, away)) o.index z) in
        let not_there =
          find_used_entry-none m (load 8 m (inode_block parent k)) name entries_per_block 0 λ l x y.
            elim (Bool-cases (str_eq_at m (entry (load 8 m (inode_block parent k)) l) name)) [
              | inl also ↦ absurd (away (o.only k l (omega (arith, o.index)) y has also).0)
              | inr not_here ↦ not_here
            ] in
        rw
          (
            get_directory_entry-small (load 8 m (inode_block parent k))
                (in_use k (omega (arith, o.index)) has),
            remove_entry_from,
          )
          (rw not_there (remove_entry_from-only n (k + 1) (omega (arith, away)) (omega arith)))
  ]

  removed : Mem
  removed = without m (entry b j)

  added : Added m removed parent i b (entry b j)
  unfolding removed b
  added = Added-without m parent name i j d o

  name_missing : find_in_directory removed parent name n_blocks 0 ≡ missing
  unfolding removed b
  name_missing = find_in_directory-missing removed parent name n_blocks 0 (λ k lt.
      elim (ℕ_discrete k i) [
        | yes here ↦
            let block : find_in_block removed b name entries_per_block 0 ≡ none =
              find_in_block-without m b name j o.within short nonempty text
                (λ l x e. (o.only i l o.index x o.used_block e).1) in
            rw here (
              slot-block removed parent name i b added.pointer o.used_block
                (in_use i o.index o.used_block)
              ∙ ap in_block block)
        | no away ↦
            slot-Added m parent d removed i b (entry b j) name k added short (omega (arith, lt))
              away
            ∙ elim (ℕ_discrete (load 8 m (inode_block parent k)) 0) [
              | yes unused ↦ slot-unused m parent name k unused
              | no has ↦
                  slot-block m parent name k (load 8 m (inode_block parent k)) refl has
                    (in_use k (omega (arith, lt)) has)
                  ∙ ap in_block (
                      find_in_block-none m (load 8 m (inode_block parent k)) name entries_per_block
                        0
                        λ l x y.
                          elim (Bool-cases
                            (str_eq_at m (entry (load 8 m (inode_block parent k)) l) name)) [
                              | inl also ↦
                                  absurd (away (o.only k l (omega (arith, lt)) y has also).0)
                              | inr not_here ↦ not_here
                            ])
            ]
      ])

  others_same :
      (other : Bytes)
      → IsString other
      → length other < max_name
      → other ≢ name
      → other ≢ []
      → find_in_directory removed parent other n_blocks 0
        ≡ find_in_directory m parent other n_blocks 0
  unfolding removed b
  others_same other s t ne full = find_in_directory-same m removed parent other n_blocks 0 (λ k lt.
      elim (ℕ_discrete k i) [
        | yes here ↦ rw here (
            slot-block removed parent other i b added.pointer o.used_block
              (in_use i o.index o.used_block)
            ∙ ap in_block (
                find_in_block-without_other m b name other j entries_per_block 0 o.named text s t ne
                  full)
            ∙ sym (slot-block m parent other i b refl o.used_block (in_use i o.index o.used_block)))
        | no away ↦
            slot-Added m parent d removed i b (entry b j) other k added t (omega (arith, lt)) away
      ])

  pub remove_entry_from_lem :
      i < d_block
      → (m' : Mem) × (remove_entry_from parent name d_block 0 m ≡ some (pos 0, m'))
        × (find_in_directory m' parent name n_blocks 0 ≡ missing)
        × ((other : Bytes)
            → IsString other
            → length other < max_name
            → other ≢ name
            → other ≢ []
            → find_in_directory m' parent other n_blocks 0
              ≡ find_in_directory m parent other n_blocks 0)
  unfolding removed
  remove_entry_from_lem near =
      (removed, remove_entry_from-only d_block 0 (omega arith) near, name_missing, others_same)

remove_directory_entry-in :
    (m : Mem) (path dir name : Bytes) (p : ℕ)
    → split_last_slash path ≡ some (dir, name)
    → path2inode m dir ≡ some (pos p)
    → p < 2 ^ 22
    → (bit_and (load 4 m (inode_mode (inode_at m p))) s_iwusr == 0) ≡ false
    → remove_directory_entry path m ≡ remove_entry_from (inode_at m p) name d_block 0 m
unfolding remove_directory_entry
remove_directory_entry-in m path dir name p cut at is_int writable =
    rw (cut, remove_directory_entry)
      (rw (at, ◌>>=◌)
        (rw (pos-ne-negsuc p, ◌>>=◌) (rw (get_inode_by_number-pos m p, ◌>>=◌) (rw writable refl))))

-- The path of an entry in a writable directory that has no other entry of the name, in one of its
-- first six blocks: `removeDirectoryEntry` succeeds, the lookup in the directory does not find the
-- name any more, and any other name that is not empty it finds, or misses, as before.
pub find_in_directory-remove_directory_entry :
    (m : Mem) (path dir name other : Bytes) (p i j : ℕ)
    → split_last_slash path ≡ some (dir, name)
    → path2inode m dir ≡ some (pos p)
    → (bit_and (load 4 m (inode_mode (inode_at m p))) s_iwusr == 0) ≡ false
    → IsDirectory m (inode_at m p)
    → IsOnly m (inode_at m p) name i j
    → i < d_block
    → IsString name
    → length name < max_name
    → name ≢ []
    → IsString other
    → length other < max_name
    → other ≢ name
    → other ≢ []
    → (m' : Mem) × (remove_directory_entry path m ≡ some (pos 0, m'))
      × (find_in_directory m' (inode_at m p) name n_blocks 0 ≡ missing)
      × (find_in_directory m' (inode_at m p) other n_blocks 0
          ≡ find_in_directory m (inode_at m p) other n_blocks 0)
find_in_directory-remove_directory_entry m path dir name other p i j cut at writable d o near text
      short nonempty s t ne full =
    let (m', run, gone, others) =
      remove_entry_from_lem m (inode_at m p) name i j d o text short nonempty near in
    (
      m',
      remove_directory_entry-in m path dir name p cut at
            (omega (arith, d.placed.after, d.placed.small)) writable
          ∙ run,
      gone,
      others other s t ne full,
    )
