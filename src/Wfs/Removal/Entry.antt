-- ===== src/Wfs/Removal/Entry.antt =====
-- What `removeDirectoryEntry` of cs537/P7/wfs.c takes out of a block of a directory.
use schoolwork.Common.{
  ℕ, zero, suc, ◌+◌, ◌≤◌, ◌<◌, ◌≡◌, refl, sym, ◌∙◌, ◌≢◌, ◌⊎◌, inl, inr, true, false, none, some, [],
  ◌∷◌, arith, ◌==◌, Bool-cases, length,
}
use native.Mathlib.Decide.{ℕ_discrete}
use schoolwork.Common.Bytes.{Bytes}
use schoolwork.Wfs.Memory.{Mem, load, store, clear, str_eq_at}
use schoolwork.Wfs.Memory.Frames.{load-agree, store-other, clear-inside, clear-outside}
use schoolwork.Wfs.Layout.{max_name, n_blocks, entries_per_block, inode_block, entry, entry_num}
use schoolwork.Wfs.Path.{find_in_block}
use schoolwork.Wfs.Directory.Entry.{IsString, str_eq_at-agree, str_eq_at-inj}
use schoolwork.Wfs.Directory.Room.{IsDirectory, Added}
use schoolwork.Wfs.Removal.{find_used_entry}

-- The only entry of the directory with the name is number `j` of block `i`, and it is in use.
pub record IsOnly (m : Mem) (parent : ℕ) (name : Bytes) (i j : ℕ) : Type 0 where
  pub index : i < n_blocks
  pub within : j < entries_per_block
  pub used_block : load 8 m (inode_block parent i) ≢ 0
  pub named : str_eq_at m (entry (load 8 m (inode_block parent i)) j) name ≡ true
  pub used : (load 4 m (entry_num (load 8 m (inode_block parent i)) j) == 0) ≡ false
  pub only :
      (l k : ℕ)
      → l < n_blocks
      → k < entries_per_block
      → load 8 m (inode_block parent l) ≢ 0
      → str_eq_at m (entry (load 8 m (inode_block parent l)) k) name ≡ true
      → (l ≡ i) × (k ≡ j)

-- The image without the entry at `e`.
abbrev pub without : Mem → ℕ → Mem
without m e = clear (store 4 m (e + 28) 0) e max_name

pub without-other : (m : Mem) (e a : ℕ) → (a < e) ⊎ (e + 32 ≤ a) → without m e a ≡ m a
without-other m e a h =
    clear-outside (store 4 m (e + 28) 0) e max_name a (omega arith)
    ∙ store-other 4 m (e + 28) 0 a (omega arith)

-- The name at the entry is empty.
unnamed : (m : Mem) (e : ℕ) (t : Bytes) → t ≢ [] → IsString t → str_eq_at (without m e) e t ≡ false
unfolding str_eq_at
unnamed m e [] ne s = absurd (ne refl)
unnamed m e (c ∷ t) ne s =
    let zero_byte : without m e e ≡ 0 =
      clear-inside (store 4 m (e + 28) 0) e max_name e (omega arith) (omega arith) in
    let differs : (without m e e == c) ≡ false = ground (arith, zero_byte, s.0) in rw differs refl

pub find_in_block-none :
    (m : Mem) (b : ℕ) (name : Bytes) (n k : ℕ)
    → ((l : ℕ) → k ≤ l → l < k + n → str_eq_at m (entry b l) name ≡ false)
    → find_in_block m b name n k ≡ none
unfolding find_in_block
find_in_block-none m b name zero k h = refl
find_in_block-none m b name (suc n) k h =
    rw (h k (omega arith) (omega arith))
      (find_in_block-none m b name n (k + 1) (λ l x y. h l (omega arith) (omega arith)))

pub find_used_entry-none :
    (m : Mem) (b : ℕ) (name : Bytes) (n k : ℕ)
    → ((l : ℕ) → k ≤ l → l < k + n → str_eq_at m (entry b l) name ≡ false)
    → find_used_entry m b name n k ≡ none
unfolding find_used_entry
find_used_entry-none m b name zero k h = refl
find_used_entry-none m b name (suc n) k h = ground (
  arith,
  h k (omega arith) (omega arith),
  find_used_entry-none m b name n (k + 1) (λ l x y. h l (omega arith) (omega arith)),
)

pub find_used_entry-only :
    (m : Mem) (b : ℕ) (name : Bytes) (j n k : ℕ)
    → k ≤ j
    → j < k + n
    → str_eq_at m (entry b j) name ≡ true
    → (load 4 m (entry_num b j) == 0) ≡ false
    → ((l : ℕ) → l < entries_per_block → str_eq_at m (entry b l) name ≡ true → l ≡ j)
    → k + n ≤ entries_per_block
    → find_used_entry m b name n k ≡ some (entry b j)
unfolding find_used_entry
find_used_entry-only m b name j zero k lo hi named used only fits = absurd (omega arith)
find_used_entry-only m b name j (suc n) k lo hi named used only fits = elim (ℕ_discrete k j) [
  | yes here ↦ rw (here, named, used) refl
  | no away ↦ elim (Bool-cases (str_eq_at m (entry b k) name)) [
    | inl also ↦ absurd (away (only k (omega arith) also))
    | inr not_here ↦ ground (
      arith,
      not_here,
      find_used_entry-only m b name j n (k + 1) (omega (arith, away)) (omega arith) named used only
          (omega arith),
    )
  ]
]

-- In the block of the entry: the name is not found any more.
pub find_in_block-without :
    (m : Mem) (b : ℕ) (name : Bytes) (j : ℕ)
    → j < entries_per_block
    → length name < max_name
    → name ≢ []
    → IsString name
    → ((l : ℕ) → l < entries_per_block → str_eq_at m (entry b l) name ≡ true → l ≡ j)
    → find_in_block (without m (entry b j)) b name entries_per_block 0 ≡ none
find_in_block-without m b name j lt short ne text only =
    find_in_block-none (without m (entry b j)) b name entries_per_block 0 λ l x y.
      elim (ℕ_discrete l j) [
        | yes here ↦ rw here (unnamed m (entry b j) name ne text)
        | no away ↦
            str_eq_at-agree m (without m (entry b j)) (entry b l) name
              (λ a p q. without-other m (entry b j) a (omega (arith, away)))
            ∙ elim (Bool-cases (str_eq_at m (entry b l) name)) [
              | inl also ↦ absurd (away (only l (omega arith) also))
              | inr not_here ↦ not_here
            ]
      ]

-- Every other name is found as before.
pub find_in_block-without_other :
    (m : Mem) (b : ℕ) (name other : Bytes) (j n k : ℕ)
    → str_eq_at m (entry b j) name ≡ true
    → IsString name
    → IsString other
    → length other < max_name
    → other ≢ name
    → other ≢ []
    → find_in_block (without m (entry b j)) b other n k ≡ find_in_block m b other n k
unfolding find_in_block
find_in_block-without_other m b name other j zero k named s t short ne full = refl
find_in_block-without_other m b name other j (suc n) k named s t short ne full =
    let rest = find_in_block-without_other m b name other j n (k + 1) named s t short ne full in
    elim (ℕ_discrete k j) [
      | yes here ↦
          let after : str_eq_at (without m (entry b j)) (entry b k) other ≡ false =
            rw here (unnamed m (entry b j) other full t) in
          let before : str_eq_at m (entry b k) other ≡ false =
            elim (Bool-cases (str_eq_at m (entry b k) other)) [
              | inl also ↦
                  absurd (ne (str_eq_at-inj m (entry b j) other name t s (rw here at also) named))
              | inr not_here ↦ not_here
            ] in
          rw (after, before) rest
      | no away ↦
          rw
            (
              str_eq_at-agree m (without m (entry b j)) (entry b k) other
                  (λ a p q. without-other m (entry b j) a (omega (arith, away))),
              load-agree 4 (without m (entry b j)) m (entry_num b k)
                  (λ a p q. without-other m (entry b j) a (omega (arith, away))),
              rest,
            )
            refl
    ]

-- Only the entry changes.
pub Added-without :
    (m : Mem) (parent : ℕ) (name : Bytes) (i j : ℕ)
    → IsDirectory m parent
    → IsOnly m parent name i j
    → Added m
        (without m (entry (load 8 m (inode_block parent i)) j))
        parent
        i
        (load 8 m (inode_block parent i))
        (entry (load 8 m (inode_block parent i)) j)
Added-without m parent name i j d o =
    let b = load 8 m (inode_block parent i) in
    let (k, at, inside, used) = d.block i o.index o.used_block in
    let same : (l : ℕ)
        → l < n_blocks
        → load 8 (without m (entry b j)) (inode_block parent l) ≡ load 8 m (inode_block parent l) =
      λ l h.
        load-agree 8 (without m (entry b j)) m (inode_block parent l)
          (λ a x y. without-other m (entry b j) a (inl (omega (arith, at, d.placed.after)))) in
    record {
      index = o.index;
      pointer = same i o.index;
      pointers = λ l h _. same l h;
      contents = λ a h x. without-other m (entry b j) a x;
      low = omega arith;
      high = omega (arith, o.within);
      number = k;
      aligned = at;
      within = inside;
      unique = λ l h ne q. d.apart i l o.index h (λ r. ne (sym r)) o.used_block (sym q);
    }
