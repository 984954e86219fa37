-- ===== src/Wfs/Directory/Entry.antt =====
-- What `addDirectoryEntry` of cs537/P7/wfs.c writes into an entry, and what a search of the block
-- finds afterwards.
use schoolwork.Common.{
  ℕ, zero, suc, ◌+◌, ◌^◌, ◌≤◌, ◌<◌, ◌≡◌, refl, sym, ap, ◌∙◌, ◌≢◌, ◌⊎◌, inl, inr, true, false,
  Option, none, some, List, [], ◌∷◌, ◌++◌, arith, leb, ◌==◌, Bool-cases, length, take,
  length-append, All,
}
use schoolwork.Common.Bytes.{Bytes}
use schoolwork.Common.Int.{ℤ, pos, signed32}
use schoolwork.Wfs.Memory.{Mem, load, store, write_byte, write_bytes, str_eq_at, ◌>>=◌}
use schoolwork.Wfs.Memory.Frames.{
  load-store, load-store_apart, load-agree, store-other, write_bytes-other,
}
use schoolwork.Wfs.Layout.{max_name, entries_per_block, inode_mtim, entry, entry_num}
use schoolwork.Wfs.Path.{find_in_block}
use schoolwork.Wfs.Directory.{write_entry, free_entry}

-- A string that ends with its first NUL byte.
abbrev pub IsString : Bytes → Type 0
IsString = All (λ c. c ≢ 0)

pub str_eq_at-agree :
    (m m' : Mem) (a : ℕ) (s : Bytes)
    → ((b : ℕ) → a ≤ b → b ≤ a + length s → m' b ≡ m b)
    → str_eq_at m' a s ≡ str_eq_at m a s
unfolding str_eq_at
str_eq_at-agree m m' a [] h = rw (h a (omega arith) (omega arith)) refl
str_eq_at-agree m m' a (c ∷ s) h =
    rw
      (
        h a (omega arith) (omega arith),
        str_eq_at-agree m m' (a + 1) s (λ b x y. h b (omega arith) (omega arith)),
      )
      refl

-- A string that was copied in with its NUL byte stands there.
str_eq_at-write_bytes :
    (m : Mem) (a : ℕ) (s : Bytes)
    → All (λ c. c < 256) s
    → str_eq_at (write_bytes m a (s ++ (0 ∷ []))) a s ≡ true
unfolding str_eq_at write_bytes write_byte
str_eq_at-write_bytes m a [] h = ground arith
str_eq_at-write_bytes m a (c ∷ s) h =
    let first : write_bytes (write_byte m a c) (a + 1) (s ++ (0 ∷ [])) a ≡ c =
      write_bytes-other (write_byte m a c) (a + 1) (s ++ (0 ∷ [])) a (inl (omega arith))
      ∙ (unfold write_byte in ground (arith, h.0)) in
    ground (arith, first, str_eq_at-write_bytes (write_byte m a c) (a + 1) s h.1)

-- Two strings at one address are the same.
pub str_eq_at-inj :
    (m : Mem) (a : ℕ) (s t : Bytes)
    → IsString s
    → IsString t
    → str_eq_at m a s ≡ true
    → str_eq_at m a t ≡ true
    → s ≡ t
unfolding str_eq_at
str_eq_at-inj m a [] [] h k x y = refl
str_eq_at-inj m a [] (d ∷ t) h k x y = absurd (ground (arith, k.0))
str_eq_at-inj m a (c ∷ s) [] h k x y = absurd (ground (arith, h.0))
str_eq_at-inj m a (c ∷ s) (d ∷ t) h k x y = ground (arith, str_eq_at-inj m (a + 1) s t h.1 k.1)

take-short {ℓ} : {A : Type ℓ} (n : ℕ) (xs : List A) → length xs ≤ n → take n xs ≡ xs
take-short zero [] h = refl
take-short zero (x ∷ xs) h = absurd (omega arith)
take-short (suc n) [] h = refl
take-short (suc n) (x ∷ xs) h = ap (λ ys. x ∷ ys) (take-short n xs (omega arith))

-- `m'` is `m` with a name and a number in the entry at `e`, but for the time of the parent's inode.
pub record Entered (m m' : Mem) (parent e : ℕ) (name : Bytes) (number : ℕ) : Type 0 where
  pub named : str_eq_at m' e name ≡ true
  pub numbered : load 4 m' (e + 28) ≡ number
  pub other :
      (a : ℕ)
      → (a < e) ⊎ (e + 32 ≤ a)
      → (a < inode_mtim parent) ⊎ (inode_mtim parent + 8 ≤ a)
      → m' a ≡ m a

pub write_entry-Entered :
    (m : Mem) (parent e number now : ℕ) (name : Bytes)
    → length name < max_name
    → All (λ c. c < 256) name
    → number < 2 ^ 31
    → inode_mtim parent + 8 ≤ e
    → (m' : Mem) × (write_entry parent e name number now m ≡ some (pos 0, m'))
      × Entered m m' parent e name number
write_entry-Entered m parent e number now name short bytes small apart = (
  m3,
  unfold write_entry in rw (take-short 27 name (omega arith), fits, ◌>>=◌) refl,
  record {
    named =
        str_eq_at-agree m1 m3 e name (λ b x y.
          store-other 8 m2 (inode_mtim parent) now b (inr (omega arith))
          ∙ store-other 4 m1 (e + 28) number b (inl (omega arith)))
        ∙ str_eq_at-write_bytes m e name bytes;
    numbered =
        load-store_apart 4 8 m2 (e + 28) (inode_mtim parent) now (inr (omega arith))
        ∙ load-store 4 m1 (e + 28) number (omega arith);
    other = λ a x y.
        store-other 8 m2 (inode_mtim parent) now a y
        ∙ store-other 4 m1 (e + 28) number a (omega arith)
        ∙ write_bytes-other m e (name ++ (0 ∷ [])) a (omega (arith, length-append name (0 ∷ [])));
  },
)
  where
    m1 : Mem
    m1 = write_bytes m e (name ++ (0 ∷ []))

    m2 : Mem
    m2 = store 4 m1 (e + 28) number

    m3 : Mem
    m3 = store 8 m2 (inode_mtim parent) now

    fits : leb max_name (length name) ≡ false
    fits = ground arith

pub free_entry-within :
    (m : Mem) (b n j e : ℕ)
    → free_entry m b n j ≡ some e
    → (entry b j ≤ e) × (e + 32 ≤ entry b (j + n))
unfolding free_entry
free_entry-within m b zero j e h = absurd (cc)
free_entry-within m b (suc n) j e h = elim (Bool-cases (load 4 m (entry_num b j) == 0)) [
  | inl free ↦ ground (arith, free, h)
  | inr used ↦
      let (x, y) = free_entry-within m b n (j + 1) e (rw used at h) in (omega arith, omega arith)
]

pub free_entry-agree :
    (m m' : Mem) (b n j : ℕ)
    → ((c : ℕ) → entry b j ≤ c → c < entry b (j + n) → m' c ≡ m c)
    → free_entry m' b n j ≡ free_entry m b n j
unfolding free_entry
free_entry-agree m m' b zero j h = refl
free_entry-agree m m' b (suc n) j h =
    rw
      (
        load-agree 4 m' m (entry_num b j) (λ c x y. h c (omega arith) (omega arith)),
        free_entry-agree m m' b n (j + 1) (λ c x y. h c (omega arith) (omega arith)),
      )
      refl

-- A search depends on the entries that it looks at.
pub find_in_block-agree :
    (m m' : Mem) (b : ℕ) (token : Bytes) (n j : ℕ)
    → length token < max_name
    → ((c : ℕ) → entry b j ≤ c → c < entry b (j + n) → m' c ≡ m c)
    → find_in_block m' b token n j ≡ find_in_block m b token n j
unfolding find_in_block
find_in_block-agree m m' b token zero j short h = refl
find_in_block-agree m m' b token (suc n) j short h =
    rw
      (
        str_eq_at-agree m m' (entry b j) token (λ c x y. h c (omega arith) (omega arith)),
        load-agree 4 m' m (entry_num b j) (λ c x y. h c (omega arith) (omega arith)),
        find_in_block-agree m m' b token n (j + 1) short (λ c x y. h c (omega arith) (omega arith)),
      )
      refl

module _ (m m' : Mem) (parent b e : ℕ) (name : Bytes) (number : ℕ)
    (new : Entered m m' parent e name number) where
  -- The new name is found, if the block did not have it.
  pub find_in_block-Entered :
      (n j : ℕ)
      → length name < max_name
      → inode_mtim parent + 8 ≤ b
      → free_entry m b n j ≡ some e
      → find_in_block m b name n j ≡ none
      → find_in_block m' b name n j ≡ some (signed32 number)
  unfolding find_in_block free_entry
  find_in_block-Entered zero j short apart free h = absurd (cc)
  find_in_block-Entered (suc n) j short apart free h =
      elim (Bool-cases (load 4 m (entry_num b j) == 0)) [
        | inl zero_num ↦ ground (arith, zero_num, free, new.named, new.numbered)
        | inr used ↦
            let later = free_entry-within m b n (j + 1) e (rw used at free) in
            let same =
              str_eq_at-agree m m' (entry b j) name
                (λ c x y. new.other c (inl (omega (arith, later.0))) (inr (omega arith))) in
            ground (arith, same, h, find_in_block-Entered n (j + 1) short apart (rw used at free))
      ]

  -- Every other name is found as before, unless by an entry of number 0.
  pub find_in_block-other :
      (other : Bytes) (n j : ℕ) (r : Option ℤ)
      → IsString name
      → IsString other
      → other ≢ name
      → length other < max_name
      → inode_mtim parent + 8 ≤ b
      → free_entry m b n j ≡ some e
      → r ≢ some (pos 0)
      → find_in_block m b other n j ≡ r
      → find_in_block m' b other n j ≡ r
  unfolding find_in_block free_entry
  find_in_block-other other zero j r s t ne short apart free nz h = absurd (cc)
  find_in_block-other other (suc n) j r s t ne short apart free nz h =
      elim (Bool-cases (load 4 m (entry_num b j) == 0)) [
        | inl zero_num ↦
            let rest =
              find_in_block-agree m m' b other n (j + 1) short
                (λ c x y. new.other c (inr (ground (arith, zero_num, free))) (inr (omega arith))) in
            let before : str_eq_at m (entry b j) other ≡ false =
              elim (Bool-cases (str_eq_at m (entry b j) other)) [
                | inl here ↦ absurd (nz (sym h ∙ ground (arith, zero_num, here)))
                | inr away ↦ away
              ] in
            let after : str_eq_at m' (entry b j) other ≡ false =
              elim (Bool-cases (str_eq_at m' (entry b j) other)) [
                | inl here ↦ absurd (
                    ne (
                      str_eq_at-inj m' e other name t s (ground (arith, zero_num, free, here))
                        new.named))
                | inr away ↦ away
              ] in
            ground (arith, rest, before, after, h)
        | inr used ↦
            let free' = rw used at free in
            let later = free_entry-within m b n (j + 1) e free' in
            let same =
              str_eq_at-agree m m' (entry b j) other
                (λ c x y. new.other c (inl (omega (arith, later.0))) (inr (omega arith))) in
            let number =
              load-agree 4 m' m (entry_num b j)
                (λ c x y. new.other c (inl (omega (arith, later.0))) (inr (omega arith))) in
            elim (Bool-cases (str_eq_at m (entry b j) other)) [
              | inl here ↦ ground (arith, same, here, number, h)
              | inr away ↦
                  rw (same, away)
                    (find_in_block-other other n (j + 1) r s t ne short apart free' nz
                      (rw away at h))
            ]
      ]

  -- The first entry of a block is found first.
  pub find_in_block-first : find_in_block m' e name entries_per_block 0 ≡ some (signed32 number)
  unfolding find_in_block
  find_in_block-first =
      let start : entry e 0 ≡ e = omega arith in rw (start, new.named, new.numbered) refl
