-- ===== src/Wfs/Directory/Found.antt =====
-- What the lookup of cs537/P7/wfs.c finds in a directory after `addDirectoryEntry`.
use schoolwork.Common.{
  ℕ, zero, suc, ◌+◌, ◌^◌, ◌≤◌, ◌<◌, ◌≡◌, refl, sym, ap, ◌∙◌, ◌≢◌, ◌⊎◌, inl, inr, Option, none, some,
  arith, ◌==◌, if◌then◌else◌,
}
use native.Mathlib.Decide.{ℕ_discrete}
use schoolwork.Common.Bytes.{Bytes}
use schoolwork.Common.Int.{ℤ}
use schoolwork.Wfs.Memory.{Mem, load}
use schoolwork.Wfs.Layout.{entries_per_block, inode_block, get_directory_entry}
use schoolwork.Wfs.Path.{Found, found, missing, bad_access, find_in_block, find_in_directory}

-- What the search of block `i` of a directory comes to.
unfoldable pub slot : Mem → ℕ → Bytes → ℕ → Found
slot m parent token i =
    if load 8 m (inode_block parent i) == 0
    then missing
    else elim (get_directory_entry (load 8 m (inode_block parent i))) [
      | none ↦ bad_access
      | some b ↦ elim (find_in_block m b token entries_per_block 0) [
        | some number ↦ found number
        | none ↦ missing
      ]
    ]

abbrev pub in_block : Option ℤ → Found
in_block (some n) = found n
in_block none = missing

pub slot-unused :
    (m : Mem) (parent : ℕ) (token : Bytes) (i : ℕ)
    → load 8 m (inode_block parent i) ≡ 0
    → slot m parent token i ≡ missing
unfolding slot
slot-unused m parent token i e = rw e refl

pub slot-block :
    (m : Mem) (parent : ℕ) (token : Bytes) (i b : ℕ)
    → load 8 m (inode_block parent i) ≡ b
    → b ≢ 0
    → b < 2 ^ 31
    → slot m parent token i ≡ in_block (find_in_block m b token entries_per_block 0)
unfolding slot get_directory_entry
slot-block m parent token i b e ne small = ground (arith, e)

abbrev pub or_else : Found → Found → Found
or_else (found n) r = found n
or_else missing r = r
or_else bad_access r = bad_access

Found-cases : (r : Found) → (((x : ℤ) × (r ≡ found x)) ⊎ (r ≡ missing)) ⊎ (r ≡ bad_access)
Found-cases (found x) = inl (inl (x, refl))
Found-cases missing = inl (inr refl)
Found-cases bad_access = inr refl

pub found-inj : (x y : ℤ) → found x ≡ found y → x ≡ y
found-inj x y e = ground (arith, e)

pub find_in_directory-slot :
    (m : Mem) (parent : ℕ) (token : Bytes) (n i : ℕ)
    → find_in_directory m parent token (suc n) i
      ≡ or_else (slot m parent token i) (find_in_directory m parent token n (i + 1))
unfolding find_in_directory slot
find_in_directory-slot m parent token n i = ground arith

-- Where a name is missing, no block has it.
pub slot_missing :
    (m : Mem) (parent : ℕ) (token : Bytes) (n j k : ℕ)
    → find_in_directory m parent token n j ≡ missing
    → j ≤ k
    → k < j + n
    → slot m parent token k ≡ missing
slot_missing m parent token zero j k e lo hi = absurd (omega arith)
slot_missing m parent token (suc n) j k e lo hi =
    let before = sym (find_in_directory-slot m parent token n j) ∙ e in
    let gone : slot m parent token j ≡ missing = ground (arith, before) in
    elim (ℕ_discrete k j) [
      | yes here ↦ rw here gone
      | no away ↦
          slot_missing m parent token n (j + 1) k (rw gone at before) (omega arith) (omega arith)
    ]

all_missing :
    (m : Mem) (parent : ℕ) (token : Bytes) (n j : ℕ) (x : ℤ)
    → ((k : ℕ) → j ≤ k → k < j + n → slot m parent token k ≡ missing)
    → find_in_directory m parent token n j ≢ found x
all_missing m parent token zero j x h e = absurd (unfold find_in_directory in cc)
all_missing m parent token (suc n) j x h e =
    let before = sym (find_in_directory-slot m parent token n j) ∙ e in
    all_missing m parent token n (j + 1) x (λ k a b. h k (omega arith) (omega arith))
      (rw (h j (omega arith) (omega arith)) at before)

-- An image and a later one, and one block of a directory.
module _ (m m' : Mem) (parent i : ℕ) where
  -- A name that was missing is found there.
  pub find_in_directory-new :
      (name : Bytes) (x : ℤ) (n j : ℕ)
      → ((k : ℕ) → k < j + n → k ≢ i → slot m' parent name k ≡ slot m parent name k)
      → slot m' parent name i ≡ found x
      → j ≤ i
      → i < j + n
      → find_in_directory m parent name n j ≡ missing
      → find_in_directory m' parent name n j ≡ found x
  find_in_directory-new name x zero j h new lo hi e = absurd (omega arith)
  find_in_directory-new name x (suc n) j h new lo hi e =
      let before = sym (find_in_directory-slot m parent name n j) ∙ e in
      find_in_directory-slot m' parent name n j ∙ elim (ℕ_discrete j i) [
        | yes here ↦ rw (here, new) refl
        | no away ↦
            let none_here : slot m parent name j ≡ missing = ground (arith, before) in
            rw (h j (omega arith) away, none_here)
              (find_in_directory-new name x n (j + 1) (λ k lt. h k (omega arith)) new (omega arith)
                (omega arith) (ground (arith, before)))
      ]

  -- A name that is found is found as before.
  pub find_in_directory-other :
      (other : Bytes) (x : ℤ) (n j : ℕ)
      → ((k : ℕ) → k < j + n → k ≢ i → slot m' parent other k ≡ slot m parent other k)
      → (slot m parent other i ≡ found x → slot m' parent other i ≡ found x)
      → (slot m parent other i ≡ missing
          → (slot m' parent other i ≡ missing)
            ⊎ ((k : ℕ) → i < k → k < j + n → slot m parent other k ≡ missing))
      → find_in_directory m parent other n j ≡ found x
      → find_in_directory m' parent other n j ≡ found x
  find_in_directory-other other x zero j h kept absent e = absurd (unfold find_in_directory in cc)
  find_in_directory-other other x (suc n) j h kept absent e =
      let before = sym (find_in_directory-slot m parent other n j) ∙ e in
      find_in_directory-slot m' parent other n j ∙ elim (Found-cases (slot m parent other j)) [
        | inl (inl (y, here)) ↦
            let y_is_x : y ≡ x = found-inj y x (rw here at before) in
            let now : slot m' parent other j ≡ found x = elim (ℕ_discrete j i) [
              | yes q ↦ rw q (kept (rw (← q) (here ∙ ap found y_is_x)))
              | no q ↦ h j (omega arith) q ∙ here ∙ ap found y_is_x
            ] in
            rw now refl
        | inl (inr gone) ↦
            let rest : find_in_directory m parent other n (j + 1) ≡ found x = rw gone at before in
            let later : find_in_directory m' parent other n (j + 1) ≡ found x =
              find_in_directory-other other x n (j + 1) (λ k lt. h k (omega arith)) kept
                (λ q. elim (absent q) [
                  | inl a ↦ inl a
                  | inr a ↦ inr (λ k above lt. a k above (omega arith))
                ])
                rest in
            elim (ℕ_discrete j i) [
              | no q ↦ rw (h j (omega arith) q, gone) later
              | yes q ↦ elim (absent (rw (← q) gone)) [
                | inl a ↦ rw (q, a) (rw q at later)
                | inr a ↦ absurd (
                    all_missing m parent other n (j + 1) x
                      (λ k above lt. a k (omega arith) (omega arith)) rest)
              ]
            ]
        | inr bad ↦ absurd (ground (arith, rw bad at before))
      ]
