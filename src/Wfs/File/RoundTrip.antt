-- ===== src/Wfs/File/RoundTrip.antt =====
-- What the loop of `wfs_read` reads after the loop of `wfs_write` has written.
use schoolwork.Common.{
  ℕ, zero, suc, ◌+◌, ◌-◌, ◌/◌, ◌%◌, ◌≤◌, ◌<◌, ◌≡◌, refl, sym, ap, ◌∙◌, ◌⊎◌, inl, inr, true, false,
  some, List, [], ◌∷◌, arith, leb, ◌==◌, length, take, drop, All,
}
use schoolwork.Common.Bytes.{Bytes}
use schoolwork.Common.Int.{pos}
use schoolwork.Wfs.Memory.{Mem, load, write_bytes, read_bytes, ◌>>=◌}
use schoolwork.Wfs.Memory.Frames.{load-agree, write_bytes-other, read-write_bytes}
use schoolwork.Wfs.Layout.{
  block_size, d_block, n_blocks, pointers_per_block, inode_block, d_blocks_ptr,
}
use schoolwork.Wfs.Blocks.{block_at, get_block_ptr}
use schoolwork.Wfs.Blocks.Stable.{Placed, allocation, block_at-stable, block_at-found, direct}
use schoolwork.Wfs.File.{chunk, read_loop, write_loop}

take-all {ℓ} : {A : Type ℓ} (xs : List A) → take (length xs) xs ≡ xs
take-all [] = refl
take-all (x ∷ xs) = ap (λ ys. x ∷ ys) (take-all xs)

drop-length {ℓ} : {A : Type ℓ} (xs : List A) → drop (length xs) xs ≡ []
drop-length [] = refl
drop-length (x ∷ xs) = drop-length xs

chunk-all : (offset n : ℕ) → offset % block_size + n ≤ block_size → chunk offset n ≡ n
chunk-all offset n h = omega arith

write_nothing :
    (fuel inode offset written : ℕ) (m : Mem)
    → write_loop fuel inode offset [] written m ≡ some (pos written, m)
unfolding write_loop
write_nothing zero inode offset written m = refl
write_nothing (suc fuel) inode offset written m = refl

read_nothing :
    (fuel inode offset : ℕ) (done : Bytes) (m : Mem)
    → read_loop fuel inode offset 0 done m ≡ some ((pos (length done), done), m)
unfolding read_loop
read_nothing zero inode offset done m = refl
read_nothing (suc fuel) inode offset done m = refl

-- One round of each loop, for bytes that lie in one block.
write_round :
    (m m1 : Mem) (inode offset b c : ℕ) (cs : Bytes)
    → offset % block_size + length (c ∷ cs) ≤ block_size
    → offset / block_size < d_block
    → get_block_ptr inode (offset / block_size) true m ≡ some (some b, m1)
    → write_loop (length (c ∷ cs)) inode offset (c ∷ cs) 0 m
      ≡ some (pos (length (c ∷ cs)), write_bytes m1 (b + offset % block_size) (c ∷ cs))
unfolding write_loop
write_round m m1 inode offset b c cs fits near e =
    let limit : leb (n_blocks + pointers_per_block) (offset / block_size) ≡ false = ground arith in
    let some_left : (suc (length cs) == 0) ≡ false = ground arith in
    let total : 0 + suc (length cs) ≡ suc (length cs) = omega arith in
    rw
      (
        some_left,
        limit,
        e,
        ◌>>=◌,
        chunk-all offset (suc (length cs)) fits,
        take-all (c ∷ cs),
        drop-length (c ∷ cs),
        total,
      )
      (write_nothing (length cs) inode (offset + suc (length cs)) (suc (length cs)) _)

read_round :
    (m : Mem) (inode offset b n : ℕ)
    → offset % block_size + suc n ≤ block_size
    → get_block_ptr inode (offset / block_size) false m ≡ some (some b, m)
    → read_loop (suc n) inode offset (suc n) [] m
      ≡ some (
        (
          pos (length (read_bytes m (b + offset % block_size) (suc n))),
          read_bytes m (b + offset % block_size) (suc n),
        ),
        m,
      )
unfolding read_loop
read_round m inode offset b n fits e =
    let done : suc n - suc n ≡ 0 = omega arith in
    let some_left : (suc n == 0) ≡ false = ground arith in
    rw (some_left, e, ◌>>=◌, read_loop, chunk-all offset (suc n) fits, done)
      (read_nothing n inode (offset + suc n) _ m)

-- The block that is allocated, or that the inode has, lies among the data blocks.
block_above :
    (m m1 : Mem) (inode pointer b : ℕ)
    → Placed m inode
    → (load 8 m pointer ≡ 0) ⊎ (d_blocks_ptr m ≤ load 8 m pointer)
    → block_at pointer true m ≡ some (some b, m1)
    → d_blocks_ptr m ≤ b
unfolding block_at
block_above m m1 inode pointer b p known e = elim (allocation m inode p) [
  | inl full ↦ ground (arith, full, e)
  | inr (c, m2, got, lo, hi, k, l) ↦ ground (arith, got, lo, hi, e)
]

-- On an image laid out in order, for bytes, at least one, that lie within one of the direct blocks
-- of a file, where `get_block_ptr` gives a block: the loop of `wfs_write` writes them all, and the
-- loop of `wfs_read` for as many from the same offset gives them back. A block that the inode has
-- already must lie among the data blocks.
pub read_loop-write_loop :
    (m m1 : Mem) (inode offset b c : ℕ) (cs : Bytes)
    → Placed m inode
    → (load 8 m (inode_block inode (offset / block_size)) ≡ 0)
      ⊎ (d_blocks_ptr m ≤ load 8 m (inode_block inode (offset / block_size)))
    → offset / block_size < d_block
    → offset % block_size + length (c ∷ cs) ≤ block_size
    → All (λ v. v < 256) (c ∷ cs)
    → get_block_ptr inode (offset / block_size) true m ≡ some (some b, m1)
    → (m2 : Mem) × (write_loop (length (c ∷ cs)) inode offset (c ∷ cs) 0 m
        ≡ some (pos (length (c ∷ cs)), m2))
      × (read_loop (length (c ∷ cs)) inode offset (length (c ∷ cs)) [] m2
          ≡ some ((pos (length (c ∷ cs)), c ∷ cs), m2))
read_loop-write_loop m m1 inode offset b c cs p known near fits bytes e = (
  m2,
  write_round m m1 inode offset b c cs fits near e,
  read_round m2 inode offset b (length cs) fits found
      ∙ rw (read-write_bytes m1 (b + offset % block_size) (c ∷ cs) bytes) refl,
)
  where
    m2 : Mem
    m2 = write_bytes m1 (b + offset % block_size) (c ∷ cs)

    index : ℕ
    index = offset / block_size

    at : block_at (inode_block inode index) true m ≡ some (some b, m1)
    at = sym (direct inode index true m near) ∙ e

    above : d_blocks_ptr m ≤ b
    above = block_above m m1 inode (inode_block inode index) b p known at

    kept : load 8 m2 (inode_block inode index) ≡ b
    kept =
        load-agree 8 m2 m1 (inode_block inode index) (λ x lo hi.
          write_bytes-other m1 (b + offset % block_size) (c ∷ cs) x
            (inl (omega (arith, above, p.after))))
        ∙ (block_at-stable m m1 inode (inode_block inode index) b p at).0

    found : get_block_ptr inode index false m2 ≡ some (some b, m2)
    found =
        direct inode index false m2 near
        ∙ block_at-found m2 (inode_block inode index) b kept
            (block_at-stable m m1 inode (inode_block inode index) b p at).1
