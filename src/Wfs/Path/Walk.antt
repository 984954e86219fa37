-- ===== src/Wfs/Path/Walk.antt =====
-- What `path2inode` returns for an absolute path: the inode that the components lead to, when no
-- directory on the way has the name of the last component and none is missing; and what it
-- returns otherwise.
use schoolwork.Common.{
  ℕ, ◌^◌, ◌<◌, ◌≡◌, refl, sym, ap, ◌∙◌, ◌≢◌, true, false, none, some, List, [], ◌∷◌, ◌++◌,
  append-nil, append_assoc, arith, ◌==◌, length, All,
}
use schoolwork.Common.Bytes.{
  Bytes, str_eq, str_eq_iff, tokens, tokens_from, flush, rev_onto, IsToken, tokens_from-append,
  tokens_from-delimiter, flush-rev,
}
use schoolwork.Common.Int.{ℤ, pos}
use schoolwork.Wfs.Memory.{Mem, load}
use schoolwork.Wfs.Layout.{n_blocks, i_bitmap_ptr, i_blocks_ptr, get_inode_by_number}
use schoolwork.Wfs.Bitmap.{is_bitmap_bit_set}
use schoolwork.Wfs.Path.{
  slash, split_last_slash, found, missing, find_in_directory, walk, checked, is_number_set,
  path2inode,
}

-- The absolute path with these components.
abbrev pub path_of : List Bytes → Bytes
path_of [] = []
path_of (t ∷ ts) = slash ∷ (t ++ path_of ts)

-- The components lead from the inode at an address to another, each found in the directory before.
abbrev pub Descends : Mem → ℕ → List Bytes → ℤ → ℕ → Type 0
Descends m a [] n b = ⊥
Descends m a (t ∷ []) n b =
    (find_in_directory m a t n_blocks 0 ≡ found n) × (get_inode_by_number m n ≡ some b)
Descends m a (t ∷ u ∷ ts) n b =
    (k : ℤ) × (c : ℕ) × (find_in_directory m a t n_blocks 0 ≡ found k)
    × (get_inode_by_number m k ≡ some c)
    × Descends m c (u ∷ ts) n b

tokens-path :
    (cur : Bytes) (ts : List Bytes)
    → All (IsToken slash) ts
    → tokens_from slash cur (path_of ts) ≡ flush cur ts
unfolding tokens_from
tokens-path cur [] h = refl
tokens-path cur (t ∷ ts) h =
    tokens_from-delimiter slash cur (t ++ path_of ts)
    ∙ ap (flush cur) (
        tokens_from-append slash [] t (path_of ts) h.0.1
        ∙ tokens-path (rev_onto t []) ts h.1
        ∙ flush-rev t ts h.0.0)

path-tokens : (ts : List Bytes) → All (IsToken slash) ts → tokens slash (path_of ts) ≡ ts
unfolding tokens
path-tokens ts h = tokens-path [] ts h

no_slash : (name : Bytes) → All (λ c. c ≢ slash) name → split_last_slash name ≡ none
unfolding split_last_slash
no_slash [] h = refl
no_slash (c ∷ name) h = ground (arith, no_slash name h.1)

pub split_last_slash-append :
    (xs name : Bytes)
    → All (λ c. c ≢ slash) name
    → split_last_slash (xs ++ (slash ∷ name)) ≡ some (xs, name)
unfolding split_last_slash
split_last_slash-append [] name h = ground (arith, no_slash name h)
split_last_slash-append (x ∷ xs) name h = ground (arith, split_last_slash-append xs name h)

path-append :
    (dirs : List Bytes) (name : Bytes)
    → path_of (dirs ++ (name ∷ [])) ≡ path_of dirs ++ (slash ∷ name)
path-append [] name = ap (λ s. slash ∷ s) (append-nil name)
path-append (d ∷ dirs) name =
    ap (λ s. slash ∷ s)
      (ap (λ s. d ++ s) (path-append dirs name)
        ∙ sym (append_assoc d (path_of dirs) (slash ∷ name)))

split-path :
    (dirs : List Bytes) (name : Bytes)
    → IsToken slash name
    → split_last_slash (path_of (dirs ++ (name ∷ []))) ≡ some (path_of dirs, name)
split-path dirs name h =
    rw (path-append dirs name) (split_last_slash-append (path_of dirs) name h.1)

not_slash_alone : (t rest : Bytes) → t ≢ [] → str_eq (slash ∷ (t ++ rest)) (slash ∷ []) ≡ false
unfolding str_eq
not_slash_alone [] rest h = absurd (h refl)
not_slash_alone (c ∷ t) rest h = refl

-- The lookup of an absolute path is the walk over its components.
path2inode-walk :
    (m : Mem) (dirs : List Bytes) (name : Bytes)
    → All (IsToken slash) (dirs ++ (name ∷ []))
    → IsToken slash name
    → path2inode m (path_of (dirs ++ (name ∷ [])))
      ≡ checked m (walk m (some name) (dirs ++ (name ∷ [])) (pos 0) (i_blocks_ptr m))
path2inode-walk m dirs name h hn =
    unfold path2inode in
    rw (long (dirs), not_root dirs, split-path dirs name hn, path-tokens (dirs ++ (name ∷ [])) h)
  where
    long : (ds : List Bytes) → (length (path_of (ds ++ (name ∷ []))) == 0) ≡ false
    long [] = ground arith
    long (d ∷ ds) = ground arith

    not_root :
        (ds : List Bytes)
        → All (IsToken slash) (ds ++ (name ∷ []))
        → str_eq (path_of (ds ++ (name ∷ []))) (slash ∷ []) ≡ false
    not_root [] k = not_slash_alone name [] hn.0
    not_root (d ∷ ds) k = not_slash_alone d (path_of (ds ++ (name ∷ []))) k.0.0

walk-Descends :
    (m : Mem) (dirs : List Bytes) (name : Bytes) (k n : ℤ) (a b : ℕ)
    → All (λ d. d ≢ name) dirs
    → Descends m a (dirs ++ (name ∷ [])) n b
    → walk m (some name) (dirs ++ (name ∷ [])) k a
      ≡ some (record { number = n; address = b; final = true })
unfolding walk
walk-Descends m [] name k n a b h d = ground (arith, (str_eq_iff name name).1 refl, d.0, d.1)
walk-Descends m (t ∷ []) name k n a b h (j, c, e, f, d) =
    ground (arith, str_eq_iff name t, e, f, walk-Descends m [] name j n c b tt d)
walk-Descends m (t ∷ u ∷ dirs) name k n a b h (j, c, e, f, d) =
    ground (arith, str_eq_iff name t, e, f, walk-Descends m (u ∷ dirs) name j n c b h.1 d)

checked-set :
    (m : Mem) (n : ℤ) (b : ℕ)
    → load 4 m b < 2 ^ 31
    → is_bitmap_bit_set m (i_bitmap_ptr m) (load 4 m b) ≡ true
    → checked m (some (record { number = n; address = b; final = true })) ≡ some n
unfolding checked is_number_set
checked-set m n b small used = ground (arith, small, used)

-- For an absolute path whose components are not empty: if they lead from the root directory to an
-- inode with a number that is an int and marked in use, and no directory on the way has the name of
-- the last component, the lookup returns the number of that inode.
pub path2inode-Descends :
    (m : Mem) (dirs : List Bytes) (name : Bytes) (n : ℤ) (b : ℕ)
    → All (IsToken slash) (dirs ++ (name ∷ []))
    → IsToken slash name
    → All (λ d. d ≢ name) dirs
    → Descends m (i_blocks_ptr m) (dirs ++ (name ∷ [])) n b
    → load 4 m b < 2 ^ 31
    → is_bitmap_bit_set m (i_bitmap_ptr m) (load 4 m b) ≡ true
    → path2inode m (path_of (dirs ++ (name ∷ []))) ≡ some n
path2inode-Descends m dirs name n b h hn ne d small used =
    path2inode-walk m dirs name h hn
    ∙ ap (checked m) (walk-Descends m dirs name (pos 0) n (i_blocks_ptr m) b ne d)
    ∙ checked-set m n b small used

-- For an absolute path of two components or more, none of them empty: if the root directory does
-- not have the first one, the lookup returns what it returns for the rest of the path.
pub path2inode_skips_missing :
    (m : Mem) (t : Bytes) (dirs : List Bytes) (name : Bytes)
    → All (IsToken slash) (t ∷ (dirs ++ (name ∷ [])))
    → IsToken slash name
    → find_in_directory m (i_blocks_ptr m) t n_blocks 0 ≡ missing
    → path2inode m (path_of (t ∷ (dirs ++ (name ∷ []))))
      ≡ path2inode m (path_of (dirs ++ (name ∷ [])))
path2inode_skips_missing m t dirs name h hn e =
    path2inode-walk m (t ∷ dirs) name h hn ∙ rw (skipped) (sym (path2inode-walk m dirs name h.1 hn))
  where
    skipped :
        walk m (some name) (t ∷ (dirs ++ (name ∷ []))) (pos 0) (i_blocks_ptr m)
        ≡ walk m (some name) (dirs ++ (name ∷ [])) (pos 0) (i_blocks_ptr m)
    skipped = unfold walk in rw (e, walk)

-- For an absolute path whose components are not empty and whose first one is also the last one: if
-- the root directory has it, with an inode whose number is marked in use, the lookup returns that
-- inode, whatever stands between.
pub path2inode_stops_early :
    (m : Mem) (dirs : List Bytes) (name : Bytes) (n : ℤ) (b : ℕ)
    → All (IsToken slash) (name ∷ (dirs ++ (name ∷ [])))
    → IsToken slash name
    → Descends m (i_blocks_ptr m) (name ∷ []) n b
    → load 4 m b < 2 ^ 31
    → is_bitmap_bit_set m (i_bitmap_ptr m) (load 4 m b) ≡ true
    → path2inode m (path_of (name ∷ (dirs ++ (name ∷ [])))) ≡ some n
path2inode_stops_early m dirs name n b h hn (e, f) small used =
    path2inode-walk m (name ∷ dirs) name h hn
    ∙ ap (checked m) stopped
    ∙ checked-set m n b small used
  where
    stopped :
        walk m (some name) (name ∷ (dirs ++ (name ∷ []))) (pos 0) (i_blocks_ptr m)
        ≡ some (record { number = n; address = b; final = true })
    stopped = unfold walk in rw (e, walk, f, (str_eq_iff name name).1 refl)
