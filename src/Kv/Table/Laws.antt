-- ===== src/Kv/Table/Laws.antt =====
-- What `search` finds after `insert`, for every key, and that a chain never holds a key twice.
use schoolwork.Common.{
  ℕ, suc, ◌%◌, ◌<◌, ◌≡◌, ◌≢◌, refl, ap, ◌∙◌, inl, inr, some, [], ◌∷◌, ◌==◌, if◌then◌else◌, get_or,
  replicate, arith, length, length-set, length-replicate, get_or-set_self, get_or-set_ne,
  Option-cases,
}
use native.Mathlib.Decide.{ℕ_discrete}
use native.Mathlib.Nat.{mod-lt}
use schoolwork.Kv.Table.{
  Bucket, HashTable, init_hash_table, hash_function, update_chain, insert_chain, insert,
  search_chain, find_key,
}

-- The array has as many buckets as the size says, and at least one.
pub record IsValid (ht : HashTable) : Type 0 where
  pub positive : 0 < ht.size
  pub filled : length ht.buckets ≡ ht.size

search-update_chain :
    (chain updated : Bucket) (key value j : ℕ)
    → update_chain chain key value ≡ some updated
    → search_chain updated j ≡ (if key == j then value else search_chain chain j)
unfolding update_chain search_chain
search-update_chain [] updated key value j h = ground arith
search-update_chain (n ∷ chain) updated key value j h =
    elim (Option-cases (update_chain chain key value)) [
      | inl e ↦ ground arith
      | inr (c, e) ↦ ground (arith, search-update_chain chain c key value j e)
    ]

search-insert_chain :
    (chain : Bucket) (key value j : ℕ)
    → search_chain (insert_chain chain key value) j
      ≡ (if key == j then value else search_chain chain j)
unfolding insert_chain search_chain
search-insert_chain chain key value j = elim (Option-cases (update_chain chain key value)) [
  | inl e ↦ ground arith
  | inr (c, e) ↦ ground (arith, search-update_chain chain c key value j e)
]

pub insert-IsValid : {ht : HashTable} (key value : ℕ) → IsValid ht → IsValid (insert ht key value)
unfolding insert
insert-IsValid {ht} key value v = record {
  positive = v.positive;
  filled = length-set ht.buckets _ _ ∙ v.filled;
}

pub init_hash_table-IsValid : (size : ℕ) → 0 < size → IsValid (init_hash_table size)
unfolding init_hash_table
init_hash_table-IsValid size h = record { positive = h; filled = length-replicate size [] }

get_or-replicate : (n i : ℕ) → get_or (replicate n (let c : Bucket = [] in c)) i [] ≡ []
get_or-replicate ℕ.zero i = refl
get_or-replicate (suc n) ℕ.zero = refl
get_or-replicate (suc n) (suc i) = get_or-replicate n i

pub find_key-init : (size key : ℕ) → find_key (init_hash_table size) key ≡ 0
unfolding find_key init_hash_table
find_key-init size key = ap (λ c. search_chain c key) (get_or-replicate size (key % size))

-- On a valid table, after `insert` a search for the key finds the value, and every other key is as
-- before, whether or not it shares the bucket.
pub find_key-insert :
    {ht : HashTable} (key value j : ℕ)
    → IsValid ht
    → find_key (insert ht key value) j ≡ (if key == j then value else find_key ht j)
unfolding find_key insert hash_function
find_key-insert {ht} key value j v = elim (ℕ_discrete (key % ht.size) (j % ht.size)) [
  | yes e ↦
      rw
        (
          ← e,
          get_or-set_self ht.buckets (key % ht.size) chain [] (omega (arith, v.filled, in_range)),
        )
        (search-insert_chain (get_or ht.buckets (key % ht.size) []) key value j)
  | no ne ↦
      rw (get_or-set_ne ht.buckets (key % ht.size) (j % ht.size) chain [] ne)
        (ground (arith, differ ne))
]
  where
    chain : Bucket
    chain = insert_chain (get_or ht.buckets (key % ht.size) []) key value

    in_range : key % ht.size < ht.size
    in_range = mod-lt key v.positive

    differ : (key % ht.size) ≢ (j % ht.size) → key ≢ j
    differ ne e = ne (ap (λ n. n % ht.size) e)
