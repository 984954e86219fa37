-- ===== src/Kv/Table/Distinct.antt =====
-- A chain of the hash table never holds a key twice.
use schoolwork.Common.{
  ℕ, ◌≡◌, ◌≢◌, sym, subst, inl, inr, none, some, List, [], ◌∷◌, get_or, set, arith, Option-cases,
  All, get_or-set_ne,
}
use native.Mathlib.Decide.{ℕ_discrete}
use schoolwork.Kv.Table.{Bucket, HashTable, update_chain, insert_chain, insert, hash_function}

abbrev pub keys : Bucket → List ℕ
keys [] = []
keys (n ∷ chain) = n.key ∷ keys chain

abbrev pub Distinct : List ℕ → Type 0
Distinct [] = Unit
Distinct (k ∷ ks) = All (λ j. j ≢ k) ks × Distinct ks

keys-update_chain :
    (chain updated : Bucket) (key value : ℕ)
    → update_chain chain key value ≡ some updated
    → keys updated ≡ keys chain
unfolding update_chain
keys-update_chain [] updated key value h = ground arith
keys-update_chain (n ∷ chain) updated key value h =
    elim (Option-cases (update_chain chain key value)) [
      | inl e ↦ ground arith
      | inr (c, e) ↦ ground (arith, keys-update_chain chain c key value e)
    ]

lacks_of_none :
    (chain : Bucket) (key value : ℕ)
    → update_chain chain key value ≡ none
    → All (λ j. j ≢ key) (keys chain)
unfolding update_chain
lacks_of_none [] key value h = tt
lacks_of_none (n ∷ chain) key value h = elim (Option-cases (update_chain chain key value)) [
  | inl e ↦ (ground arith, lacks_of_none chain key value e)
  | inr (c, e) ↦ ground arith
]

pub insert_chain-Distinct :
    (chain : Bucket) (key value : ℕ)
    → Distinct (keys chain)
    → Distinct (keys (insert_chain chain key value))
unfolding insert_chain
insert_chain-Distinct chain key value d = elim (Option-cases (update_chain chain key value)) [
  | inl e ↦ rw (e, insert_chain) (lacks_of_none chain key value e, d)
  | inr (c, e) ↦
      rw (e, insert_chain) (subst Distinct (sym (keys-update_chain chain c key value e)) d)
]

-- If no chain of the table holds a key twice, this is still so after `insert`.
pub insert-Distinct :
    (ht : HashTable) (key value : ℕ)
    → ((i : ℕ) → Distinct (keys (get_or ht.buckets i [])))
    → (i : ℕ) → Distinct (keys (get_or (insert ht key value).buckets i []))
unfolding insert
insert-Distinct ht key value d i = elim (ℕ_discrete (hash_function key ht.size) i) [
  | yes e ↦ rw (← e) (
      set_distinct ht.buckets (hash_function key ht.size) chain
        (insert_chain-Distinct _ key value (d (hash_function key ht.size)))
        (d (hash_function key ht.size)))
  | no ne ↦ rw (get_or-set_ne ht.buckets (hash_function key ht.size) i chain [] ne) (d i)
]
  where
    chain : Bucket
    chain = insert_chain (get_or ht.buckets (hash_function key ht.size) []) key value

    set_distinct :
        (bs : List Bucket) (i : ℕ) (c : Bucket)
        → Distinct (keys c)
        → Distinct (keys (get_or bs i []))
        → Distinct (keys (get_or (set bs i c) i []))
    set_distinct [] i c h g = tt
    set_distinct (b ∷ bs) ℕ.zero c h g = h
    set_distinct (b ∷ bs) (ℕ.suc i) c h g = set_distinct bs i c h g
