-- ===== src/Kv/Table.antt =====
-- The chained hash table of cs537/P6/kv_store.c, one operation at a time. A chain is the list of
-- its nodes from the head on.
pub mod Laws
pub mod Distinct
use schoolwork.Common.{
  ℕ, ◌%◌, Option, none, some, List, [], ◌∷◌, ◌==◌, if◌then◌else◌, get_or, set, replicate,
}
use mathlib.Core.Option

-- `Node`, without its link.
pub record Node : Type 0 where
  pub key : ℕ
  pub value : ℕ

abbrev pub Bucket : Type 0
Bucket = List Node

pub record HashTable : Type 0 where
  pub size : ℕ
  pub buckets : List Bucket

pub init_bucket : Bucket
init_bucket = []

pub init_hash_table : ℕ → HashTable
unfolding init_bucket
init_hash_table size = record { size = size; buckets = replicate size init_bucket }

-- `k % table_size`; the caller keeps the size above 0.
pub hash_function : ℕ → ℕ → ℕ
hash_function k table_size = k % table_size

-- The loop of `insert`: the chain with the first node of the key overwritten, if there is one.
pub update_chain : Bucket → ℕ → ℕ → Option Bucket
update_chain [] key value = none
update_chain (n ∷ chain) key value =
    let rest = update_chain chain key value in
    if n.key == key then some (record n { value = value } ∷ chain) else Option.map (λ c. n ∷ c) rest

-- A key that the chain does not hold goes to a new node at its head.
pub insert_chain : Bucket → ℕ → ℕ → Bucket
unfolding update_chain
insert_chain chain key value = elim (update_chain chain key value) [
  | some updated ↦ updated
  | none ↦ record { key = key; value = value } ∷ chain
]

pub insert : HashTable → ℕ → ℕ → HashTable
unfolding hash_function insert_chain
insert ht key value =
    let index = hash_function key ht.size in
    record ht {
      buckets = set ht.buckets index (insert_chain (get_or ht.buckets index []) key value);
    }

-- The loop of `search`: 0 stands for a key that is not there.
pub search_chain : Bucket → ℕ → ℕ
search_chain [] key = 0
search_chain (n ∷ chain) key =
    let rest = search_chain chain key in if n.key == key then n.value else rest

pub find_key : HashTable → ℕ → ℕ
unfolding hash_function search_chain
find_key ht key = search_chain (get_or ht.buckets (hash_function key ht.size) []) key
