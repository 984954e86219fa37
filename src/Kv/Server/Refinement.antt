-- ===== src/Kv/Server/Refinement.antt =====
-- The server against a store that is a function from keys to values, 0 where nothing was put.
use schoolwork.Common.{ℕ, ◌≡◌, ◌≢◌, ◌⊎◌, inl, inr, List, [], ◌∷◌, arith, ◌==◌, if◌then◌else◌}
use schoolwork.Kv.Request.{put_request, get_request, BufferDescriptor}
use schoolwork.Kv.Table.{HashTable, find_key}
use schoolwork.Kv.Table.Laws.{IsValid, insert-IsValid, find_key-insert}
use schoolwork.Kv.Server.{ServerState, put, get, serve, serve_all}

abbrev pub Store : Type 0
Store = ℕ → ℕ

-- What a sequence of requests means: the last PUT of a key counts.
unfoldable pub store_after : Store → List BufferDescriptor → Store
store_after m [] = m
store_after m (b ∷ bufs) =
    store_after (λ j. if b.req_type == put_request then (if b.k == j then b.v else m j) else m j)
      bufs

abbrev pub Holds : HashTable → Store → Type 0
Holds ht m = (j : ℕ) → find_key ht j ≡ m j

pub serve-IsValid : (s : ServerState) (b : BufferDescriptor) → IsValid s.ht → IsValid (serve s b).ht
unfolding serve
serve-IsValid s b v = ground (arith, insert-IsValid b.k b.v v)

pub serve-Holds :
    (s : ServerState) (b : BufferDescriptor) (m : Store)
    → IsValid s.ht
    → Holds s.ht m
    → Holds
        (serve s b).ht
        (λ j. if b.req_type == put_request then (if b.k == j then b.v else m j) else m j)
unfolding serve
serve-Holds s b m v h j = ground (arith, h j, find_key-insert b.k b.v j v)

-- Whatever requests one worker carries out on a valid table, every key then holds the value of its
-- last PUT, or what it held before if there was none.
pub serve_all_refines :
    (s : ServerState) (bufs : List BufferDescriptor) (m : Store)
    → IsValid s.ht
    → Holds s.ht m
    → (j : ℕ) → find_key (serve_all s bufs).ht j ≡ store_after m bufs j
unfolding serve_all store_after
serve_all_refines s [] m v h j = h j
serve_all_refines s (b ∷ bufs) m v h j =
    serve_all_refines (serve s b) bufs _ (serve-IsValid s b v) (serve-Holds s b m v h) j

-- A GET marks its completion slot ready, with the key and the value that the store has for it, and
-- changes no other slot and no key.
pub serve_get :
    (s : ServerState) (b : BufferDescriptor) (m : Store)
    → Holds s.ht m
    → b.req_type ≡ get_request
    → ((serve s b).ht ≡ s.ht)
      × ((serve s b).slots b.res_off ≡ record (s.slots b.res_off) { k = b.k; v = m b.k; ready = 1 })
      × ((o : ℕ) → b.res_off ≢ o → (serve s b).slots o ≡ s.slots o)
unfolding serve get put
serve_get s b m h e = (ground (arith), ground (arith, h b.k), λ o ne. ground arith)

-- A PUT or a GET marks its completion slot ready, with its key and, for a GET, the value found, and
-- changes no other slot.
pub serve_ready :
    (s : ServerState) (b : BufferDescriptor)
    → (b.req_type ≡ put_request) ⊎ (b.req_type ≡ get_request)
    → (((serve s b).slots b.res_off).ready ≡ 1)
      × (((serve s b).slots b.res_off).k ≡ b.k)
      × (b.req_type ≡ get_request → ((serve s b).slots b.res_off).v ≡ find_key s.ht b.k)
      × ((o : ℕ) → b.res_off ≢ o → (serve s b).slots o ≡ s.slots o)
unfolding serve get put
serve_ready s b (inl e) =
    (ground arith, ground arith, (λ g. absurd (omega arith)), λ o ne. ground arith)
serve_ready s b (inr e) = (ground arith, ground arith, (λ g. ground arith), λ o ne. ground arith)
