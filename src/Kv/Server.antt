-- ===== src/Kv/Server.antt =====
-- The worker loop of cs537/P6/kv_store.c: one request taken from the ring is carried out on the
-- table, and its result is written to the completion slot in shared memory that it names.
pub mod Refinement
mod Tests
use schoolwork.Common.{ℕ, List, [], ◌∷◌, ◌==◌, if◌then◌else◌}
use schoolwork.Kv.Request.{put_request, get_request, BufferDescriptor}
use schoolwork.Kv.Table.{HashTable, insert, find_key}

-- The table, and the descriptors in shared memory by their byte offset.
pub record ServerState : Type 0 where
  pub ht : HashTable
  pub slots : ℕ → BufferDescriptor

abbrev pub update : (ℕ → BufferDescriptor) → ℕ → BufferDescriptor → ℕ → BufferDescriptor
update f i d j = if i == j then d else f j

-- `put` and `get`
pub put : HashTable → ℕ → ℕ → HashTable
put ht key val = insert ht key val

pub get : HashTable → ℕ → ℕ
get ht key = find_key ht key

-- The body of the loop of `thread_func`, for the descriptor that `ring_get` returned. A request
-- that is neither PUT nor GET is dropped.
unfoldable pub serve : ServerState → BufferDescriptor → ServerState
unfolding put get
serve s buf =
    let out = s.slots buf.res_off in
    if buf.req_type == put_request
    then record {
      ht = put s.ht buf.k buf.v;
      slots = update s.slots buf.res_off (record out { k = buf.k; ready = 1 });
    }
    else if buf.req_type == get_request
    then record s {
      slots = update s.slots buf.res_off (record out { k = buf.k; v = get s.ht buf.k; ready = 1 });
    }
    else s

-- A run of the loop over the requests in the order in which one worker takes them.
pub serve_all : ServerState → List BufferDescriptor → ServerState
unfolding serve
serve_all s [] = s
serve_all s (buf ∷ bufs) = serve_all (serve s buf) bufs
