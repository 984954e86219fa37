-- ===== src/Kv/Client.antt =====
-- The client of cs537/P6/client.c: its requests, the window of each thread, and a thread beside a
-- worker of the server. The ring (ring_buffer.c) is the list of the descriptors between the
-- worker's position and the thread's, each in the slot of its position modulo RING_SIZE: a
-- descriptor that is submitted also replaces one that is in the same slot. Counters are plain
-- numbers.
pub mod Window
pub mod Loops
mod Tests
use schoolwork.Common.{
  ℕ, zero, suc, ◌+◌, ◌-◌, ◌*◌, ◌/◌, ◌%◌, ◌≡◌, ◌≢◌, Bool, true, false, ◌&&◌, not, Option, none, some,
  List, [], ◌∷◌, ◌++◌, ltb, ◌==◌, if◌then◌else◌, length,
}
use schoolwork.Common.Bytes.{Bytes, codes, str_eq, tokens}
use schoolwork.Kv.Request.{put_request, get_request, BufferDescriptor}
use schoolwork.Kv.Ring.{ring_size}
use schoolwork.Kv.Server.{ServerState, serve, update}

-- `struct request`
pub record Request : Type 0 where
  pub k : ℕ
  pub v : ℕ
  pub t : ℕ

-- `get_req_type`, `none` for -1.
unfoldable pub get_req_type : Bytes → Option ℕ
unfolding str_eq
get_req_type req_str =
    if str_eq req_str (codes "put")
    then some put_request
    else if str_eq req_str (codes "get")
    then some get_request
    else none

abbrev pub Requests : Type 0
Requests = ℕ → Request

abbrev pub put_req : Requests → ℕ → Request → Requests
put_req rs i r j = if i == j then r else rs j

-- `atoi` is the C library's.
module _ (atoi : Bytes → ℕ) where
  unfoldable pub add_words : List Bytes → Requests → ℕ → Bool × Requests
  unfolding get_req_type
  add_words [] rs index = (false, rs)
  add_words (word ∷ []) rs index = elim (get_req_type word) [
    | none ↦ (false, rs)
    | some type ↦ (false, put_req rs index (record (rs index) { t = type }))
  ]
  add_words (word ∷ key ∷ more) rs index = elim (get_req_type word) [
    | none ↦ (false, rs)
    | some type ↦
        let keyed = record (rs index) { t = type; k = atoi key } in
        if type == put_request
        then elim more [
          | [] ↦ (false, put_req rs index keyed)
          | value ∷ _ ↦ (true, put_req rs index (record keyed { v = atoi value }))
        ]
        else (true, put_req rs index keyed)
  ]

  -- `add_line_to_req`: whether it returns 0, and the requests.
  unfoldable pub add_line_to_req : Bytes → Requests → ℕ → Bool × Requests
  unfolding add_words
  add_line_to_req line rs index = add_words (tokens b' ' line) rs index

  -- The loop of `read_input_files` over the lines that end with a newline, from the index on. The
  -- last call of `fgets` reads what is behind the last newline; where that is nothing it leaves the
  -- buffer as it is, with the line before.
  unfoldable pub read_lines : List Bytes → Bytes → Bytes → Requests → ℕ → ℕ × Requests
  unfolding add_line_to_req
  read_lines [] last buffer rs index =
      let (ok, rs') = add_line_to_req (if length last == 0 then buffer else last) rs index in
      (if ok then index + 1 else index, rs')
  read_lines (line ∷ lines) last buffer rs index =
      let (ok, rs') = add_line_to_req line rs index in
      read_lines lines last line rs' (if ok then index + 1 else index)

-- `count_lines`
unfoldable pub count_lines : List Bytes → ℕ
count_lines lines = length lines

-- `sizeof(struct buffer_descriptor)`
abbrev pub descriptor_size : ℕ
descriptor_size = 20

-- `struct thread_context`, but for what changes.
pub record Context : Type 0 where
  pub num_reqs : ℕ
  pub win_size : ℕ
  pub comp_off : ℕ
  pub reqs : Requests

-- The context that `start_threads` prepares for a thread; `ring_bytes` is `sizeof(struct ring)`.
unfoldable pub thread_context : ℕ → Requests → ℕ → ℕ → ℕ → ℕ → Context
thread_context ring_bytes requests num_requests num_threads win_size tid = record {
  num_reqs = num_requests / num_threads;
  win_size = win_size;
  comp_off = ring_bytes + tid * win_size * descriptor_size;
  reqs = λ i. requests (tid * (num_requests / num_threads) + i);
}

-- `ring_submit` for a ring in which `n` descriptors wait: its effect on those from position `i` on.
unfoldable pub lapped : BufferDescriptor → ℕ → ℕ → List BufferDescriptor → List BufferDescriptor
lapped b n i [] = []
lapped b n i (x ∷ xs) = (if i % ring_size == n % ring_size then b else x) ∷ lapped b n (i + 1) xs

unfoldable pub ring_submit : BufferDescriptor → List BufferDescriptor → List BufferDescriptor
unfolding lapped
ring_submit b ring = lapped b (length ring) 0 ring ++ b ∷ []

-- The local variables of `thread_function`, `nxt_comp`, and the results.
pub record Client : Type 0 where
  pub last_completed : ℕ
  pub last_submitted : ℕ
  pub nxt_comp : ℕ
  pub res : ℕ → BufferDescriptor

-- A thread, the ring, and the server with the shared memory.
pub record System : Type 0 where
  pub client : Client
  pub ring : List BufferDescriptor
  pub server : ServerState

module _ (ctx : Context) where
  abbrev pub comp_at : ℕ → ℕ
  comp_at i = ctx.comp_off + i * descriptor_size

  -- The descriptor that `submit_reqs` fills for the request `i`.
  abbrev pub descriptor : ℕ → BufferDescriptor
  descriptor i = record {
    req_type = (ctx.reqs i).t;
    k = (ctx.reqs i).k;
    v = (ctx.reqs i).v;
    res_off = comp_at (i % ctx.win_size);
    ready = 0;
  }

  -- The body of the loop of `submit_reqs`, and the loop for at most `n` rounds.
  unfoldable pub submit_one : System → System
  unfolding ring_submit
  submit_one s = record s {
    client = record s.client { last_submitted = s.client.last_submitted + 1 };
    ring = ring_submit (descriptor s.client.last_submitted) s.ring;
  }

  abbrev pub may_submit : System → Bool
  may_submit s =
      ltb (s.client.last_submitted - s.client.last_completed) ctx.win_size
      && ltb s.client.last_submitted ctx.num_reqs

  unfoldable pub submit_reqs : ℕ → System → System
  unfolding submit_one
  submit_reqs zero s = s
  submit_reqs (suc n) s = elim (may_submit s) [ true ↦ submit_reqs n (submit_one s) | false ↦ s ]

  -- The body of the loop of `process_completions`, and the loop.
  unfoldable pub complete_one : System → System
  complete_one s =
      let at = comp_at s.client.nxt_comp in
      let done = record (s.server.slots at) { ready = 0 } in
      record s {
        client = record s.client {
          last_completed = s.client.last_completed + 1;
          nxt_comp = (s.client.nxt_comp + 1) % ctx.win_size;
          res = update s.client.res s.client.last_completed done;
        };
        server = record s.server { slots = update s.server.slots at done };
      }

  abbrev pub may_complete : System → Bool
  may_complete s = (s.server.slots (comp_at s.client.nxt_comp)).ready == 1

  unfoldable pub process_completions : ℕ → System → System
  unfolding complete_one
  process_completions zero s = s
  process_completions (suc n) s = elim (may_complete s) [
    | true ↦ process_completions n (complete_one s)
    | false ↦ s
  ]

-- The worker takes the next request and carries it out.
unfoldable pub work_one : System → System
work_one s = elim s.ring [ [] ↦ s | b ∷ rest ↦ record s { ring = rest; server = serve s.server b } ]

-- What may happen next: the rounds of the two loops of the thread, and the worker.
pub data Step (ctx : Context) : System → System → Type 0 where
  submit : (s : System) → may_submit ctx s ≡ true → Step ctx s (submit_one ctx s)
  work : (s : System) → s.ring ≢ [] → Step ctx s (work_one s)
  complete : (s : System) → may_complete ctx s ≡ true → Step ctx s (complete_one ctx s)

-- Reached after so many steps.
pub data Reach (ctx : Context) (s : System) : ℕ → System → Type 0 where
  here : Reach ctx s zero s
  next : {n : ℕ} {t u : System} → Reach ctx s n t → Step ctx t u → Reach ctx s (suc n) u

-- The loop of `check_results` from the request `i` on, for `n` rounds.
unfoldable pub check_results : Requests → (ℕ → BufferDescriptor) → (ℕ → ℕ) → ℕ → ℕ → ℕ → Bool
check_results requests results expected zero i exp_idx = true
check_results requests results expected (suc n) i exp_idx =
    let skip = check_results requests results expected n (i + 1) exp_idx in
    let rest = check_results requests results expected n (i + 1) (exp_idx + 1) in
    if not ((requests i).t == get_request)
    then skip
    else if (results i).v == expected exp_idx
    then rest
    else false
