-- ===== src/Kv/Ring.antt =====
-- The ring buffer of cs537/P6/ring_buffer.c: any number of threads in `ring_submit` and `ring_get`,
-- one shared access at a time, interleaved in any order.
pub mod Invariant
pub mod Delivery
pub mod Overrun
mod Tests
use schoolwork.Common.{
  ℕ, ◌+◌, ◌-◌, ◌%◌, ◌^◌, ◌≤◌, ◌<◌, ◌≡◌, ◌≢◌, Option, none, some, ltb, ◌==◌, if◌then◌else◌,
}
use schoolwork.Kv.Request.{BufferDescriptor}

abbrev pub ring_size : ℕ
ring_size = 1024

-- `struct ring`: four `atomic_uint` counters and the array, here a function of the index.
pub record Ring : Type 0 where
  pub p_tail : ℕ
  pub p_head : ℕ
  pub c_tail : ℕ
  pub c_head : ℕ
  pub buffer : ℕ → BufferDescriptor

abbrev zeroed : BufferDescriptor
zeroed = record { req_type = 0; k = 0; v = 0; res_off = 0; ready = 0 }

-- The `memset` of `init_ring`.
abbrev pub init_ring : Ring
init_ring = record { p_tail = 0; p_head = 0; c_tail = 0; c_head = 0; buffer = λ i. zeroed }

-- One more, in 32 bits.
abbrev pub next : ℕ → ℕ
next n = (n + 1) % 2 ^ 32

-- `n % RING_SIZE` for a counter held in an `int`: from 2 ^ 31 on the counter is negative, and so is
-- the remainder unless it is 0. `none` is an index outside the array.
abbrev pub slot : ℕ → Option ℕ
slot n =
    if ltb n (2 ^ 31)
    then some (n % ring_size)
    else if (2 ^ 32 - n) % ring_size == 0
    then some 0
    else none

abbrev pub update {ℓ} : {A : Type ℓ} → (ℕ → A) → ℕ → A → ℕ → A
update f i a j = if i == j then a else f j

-- The ring with a history variable that the code does not have: what was submitted under each
-- value of the producer head.
pub record Shared : Type 0 where
  pub ring : Ring
  pub submitted : ℕ → BufferDescriptor

-- Where a thread stands, with the local variables that are live there.
pub data Pc : Type 0 where
  idle : Pc
  submit : (bd : BufferDescriptor) → Pc  -- head of the loop of `ring_submit`
  saw_head : (bd : BufferDescriptor) (prod_head : ℕ) → Pc
  has_room : (bd : BufferDescriptor) (prod_head : ℕ) → Pc  -- before the compare-exchange
  claimed : (bd : BufferDescriptor) (prod_head : ℕ) → Pc  -- before the write to the array
  stored : (prod_head : ℕ) → Pc  -- waiting for the other producers
  publishing : (prod_head : ℕ) → Pc  -- before the addition to `p_tail`
  get : Pc  -- head of the loop of `ring_get`
  saw_cons : (cons_head : ℕ) → Pc
  has_item : (cons_head : ℕ) → Pc  -- before the compare-exchange
  taken : (cons_head : ℕ) → Pc  -- before the read of the array
  copied : (cons_head : ℕ) (bd : BufferDescriptor) → Pc  -- waiting for the other consumers
  releasing : (cons_head : ℕ) (bd : BufferDescriptor) → Pc  -- before the addition to `c_tail`

-- One step of one thread. From `idle` a thread may call either function.
pub data Move (m : Shared) : Pc → Shared → Pc → Type 0 where
  call_submit : {bd : BufferDescriptor} → Move m idle m (submit bd)
  load_p_head : {bd : BufferDescriptor} → Move m (submit bd) m (saw_head bd m.ring.p_head)
  full :
      {bd : BufferDescriptor} {h : ℕ}
      → next h ≡ m.ring.c_tail
      → Move m (saw_head bd h) m (submit bd)
  not_full :
      {bd : BufferDescriptor} {h : ℕ}
      → next h ≢ m.ring.c_tail
      → Move m (saw_head bd h) m (has_room bd h)
  claim :
      {bd : BufferDescriptor} {h : ℕ}
      → m.ring.p_head ≡ h
      → Move m
          (has_room bd h)
          (record {
            ring = record (m.ring) { p_head = next h };
            submitted = update m.submitted h bd;
          })
          (claimed bd h)
  lose_claim :
      {bd : BufferDescriptor} {h : ℕ} → m.ring.p_head ≢ h → Move m (has_room bd h) m (submit bd)
  write :
      {bd : BufferDescriptor} {h i : ℕ}
      → slot h ≡ some i
      → Move m
          (claimed bd h)
          (record m { ring = record (m.ring) { buffer = update m.ring.buffer i bd } })
          (stored h)
  wait_producers : {h : ℕ} → m.ring.p_tail ≢ h → Move m (stored h) m (stored h)
  see_p_tail : {h : ℕ} → m.ring.p_tail ≡ h → Move m (stored h) m (publishing h)
  publish :
      {h : ℕ}
      → Move m
          (publishing h)
          (record m { ring = record (m.ring) { p_tail = next m.ring.p_tail } })
          idle
  call_get : Move m idle m get
  load_c_head : Move m get m (saw_cons m.ring.c_head)
  empty : {h : ℕ} → h ≡ m.ring.p_tail → Move m (saw_cons h) m get
  not_empty : {h : ℕ} → h ≢ m.ring.p_tail → Move m (saw_cons h) m (has_item h)
  take_item :
      {h : ℕ}
      → m.ring.c_head ≡ h
      → Move m (has_item h) (record m { ring = record (m.ring) { c_head = next h } }) (taken h)
  lose_item : {h : ℕ} → m.ring.c_head ≢ h → Move m (has_item h) m get
  read : {h i : ℕ} → slot h ≡ some i → Move m (taken h) m (copied h (m.ring.buffer i))
  wait_consumers :
      {h : ℕ} {bd : BufferDescriptor} → m.ring.c_tail ≢ h → Move m (copied h bd) m (copied h bd)
  see_c_tail :
      {h : ℕ} {bd : BufferDescriptor} → m.ring.c_tail ≡ h → Move m (copied h bd) m (releasing h bd)
  release :
      {h : ℕ} {bd : BufferDescriptor}
      → Move m
          (releasing h bd)
          (record m { ring = record (m.ring) { c_tail = next m.ring.c_tail } })
          idle

pub record System : Type 0 where
  pub mem : Shared
  pub pc : ℕ → Pc

pub data Step (s : System) : System → Type 0 where
  pick :
      (i : ℕ) {m : Shared} {p : Pc}
      → Move s.mem (s.pc i) m p
      → Step s (record { mem = m; pc = update s.pc i p })

abbrev pub start_state : System
start_state = record { mem = record { ring = init_ring; submitted = λ i. zeroed }; pc = λ i. idle }

pub data Reach : System → Type 0 where
  start : Reach start_state
  later : {s t : System} → Reach s → Step s t → Reach t

-- At most `ring_size` requests are in flight, and the counters have not left the positive `int`s.
pub record HasRoom (s : System) : Type 0 where
  pub in_flight : s.mem.ring.p_head ≤ s.mem.ring.c_tail + ring_size
  pub counters : s.mem.ring.p_head < 2 ^ 31

-- Every state of a run has room.
abbrev pub KeepsRoom : {s : System} → Reach s → Type 0
KeepsRoom start = Unit
KeepsRoom (later {t = t} r st) = KeepsRoom r × HasRoom t
