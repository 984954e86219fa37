-- ===== src/Kv/Ring/Tests.antt =====
-- Runs of the ring, and its theorems at them.
use schoolwork.Common.{ℕ, ◌+◌, ◌^◌, ◌≤◌, ◌<◌, ◌≡◌, refl, arith}
use schoolwork.Kv.Request.{BufferDescriptor}
use schoolwork.Kv.Ring.{
  ring_size, Shared, update, System, pick, Reach, start, later, KeepsRoom, start_state, Pc, submit,
  Move, call_submit, load_p_head, not_full, claim, write, see_p_tail, publish, call_get,
  load_c_head, not_empty, take_item, read,
}
use schoolwork.Kv.Ring.Delivery.{delivered}
use schoolwork.Kv.Ring.Overrun.{Steps, submit_overruns}

abbrev request : BufferDescriptor
request = record { req_type = 0; k = 5; v = 7; res_off = 64; ready = 0 }

-- A run with a proof that it keeps room.
record Run : Type 0 where
  state : System
  reach : Reach state
  roomy : KeepsRoom reach

abbrev extend :
    (i : ℕ) (r : Run) {m : Shared} {p : Pc}
    → Move (r.state.mem) (r.state.pc i) m p
    → (m.ring.p_head ≤ m.ring.c_tail + ring_size) × (m.ring.p_head < 2 ^ 31)
    → Run
extend i r {m} {p} mv h = record {
  state = record { mem = m; pc = update (r.state.pc) i p };
  reach = later r.reach (pick i mv);
  roomy = (r.roomy, record { in_flight = h.0; counters = h.1 });
}

abbrev begun : Run
begun = record { state = start_state; reach = start; roomy = tt }

abbrev small : (n : ℕ) → n < 2 → (n ≤ 0 + ring_size) × (n < 2 ^ 31)
small n h = (omega arith, omega arith)

-- Thread 0 holds place 0 and has written to it.
abbrev one_stored : Run
one_stored =
    extend 0
      (extend 0
        (extend 0
          (extend 0 (extend 0 begun (call_submit {bd = request}) (small 0 (omega arith)))
            load_p_head (small 0 (omega arith)))
          (not_full (omega arith)) (small 0 (omega arith)))
        (claim refl) (small 1 (omega arith)))
      (write {i = 0} refl) (small 1 (omega arith))

-- Thread 1 has copied the item out.
abbrev one_copied : Run
one_copied =
    extend 1
      (extend 1
        (extend 1
          (extend 1
            (extend 1
              (extend 0 (extend 0 one_stored (see_p_tail refl) (small 1 (omega arith))) publish
                (small 1 (omega arith)))
              call_get (small 1 (omega arith)))
            load_c_head (small 1 (omega arith)))
          (not_empty (omega arith)) (small 1 (omega arith)))
        (take_item refl) (small 1 (omega arith)))
      (read {i = 0} refl) (small 1 (omega arith))

delivered_example : (request ≡ request) × (0 < 1) × (1 ≤ 1)
delivered_example = delivered one_copied.reach one_copied.roomy 1 0 request refl

-- As many items are in flight as the array has elements, and thread 0 submits one more.
abbrev full_ring : System
full_ring = record {
  mem = record {
    ring = record {
      p_tail = ring_size;
      p_head = ring_size;
      c_tail = 0;
      c_head = 0;
      buffer = λ i. request;
    };
    submitted = λ i. request;
  };
  pc = λ i. submit (record request { k = 6 });
}

submit_overruns_example :
    (t : System) × Steps full_ring t
    × (t.mem.ring.buffer 0 ≡ record request { k = 6 })
    × (t.mem.ring.c_tail ≡ 0)
    × (t.mem.ring.c_head ≡ 0)
submit_overruns_example =
    submit_overruns full_ring 0 (record request { k = 6 }) refl refl (omega arith)
