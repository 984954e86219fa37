-- ===== src/Kv/Ring/Delivery.antt =====
-- What the ring promises while it has room: threads in the array are apart, and each consumer gets
-- what was submitted under the place that it took.
use schoolwork.Common.{ℕ, ◌%◌, ◌≤◌, ◌<◌, ◌≡◌, subst, ◌≢◌, some, arith}
use schoolwork.Kv.Request.{BufferDescriptor}
use schoolwork.Kv.Ring.{ring_size, System, Reach, KeepsRoom, Pc, claimed, taken, copied}
use schoolwork.Kv.Ring.Invariant.{producing, consuming, Local, Reach-Inv, slots_differ}

producing_bounds :
    (s : System) (p : Pc) (h : ℕ)
    → Local s.mem p
    → producing p ≡ some h
    → (s.mem.ring.p_tail ≤ h) × (h < s.mem.ring.p_head)
producing_bounds s (claimed bd g) h l e = ground arith
producing_bounds s p h l e = ground arith

consuming_bounds :
    (s : System) (p : Pc) (h : ℕ)
    → Local s.mem p
    → consuming p ≡ some h
    → (s.mem.ring.c_tail ≤ h) × (h < s.mem.ring.c_head)
consuming_bounds s (taken g) h l e = ground arith
consuming_bounds s p h l e = ground arith

module _ {s : System} (r : Reach s) (room : KeepsRoom r) where
  open (Reach-Inv r room) use {ordered, stored_at, local, apart}
  open ordered use {consumers, published, producers, in_flight, counters}

  -- In a state that is reached by a run that kept room: two producers that both hold a place have
  -- different elements of the array.
  pub producers_apart :
      (i j g h : ℕ)
      → i ≢ j
      → producing (s.pc i) ≡ some g
      → producing (s.pc j) ≡ some h
      → g % ring_size ≢ h % ring_size
  producers_apart i j g h ne pi pj =
      let bi = producing_bounds s (s.pc i) g (local i) pi in
      let bj = producing_bounds s (s.pc j) h (local j) pj in
      slots_differ g h (omega (arith, consumers, published, producers, in_flight))
        (omega (arith, consumers, published, producers, in_flight))
        λ e. (apart i j ne).0 g pi (rw e pj)

  -- In a state that is reached by a run that kept room: a producer and a consumer that both hold a
  -- place have different elements of the array.
  pub producer_consumer_apart :
      (i j g h : ℕ)
      → producing (s.pc i) ≡ some g
      → consuming (s.pc j) ≡ some h
      → g % ring_size ≢ h % ring_size
  producer_consumer_apart i j g h pi cj =
      let bi = producing_bounds s (s.pc i) g (local i) pi in
      let bj = consuming_bounds s (s.pc j) h (local j) cj in
      slots_differ g h (omega (arith, consumers, published, producers, in_flight))
        (omega (arith, consumers, published, producers, in_flight))
        (omega (arith, consumers, published, producers, in_flight))

  -- In a state that is reached by a run that kept room: two consumers that both hold a place have
  -- different places.
  pub consumers_apart :
      (i j g h : ℕ) → i ≢ j → consuming (s.pc i) ≡ some g → consuming (s.pc j) ≡ some h → g ≢ h
  consumers_apart i j g h ne ci cj e = (apart i j ne).1 g ci (rw e cj)

  -- In a state that is reached by a run that kept room (at most `ring_size` requests in flight,
  -- counters below 2 ^ 31): the descriptor that a consumer has copied out is the one that was
  -- submitted under its place, the place lies below the consumer head, and the consumer head is not
  -- past the producer tail.
  pub delivered :
      (i h : ℕ) (bd : BufferDescriptor)
      → s.pc i ≡ copied h bd
      → (bd ≡ s.mem.submitted h) × (h < s.mem.ring.c_head) × (s.mem.ring.c_head ≤ s.mem.ring.p_tail)
  delivered i h bd e = let l = subst (Local s.mem) e (local i) in (l.2, l.1, published)
