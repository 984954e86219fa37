-- ===== src/Kv/Ring/Invariant.antt =====
-- The invariant of the ring: the order of its counters, what each thread may rely on where it
-- stands, and that no two threads hold the same place.
use schoolwork.Common.{
  ℕ, ◌+◌, ◌%◌, ◌^◌, ◌≤◌, ◌<◌, ◌≡◌, ◌≢◌, inl, inr, Option, none, some, arith, ◌==◌, Bool-cases,
}
use schoolwork.Kv.Request.{BufferDescriptor}
use schoolwork.Kv.Ring.{
  ring_size, Ring, Shared, next, slot, update, System, pick, Reach, start, later, KeepsRoom,
  start_state, Pc, claimed, stored, publishing, saw_cons, has_item, taken, copied, releasing, Move,
  full, claim, write, see_p_tail, publish, not_empty, take_item, read, see_c_tail, release,
}

-- The place in the array that a producer, or a consumer, holds at a program point.
abbrev pub producing : Pc → Option ℕ
producing (claimed bd h) = some h
producing (stored h) = some h
producing (publishing h) = some h
producing _ = none

abbrev pub consuming : Pc → Option ℕ
consuming (taken h) = some h
consuming (copied h bd) = some h
consuming (releasing h bd) = some h
consuming _ = none

-- What holds of the thread at a program point.
abbrev pub Local : Shared → Pc → Type 0
Local m (claimed bd h) = (m.ring.p_tail ≤ h) × (h < m.ring.p_head) × (m.submitted h ≡ bd)
Local m (stored h) =
    (m.ring.p_tail ≤ h) × (h < m.ring.p_head) × (m.ring.buffer (h % ring_size) ≡ m.submitted h)
Local m (publishing h) =
    (m.ring.p_tail ≡ h) × (h < m.ring.p_head) × (m.ring.buffer (h % ring_size) ≡ m.submitted h)
Local m (saw_cons h) = h ≤ m.ring.c_head
Local m (has_item h) = h < m.ring.p_tail
Local m (taken h) = (m.ring.c_tail ≤ h) × (h < m.ring.c_head)
Local m (copied h bd) = (m.ring.c_tail ≤ h) × (h < m.ring.c_head) × (bd ≡ m.submitted h)
Local m (releasing h bd) = (m.ring.c_tail ≡ h) × (h < m.ring.c_head) × (bd ≡ m.submitted h)
Local m _ = Unit

pub record Ordered (r : Ring) : Type 0 where
  pub consumers : r.c_tail ≤ r.c_head
  pub published : r.c_head ≤ r.p_tail
  pub producers : r.p_tail ≤ r.p_head
  pub in_flight : r.p_head ≤ r.c_tail + ring_size
  pub counters : r.p_head < 2 ^ 31

-- Every published place that is not released holds what was submitted for it.
abbrev pub Stored : Shared → ℕ → Type 0
Stored m h = m.ring.c_tail ≤ h → h < m.ring.p_tail → m.ring.buffer (h % ring_size) ≡ m.submitted h

-- Two program points of different threads hold different places.
abbrev pub Apart : Pc → Pc → Type 0
Apart p q =
    ((h : ℕ) → producing p ≡ some h → producing q ≡ some h → ⊥)
    × ((h : ℕ) → consuming p ≡ some h → consuming q ≡ some h → ⊥)

pub record Inv (m : Shared) (pc : ℕ → Pc) : Type 0 where
  pub ordered : Ordered m.ring
  pub stored_at : (h : ℕ) → Stored m h
  pub local : (i : ℕ) → Local m (pc i)
  pub apart : (i j : ℕ) → i ≢ j → Apart (pc i) (pc j)

-- Two places at most an array apart share an index only if they are the same.
pub slots_differ :
    (g h : ℕ) → g < h + ring_size → h < g + ring_size → g ≢ h → g % ring_size ≢ h % ring_size
slots_differ g h a b ne = omega arith

slot_of : (h i : ℕ) → h < 2 ^ 31 → slot h ≡ some i → i ≡ h % ring_size
slot_of h i lt e = ground arith

-- The test that a step has passed.
abbrev Premise : {m m' : Shared} {p p' : Pc} → Move m p m' p' → Type 0
Premise {m} (full {h = h} e) = next h ≡ m.ring.c_tail
Premise {m} (claim {h = h} e) = m.ring.p_head ≡ h
Premise {m} (write {h = h} {i = i} e) = slot h ≡ some i
Premise {m} (see_p_tail {h = h} e) = m.ring.p_tail ≡ h
Premise {m} (not_empty {h = h} e) = h ≢ m.ring.p_tail
Premise {m} (take_item {h = h} e) = m.ring.c_head ≡ h
Premise {m} (read {h = h} {i = i} e) = slot h ≡ some i
Premise {m} (see_c_tail {h = h} e) = m.ring.c_tail ≡ h
Premise _ = Unit

premise : {m m' : Shared} {p p' : Pc} (mv : Move m p m' p') → Premise mv
premise (full e) = e
premise (claim e) = e
premise (write e) = e
premise (see_p_tail e) = e
premise (not_empty e) = e
premise (take_item e) = e
premise (read e) = e
premise (see_c_tail e) = e
premise _ = tt

Move-Ordered :
    {m m' : Shared} {p p' : Pc}
    → Move m p m' p'
    → Ordered m.ring
    → Local m p
    → m'.ring.p_head ≤ m'.ring.c_tail + ring_size
    → m'.ring.p_head < 2 ^ 31
    → Ordered m'.ring
Move-Ordered (claim e) o l a b = omega arith
Move-Ordered mv o l a b = ground (arith, premise mv)

-- The mover's own program point.
Move-Local :
    {m m' : Shared} {p p' : Pc}
    → Move m p m' p'
    → Ordered m.ring
    → ((h : ℕ) → Stored m h)
    → Local m p
    → Local m' p'
Move-Local (claim e) o st l = ground arith
Move-Local (write {h = h} {i = i} e) o st l = ground (arith, slot_of h i)
Move-Local (read {h = h} {i = i} e) o st l = ground (arith, slot_of h i, st h)
Move-Local mv o st l = ground (arith, premise mv)

-- A write to the array leaves the places of the other producers alone.
write_other :
    (m : Shared) (bd : BufferDescriptor) (h i : ℕ) (q : Pc)
    → slot h ≡ some i
    → Ordered m.ring
    → Local m (claimed bd h)
    → Apart (claimed bd h) q
    → Local m q
    → Local (record m { ring = record (m.ring) { buffer = update m.ring.buffer i bd } }) q
write_other m bd h i (stored g) e o l far k = ground (arith, slot_of h i, slots_differ h g, far.0 g)
write_other m bd h i (publishing g) e o l far k =
    ground (arith, slot_of h i, slots_differ h g, far.0 g)
write_other m bd h i q e o l far k = k

-- The program point of another thread.
Move-Local_other :
    {m m' : Shared} {p p' : Pc} (q : Pc)
    → Move m p m' p'
    → Ordered m.ring
    → Ordered m'.ring
    → Local m p
    → Apart p q
    → Local m q
    → Local m' q
Move-Local_other q (claim {h = h} e) o o' l far k = ground (arith)
Move-Local_other q (write {h = h} {i = i} e) o o' l far k = write_other _ _ h i q e o l far k
Move-Local_other q (publish {h = h}) o o' l far k = ground (arith, far.0 h)
Move-Local_other q (take_item {h = h} e) o o' l far k = ground arith
Move-Local_other q (release {h = h}) o o' l far k = ground (arith, far.1 h)
Move-Local_other q mv o o' l far k = k

Move-Stored :
    {m m' : Shared} {p p' : Pc}
    → Move m p m' p'
    → Ordered m.ring
    → Ordered m'.ring
    → Local m p
    → ((h : ℕ) → Stored m h)
    → (g : ℕ) → Stored m' g
Move-Stored (claim {h = h} e) o o' l st g a b = ground (arith, st g)
Move-Stored (write {h = h} {i = i} e) o o' l st g a b =
    ground (arith, st g, slot_of h i, slots_differ h g)
Move-Stored (publish {h = h}) o o' l st g a b = ground (arith, st g)
Move-Stored (release {h = h}) o o' l st g a b = ground (arith, st g)
Move-Stored mv o o' l st g a b = st g a b

Move-Apart :
    {m m' : Shared} {p p' : Pc} (q : Pc) → Move m p m' p' → Local m q → Apart p q → Apart p' q
Move-Apart q (claim {h = h} e) k far = (λ g a b. ground arith, λ g a b. ground arith)
Move-Apart q (take_item {h = h} e) k far = (λ g a b. ground arith, λ g a b. ground arith)
Move-Apart q mv k far = (λ g a b. ground (arith, far.0 g), λ g a b. ground (arith, far.1 g))

Apart-sym : (p q : Pc) → Apart p q → Apart q p
Apart-sym p q a = (λ h x y. a.0 h y x, λ h x y. a.1 h y x)

module _ {m : Shared} {pc : ℕ → Pc} (inv : Inv m pc) (i : ℕ) where
  open inv use {ordered, stored_at, local, apart}

  Move-Inv :
      {m' : Shared} {p' : Pc}
      → Move m (pc i) m' p'
      → m'.ring.p_head ≤ m'.ring.c_tail + ring_size
      → m'.ring.p_head < 2 ^ 31
      → Inv m' (update pc i p')
  Move-Inv {m'} {p'} mv room low = record {
    ordered = ordered';
    stored_at = Move-Stored mv ordered ordered' (local i) stored_at;
    local = local';
    apart = apart';
  }
    where
      ordered' : Ordered m'.ring
      ordered' = Move-Ordered mv ordered (local i) room low

      local' : (j : ℕ) → Local m' (update pc i p' j)
      local' j = elim (Bool-cases (i == j)) [
        | inl e ↦ rw e (Move-Local mv ordered stored_at (local i))
        | inr e ↦ rw e (
            Move-Local_other (pc j) mv ordered ordered' (local i) (apart i j (ground arith))
              (local j))
      ]

      apart' : (j k : ℕ) → j ≢ k → Apart (update pc i p' j) (update pc i p' k)
      apart' j k ne = elim (Bool-cases (i == j)) [
        | inl e ↦ elim (Bool-cases (i == k)) [
          | inl f ↦ absurd (ground arith)
          | inr f ↦ rw (e, f) (Move-Apart (pc k) mv (local k) (apart i k (ground arith)))
        ]
        | inr e ↦ elim (Bool-cases (i == k)) [
          | inl f ↦
              rw (e, f)
                (Apart-sym p' (pc j) (Move-Apart (pc j) mv (local j) (apart i j (ground arith))))
          | inr f ↦ rw (e, f) (apart j k ne)
        ]
      ]

start-Inv : Inv start_state.mem start_state.pc
start-Inv = record {
  ordered = omega arith;
  stored_at = λ h a b. absurd (omega arith);
  local = λ i. tt;
  apart = λ i j ne. (λ h a b. ground arith, λ h a b. ground arith);
}

pub Reach-Inv : {s : System} (r : Reach s) → KeepsRoom r → Inv s.mem s.pc
Reach-Inv start room = start-Inv
Reach-Inv (later r (pick i mv)) room =
    Move-Inv (Reach-Inv r room.0) i mv room.1.in_flight room.1.counters
