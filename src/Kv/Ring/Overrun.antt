-- ===== src/Kv/Ring/Overrun.antt =====
-- `ring_submit` takes the ring for full only when the head comes round to the tail in 32 bits, so
-- with `ring_size` requests in flight it overwrites the oldest.
use schoolwork.Common.{ℕ, ◌+◌, ◌%◌, ◌^◌, ◌<◌, ◌≡◌, refl, arith}
use schoolwork.Kv.Request.{BufferDescriptor}
use schoolwork.Kv.Ring.{
  ring_size, Shared, update, System, Step, pick, Pc, submit, saw_head, has_room, Move, load_p_head,
  not_full, claim, write,
}

pub data Steps (s : System) : System → Type 0 where
  here : Steps s s
  and_then : {t u : System} → Steps s t → Step t u → Steps s u

Step-to :
    {s : System} (i : ℕ) {p p' : Pc} {m : Shared}
    → s.pc i ≡ p
    → Move s.mem p m p'
    → Step s (record { mem = m; pc = update s.pc i p' })
Step-to i e mv = pick i (rw e mv)

update_self : (f : ℕ → Pc) (i : ℕ) (p : Pc) → update f i p i ≡ p
update_self f i p = ground arith

-- With as many requests in flight as the array has elements, and the producer head below 2 ^ 31, a
-- producer at the start of `ring_submit` can get through without any consumer moving, and its
-- descriptor is then in the element of the oldest request.
pub submit_overruns :
    (s : System) (i : ℕ) (bd : BufferDescriptor)
    → s.pc i ≡ submit bd
    → s.mem.ring.p_head ≡ s.mem.ring.c_tail + ring_size
    → s.mem.ring.p_head < 2 ^ 31
    → (t : System) × Steps s t
      × (t.mem.ring.buffer (s.mem.ring.c_tail % ring_size) ≡ bd)
      × (t.mem.ring.c_tail ≡ s.mem.ring.c_tail)
      × (t.mem.ring.c_head ≡ s.mem.ring.c_head)
submit_overruns s i bd e full low = (
  _,
  and_then
      (and_then
        (and_then (and_then here (Step-to i e load_p_head))
          (Step-to i (update_self (s.pc) i _) (not_full (omega arith))))
        (Step-to i (update_self (update (s.pc) i (saw_head bd h)) i _) (claim refl)))
      (Step-to i (update_self (update (update (s.pc) i (saw_head bd h)) i (has_room bd h)) i _)
        (write {i = s.mem.ring.p_head % ring_size} (ground arith))),
  ground arith,
  refl,
  refl,
)
  where
    h : ℕ
    h = s.mem.ring.p_head
