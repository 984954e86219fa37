-- ===== src/Sched/Nice.antt =====
-- The range of priorities.
use schoolwork.Common.{◌≡◌, refl, inl, inr, false, ◌&&◌, some, arith, if◌then◌else◌, Bool-cases}
use schoolwork.Common.Int.{ℤ, pos, negsuc, ltb_ℤ, ◌+ℤ◌, signed32, unsigned}
use schoolwork.Sched.{Proc, sys_nice}

-- From -20 up to 19.
abbrev pub InRange : ℤ → Type 0
InRange a = (ltb_ℤ a (negsuc 19) ≡ false) × (ltb_ℤ (pos 19) a ≡ false)

clamp-InRange :
    (a : ℤ)
    → InRange (if ltb_ℤ a (negsuc 19) then negsuc 19 else if ltb_ℤ (pos 19) a then pos 19 else a)
clamp-InRange a = elim (Bool-cases (ltb_ℤ a (negsuc 19))) [
  | inl low ↦ rw low (refl, refl)
  | inr ok ↦ elim (Bool-cases (ltb_ℤ (pos 19) a)) [
    | inl high ↦ rw (ok, high) (refl, refl)
    | inr fine ↦ rw (ok, fine) (ok, fine)
  ]
]

never : (inc : ℤ) → (ltb_ℤ inc (negsuc 38) && ltb_ℤ (pos 39) inc) ≡ false
never (pos n) = ground arith
never (negsuc n) = ground arith

-- Whatever number is passed, `sys_nice` returns 0 and leaves the process with a priority from -20
-- up to 19, with the same elevated number and in the same state.
pub sys_nice-InRange :
    (p : Proc) (inc : ℤ)
    → ((sys_nice p (some inc)).0 ≡ pos 0)
      × InRange (sys_nice p (some inc)).1.priority
      × ((sys_nice p (some inc)).1.elevated ≡ (sys_nice p (some inc)).1.priority)
      × ((sys_nice p (some inc)).1.state ≡ p.state)
unfolding sys_nice
sys_nice-InRange p inc =
    rw (never inc) (refl, clamp-InRange (signed32 (unsigned 32 (p.priority +ℤ inc))), refl, refl)
