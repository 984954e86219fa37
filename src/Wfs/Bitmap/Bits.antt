-- ===== src/Wfs/Bitmap/Bits.antt =====
-- Single bits of a byte, from a table of all bytes and bit positions.
use schoolwork.Common.{
  ℕ, zero, suc, ◌-◌, ◌%◌, ◌^◌, ◌<◌, bit_and, bit_or, ◌≡◌, refl, sym, Bool, true, false, not, arith,
  ◌==◌, if◌then◌else◌, inl, inr, Bool-cases,
}
use native.Mathlib.Decide.{ℕ_discrete}

-- Whether a test holds at every number below a bound.
holds : (ℕ → Bool) → ℕ → Bool
holds p zero = true
holds p (suc n) = let rest = holds p n in if p n then rest else false

holds-at : (p : ℕ → Bool) (n : ℕ) → holds p n ≡ true → {x : ℕ} → x < n → p x ≡ true
unfolding holds
holds-at p zero all lt = absurd (omega arith)
holds-at p (suc n) all {x} lt = elim (Bool-cases (p n)) [
  | inr off ↦ absurd (ground (arith, off))
  | inl top ↦ elim (ℕ_discrete x n) [
    | yes e ↦ rw e top
    | no ne ↦ holds-at p n (ground (arith, top)) (omega arith)
  ]
]

-- The bit of a byte.
abbrev pub bit : ℕ → ℕ → Bool
bit x k = not (bit_and x (2 ^ k) == 0)

abbrev same : Bool → Bool → Bool
same true b = b
same false b = not b

same_sound : (a b : Bool) → same a b ≡ true → a ≡ b
same_sound true b h = sym h
same_sound false true h = absurd (cc)
same_sound false false h = refl

abbrev set_row : ℕ → ℕ → ℕ → Bool
set_row x k j = same (bit (bit_or x (2 ^ k) % 256) j) (if k == j then true else bit x j)

set_table : holds (λ x. holds (λ k. holds (set_row x k) 8) 8) 256 ≡ true
unfolding holds
set_table = refl

abbrev clear_row : ℕ → ℕ → ℕ → Bool
clear_row x k j = same (bit (bit_and x (255 - 2 ^ k) % 256) j) (if k == j then false else bit x j)

clear_table : holds (λ x. holds (λ k. holds (clear_row x k) 8) 8) 256 ≡ true
unfolding holds
clear_table = refl

pub bit-set :
    (x k j : ℕ)
    → x < 256
    → k < 8
    → j < 8
    → bit (bit_or x (2 ^ k) % 256) j ≡ (if k == j then true else bit x j)
bit-set x k j hx hk hj = same_sound _ _ (
    holds-at (set_row x k) 8
      (holds-at (λ k. holds (set_row x k) 8) 8
        (holds-at (λ x. holds (λ k. holds (set_row x k) 8) 8) 256 set_table hx) hk)
      hj)

pub bit-clear :
    (x k j : ℕ)
    → x < 256
    → k < 8
    → j < 8
    → bit (bit_and x (255 - 2 ^ k) % 256) j ≡ (if k == j then false else bit x j)
bit-clear x k j hx hk hj = same_sound _ _ (
    holds-at (clear_row x k) 8
      (holds-at (λ k. holds (clear_row x k) 8) 8
        (holds-at (λ x. holds (λ k. holds (clear_row x k) 8) 8) 256 clear_table hx) hk)
      hj)
