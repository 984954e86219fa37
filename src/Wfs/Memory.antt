-- ===== src/Wfs/Memory.antt =====
-- The mapped disk image: a byte at each offset from its start. Numbers are stored with the low
-- byte first; strings end with a NUL byte.
pub mod Frames
use schoolwork.Common.{
  ℕ, zero, suc, ◌+◌, ◌*◌, ◌/◌, ◌%◌, Bool, ◌&&◌, Option, none, some, [], ◌∷◌, ltb, leb, ◌==◌,
  if◌then◌else◌,
}
use schoolwork.Common.Bytes.{Bytes}

abbrev pub Mem : Type 0
Mem = ℕ → ℕ

unfoldable pub write_byte : Mem → ℕ → ℕ → Mem
write_byte m a v b = if a == b then v % 256 else m b

-- An integer of `n` bytes.
unfoldable pub load : ℕ → Mem → ℕ → ℕ
load zero m a = 0
load (suc n) m a = m a + 256 * load n m (a + 1)

unfoldable pub store : ℕ → Mem → ℕ → ℕ → Mem
unfolding write_byte
store zero m a v = m
store (suc n) m a v = store n (write_byte m a v) (a + 1) (v / 256)

-- `memset (a, 0, n)`
unfoldable pub clear : Mem → ℕ → ℕ → Mem
clear m a n b = if leb a b && ltb b (a + n) then 0 else m b

-- `memcpy` of a buffer to the image, and from it.
unfoldable pub write_bytes : Mem → ℕ → Bytes → Mem
unfolding write_byte
write_bytes m a [] = m
write_bytes m a (v ∷ vs) = write_bytes (write_byte m a v) (a + 1) vs

unfoldable pub read_bytes : Mem → ℕ → ℕ → Bytes
read_bytes m a zero = []
read_bytes m a (suc n) = m a ∷ read_bytes m (a + 1) n

-- `strcmp` of a string in the image with another is 0.
unfoldable pub str_eq_at : Mem → ℕ → Bytes → Bool
str_eq_at m a [] = m a == 0
str_eq_at m a (c ∷ s) = (m a == c) && str_eq_at m (a + 1) s

-- The string at an address, of at most `n` bytes.
unfoldable pub string_at : Mem → ℕ → ℕ → Bytes
string_at m a zero = []
string_at m a (suc n) = let rest = string_at m (a + 1) n in if m a == 0 then [] else m a ∷ rest

-- A computation on the image; `none` is a fault, an access before the start of the image.
abbrev pub Io : Type 0 → Type 0
Io A = Mem → Option (A × Mem)

infixl 5 ◌>>=◌ ◌>>◌
abbrev pub ◌>>=◌ : {A B : Type 0} → Io A → (A → Io B) → Io B
◌>>=◌ c f m = elim (c m) [ none ↦ none | some (a, m') ↦ f a m' ]

abbrev pub ◌>>◌ : {B : Type 0} → Io (Unit {0}) → Io B → Io B
c >> k = c >>= λ _. k

abbrev pub pure : {A : Type 0} → A → Io A
pure a m = some (a, m)

abbrev pub fault : {A : Type 0} → Io A
fault m = none

abbrev pub fetch : ℕ → ℕ → Io ℕ
fetch n a m = some (load n m a, m)

abbrev pub put : ℕ → ℕ → ℕ → Io (Unit {0})
put n a v m = some (tt, store n m a v)

abbrev pub modify : (Mem → Mem) → Io (Unit {0})
modify f m = some (tt, f m)

abbrev pub ask : {A : Type 0} → (Mem → A) → Io A
ask f m = some (f m, m)

abbrev pub need : {A : Type 0} → Option A → Io A
need none = fault
need (some a) = pure a
