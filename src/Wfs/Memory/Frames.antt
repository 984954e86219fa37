-- ===== src/Wfs/Memory/Frames.antt =====
-- What a store changes, and what it leaves alone.
use schoolwork.Common.{
  ℕ, zero, suc, ◌+◌, ◌/◌, ◌%◌, ◌^◌, ◌≤◌, ◌<◌, ◌≡◌, refl, ◌∙◌, ◌≢◌, ◌⊎◌, inl, [], ◌∷◌, arith, length,
  All,
}
use native.Mathlib.Nat.{pow-suc}
use schoolwork.Common.Bytes.{Bytes}
use schoolwork.Wfs.Memory.{Mem, write_byte, load, store, clear, write_bytes, read_bytes}

-- Every cell holds a byte.
abbrev pub IsImage : Mem → Type 0
IsImage m = (a : ℕ) → m a < 256

pub write_byte-IsImage : (m : Mem) (a v : ℕ) → IsImage m → IsImage (write_byte m a v)
unfolding write_byte
write_byte-IsImage m a v h b = ground (arith, h b)

pub write_byte-other : (m : Mem) (a v b : ℕ) → a ≢ b → write_byte m a v b ≡ m b
unfolding write_byte
write_byte-other m a v b ne = ground arith

pub store-IsImage : (n : ℕ) (m : Mem) (a v : ℕ) → IsImage m → IsImage (store n m a v)
unfolding store
store-IsImage zero m a v h = h
store-IsImage (suc n) m a v h =
    store-IsImage n (write_byte m a v) (a + 1) (v / 256) (write_byte-IsImage m a v h)

pub store-other : (n : ℕ) (m : Mem) (a v b : ℕ) → (b < a) ⊎ (a + n ≤ b) → store n m a v b ≡ m b
unfolding store
store-other zero m a v b h = refl
store-other (suc n) m a v b h =
    store-other n (write_byte m a v) (a + 1) (v / 256) b (omega arith)
    ∙ write_byte-other m a v b (omega arith)

pub load-agree :
    (n : ℕ) (m m' : Mem) (a : ℕ)
    → ((b : ℕ) → a ≤ b → b < a + n → m b ≡ m' b)
    → load n m a ≡ load n m' a
unfolding load
load-agree zero m m' a h = refl
load-agree (suc n) m m' a h = omega (
  arith,
  h a (omega arith) (omega arith),
  load-agree n m m' (a + 1) (λ b x y. h b (omega arith) (omega arith)),
)

-- A number read back from where it was stored.
pub load-store : (n : ℕ) (m : Mem) (a v : ℕ) → v < 256 ^ n → load n (store n m a v) a ≡ v
unfolding load store
load-store zero m a v h = omega arith
load-store (suc n) m a v h =
    omega (arith, first, load-store n (write_byte m a v) (a + 1) (v / 256) small)
  where
    first : store n (write_byte m a v) (a + 1) (v / 256) a ≡ v % 256
    first =
        store-other n (write_byte m a v) (a + 1) (v / 256) a (inl (omega arith))
        ∙ (unfold write_byte in ground arith)

    small : v / 256 < 256 ^ n
    small = omega (arith, pow-suc 256 n)

-- A number that lies apart from a store is not changed by it.
pub load-store_apart :
    (k n : ℕ) (m : Mem) (a b v : ℕ)
    → (a + k ≤ b) ⊎ (b + n ≤ a)
    → load k (store n m b v) a ≡ load k m a
load-store_apart k n m a b v h =
    load-agree k (store n m b v) m a λ c x y. store-other n m b v c (omega arith)

pub load-write_byte_apart :
    (k : ℕ) (m : Mem) (a b v : ℕ) → (a + k ≤ b) ⊎ (b < a) → load k (write_byte m b v) a ≡ load k m a
load-write_byte_apart k m a b v h =
    load-agree k (write_byte m b v) m a λ c x y. write_byte-other m b v c (omega arith)

pub clear-inside : (m : Mem) (a n b : ℕ) → a ≤ b → b < a + n → clear m a n b ≡ 0
unfolding clear
clear-inside m a n b h k = ground arith

pub clear-outside : (m : Mem) (a n b : ℕ) → (b < a) ⊎ (a + n ≤ b) → clear m a n b ≡ m b
unfolding clear
clear-outside m a n b h = ground arith

pub clear-IsImage : (m : Mem) (a n : ℕ) → IsImage m → IsImage (clear m a n)
unfolding clear
clear-IsImage m a n h b = ground (arith, h b)

pub load-clear_apart :
    (k n : ℕ) (m : Mem) (a b : ℕ) → (a + k ≤ b) ⊎ (b + n ≤ a) → load k (clear m b n) a ≡ load k m a
load-clear_apart k n m a b h =
    load-agree k (clear m b n) m a λ c x y. clear-outside m b n c (omega arith)

pub load-zero : (n : ℕ) (m : Mem) (a : ℕ) → ((b : ℕ) → a ≤ b → b < a + n → m b ≡ 0) → load n m a ≡ 0
unfolding load
load-zero zero m a h = refl
load-zero (suc n) m a h = omega (
  arith,
  h a (omega arith) (omega arith),
  load-zero n m (a + 1) (λ b x y. h b (omega arith) (omega arith)),
)

pub write_bytes-other :
    (m : Mem) (a : ℕ) (vs : Bytes) (b : ℕ)
    → (b < a) ⊎ (a + length vs ≤ b)
    → write_bytes m a vs b ≡ m b
unfolding write_bytes
write_bytes-other m a [] b h = refl
write_bytes-other m a (v ∷ vs) b h =
    write_bytes-other (write_byte m a v) (a + 1) vs b (omega arith)
    ∙ write_byte-other m a v b (omega arith)

pub read_bytes-agree :
    (n : ℕ) (m m' : Mem) (a : ℕ)
    → ((b : ℕ) → a ≤ b → b < a + n → m b ≡ m' b)
    → read_bytes m a n ≡ read_bytes m' a n
unfolding read_bytes
read_bytes-agree zero m m' a h = refl
read_bytes-agree (suc n) m m' a h = cc (
  h a (omega arith) (omega arith),
  read_bytes-agree n m m' (a + 1) (λ b x y. h b (omega arith) (omega arith)),
)

-- What was copied in is read back.
pub read-write_bytes :
    (m : Mem) (a : ℕ) (vs : Bytes)
    → All (λ v. v < 256) vs
    → read_bytes (write_bytes m a vs) a (length vs) ≡ vs
unfolding read_bytes write_bytes
read-write_bytes m a [] h = refl
read-write_bytes m a (v ∷ vs) h = cc (
  write_bytes-other (write_byte m a v) (a + 1) vs a (inl (omega arith)),
  written,
  read-write_bytes (write_byte m a v) (a + 1) vs h.1,
)
  where
    written : write_byte m a v a ≡ v
    written = unfold write_byte in ground (arith, h.0)
