-- ===== src/Common/Bytes.antt =====
-- C strings as lists of their bytes without the closing NUL: equality and order as `strcmp` has
-- them (on unsigned bytes), and the tokens of `strtok`.
use Prim.Native.Nat.{ℕ}
use mathlib.Core.Path.{◌≡◌, refl, ap, ap₂, ◌∙◌}
use mathlib.Core.Logic.{◌↔◌, ◌≢◌}
use mathlib.Core.Bool.{Bool, true, false, ◌&&◌}
use mathlib.Core.List.{List, [], ◌∷◌, ◌++◌, append-nil}
use native.Mathlib.Omega.{arith}
use schoolwork.Common.Lists.{All}
use schoolwork.Common.Tests.{ltb, ◌==◌, if◌then◌else◌}
use Prim.Native.Char.{code}
use Prim.Native.String.{String}

abbrev pub Bytes : Type 0
Bytes = List ℕ

-- The bytes of a text literal.
abbrev pub codes : String → Bytes
codes String.[] = []
codes (String.◌∷◌ c s) = code c ∷ codes s

-- `strcmp (a, b) == 0`
unfoldable pub str_eq : Bytes → Bytes → Bool
str_eq [] [] = true
str_eq [] (y ∷ ys) = false
str_eq (x ∷ xs) [] = false
str_eq (x ∷ xs) (y ∷ ys) = (x == y) && str_eq xs ys

-- `strcmp (a, b) < 0`
unfoldable pub str_lt : Bytes → Bytes → Bool
str_lt [] [] = false
str_lt [] (y ∷ ys) = true
str_lt (x ∷ xs) [] = false
str_lt (x ∷ xs) (y ∷ ys) = let rest = str_lt xs ys in if x == y then rest else ltb x y

-- The tokens that repeated calls of `strtok (s, delim)` yield, one delimiter byte. The token in
-- progress is `cur`, newest byte first.
unfoldable pub rev_onto : Bytes → Bytes → Bytes
rev_onto [] ys = ys
rev_onto (x ∷ xs) ys = rev_onto xs (x ∷ ys)

abbrev pub flush : Bytes → List Bytes → List Bytes
flush [] ts = ts
flush (c ∷ cur) ts = rev_onto (c ∷ cur) [] ∷ ts

unfoldable pub tokens_from : ℕ → Bytes → Bytes → List Bytes
unfolding rev_onto
tokens_from d cur [] = flush cur []
tokens_from d cur (c ∷ s) = elim (c == d) [
  | true ↦ flush cur (tokens_from d [] s)
  | false ↦ tokens_from d (c ∷ cur) s
]

unfoldable pub tokens : ℕ → Bytes → List Bytes
unfolding tokens_from
tokens d s = tokens_from d [] s

pub str_eq_iff : (a b : Bytes) → (str_eq a b ≡ true) ↔ (a ≡ b)
unfolding str_eq
str_eq_iff [] [] = ground arith
str_eq_iff [] (y ∷ ys) = ground arith
str_eq_iff (x ∷ xs) [] = ground arith
str_eq_iff (x ∷ xs) (y ∷ ys) = ground (arith, str_eq_iff xs ys)

pub str_eq_self : (a : Bytes) → str_eq a a ≡ true
str_eq_self a = (str_eq_iff a a).1 refl

pub str_lt_irrefl : (a : Bytes) → str_lt a a ≡ false
unfolding str_lt
str_lt_irrefl [] = refl
str_lt_irrefl (x ∷ xs) = ground (arith, str_lt_irrefl xs)

pub str_lt_trans : (a b c : Bytes) → str_lt a b ≡ true → str_lt b c ≡ true → str_lt a c ≡ true
unfolding str_lt
str_lt_trans [] [] c h k = ground arith
str_lt_trans [] (y ∷ ys) [] h k = ground arith
str_lt_trans [] (y ∷ ys) (z ∷ zs) h k = refl
str_lt_trans (x ∷ xs) [] c h k = ground arith
str_lt_trans (x ∷ xs) (y ∷ ys) [] h k = ground arith
str_lt_trans (x ∷ xs) (y ∷ ys) (z ∷ zs) h k = ground (arith, str_lt_trans xs ys zs)

-- Of two strings that are not ordered and differ, the other comes first.
pub str_lt_total : (a b : Bytes) → str_lt a b ≡ false → str_eq a b ≡ false → str_lt b a ≡ true
unfolding str_lt str_eq
str_lt_total [] [] h k = ground arith
str_lt_total [] (y ∷ ys) h k = ground arith
str_lt_total (x ∷ xs) [] h k = refl
str_lt_total (x ∷ xs) (y ∷ ys) h k = ground (arith, str_lt_total xs ys)

-- Tokens behind one another, each with the delimiter behind it.
unfoldable pub join : ℕ → List Bytes → Bytes
join d [] = []
join d (t ∷ ts) = t ++ (d ∷ join d ts)

-- A token is not empty and does not hold the delimiter.
abbrev pub IsToken : ℕ → Bytes → Type 0
IsToken d t = (t ≢ []) × All (λ c. c ≢ d) t

rev_onto-append : (xs ys zs : Bytes) → rev_onto xs (ys ++ zs) ≡ rev_onto xs ys ++ zs
unfolding rev_onto
rev_onto-append [] ys zs = refl
rev_onto-append (x ∷ xs) ys zs = rev_onto-append xs (x ∷ ys) zs

pub tokens_from-append :
    (d : ℕ) (cur t rest : Bytes)
    → All (λ c. c ≢ d) t
    → tokens_from d cur (t ++ rest) ≡ tokens_from d (rev_onto t cur) rest
unfolding tokens_from rev_onto
tokens_from-append d cur [] rest h = refl
tokens_from-append d cur (c ∷ t) rest h = ground (arith, tokens_from-append d (c ∷ cur) t rest h.1)

rev_onto-twice : (xs ys zs : Bytes) → rev_onto (rev_onto xs ys) zs ≡ rev_onto ys (xs ++ zs)
unfolding rev_onto
rev_onto-twice [] ys zs = refl
rev_onto-twice (x ∷ xs) ys zs = rev_onto-twice xs (x ∷ ys) zs

flush-cons : (xs : Bytes) (ts : List Bytes) → xs ≢ [] → flush xs ts ≡ rev_onto xs [] ∷ ts
flush-cons [] ts h = absurd (h refl)
flush-cons (x ∷ xs) ts h = refl

rev_onto-ne : (xs ys : Bytes) → xs ≢ [] → rev_onto xs ys ≢ []
unfolding rev_onto
rev_onto-ne [] ys h = absurd (h refl)
rev_onto-ne (x ∷ []) ys h = λ e. cc
rev_onto-ne (x ∷ y ∷ xs) ys h = rev_onto-ne (y ∷ xs) (x ∷ ys) (λ e. cc)

pub tokens_from-delimiter :
    (d : ℕ) (cur s : Bytes) → tokens_from d cur (d ∷ s) ≡ flush cur (tokens_from d [] s)
unfolding tokens_from
tokens_from-delimiter d cur s = ground arith

pub tokens-join : (d : ℕ) (ts : List Bytes) → All (IsToken d) ts → tokens d (join d ts) ≡ ts
unfolding tokens join
tokens-join d [] h = refl
tokens-join d (t ∷ ts) h =
    tokens_from-append d [] t (d ∷ join d ts) h.0.1
    ∙ tokens_from-delimiter d (rev_onto t []) (join d ts)
    ∙ flush-cons (rev_onto t []) _ (rev_onto-ne t [] h.0.0)
    ∙ ap₂ ◌∷◌ (rev_onto-twice t [] [] ∙ append-nil t) (tokens-join d ts h.1)

pub flush-rev : (t : Bytes) (ts : List Bytes) → t ≢ [] → flush (rev_onto t []) ts ≡ t ∷ ts
unfolding rev_onto
flush-rev t ts h =
    flush-cons (rev_onto t []) ts (rev_onto-ne t [] h)
    ∙ ap (λ u. u ∷ ts) (rev_onto-twice t [] [] ∙ append-nil t)
