-- ===== src/Counter/Words/Order.antt =====
-- The operations on the sorted list of words: what is found in it, its order and its length.
use schoolwork.Common.{
  ◌+◌, ◌≡◌, refl, subst, inl, inr, true, false, Option, none, some, List, [], ◌∷◌, arith,
  if◌then◌else◌, Bool-cases, Option-cases, length, All,
}
use schoolwork.Common.Bytes.{Bytes, str_eq, str_lt, str_eq_iff, str_lt_trans, str_lt_total}
use schoolwork.Common.Int.{increment}
use schoolwork.Counter.Words.{Word, insert_sorted, raise_frequency}

-- All words of the list come after the given one.
abbrev pub After : Bytes → List Word → Type 0
After b ws = All (λ v. str_lt b v.contents ≡ true) ws

-- Strictly ascending, so that no word stands in the list twice.
abbrev pub Ascending : List Word → Type 0
Ascending [] = Unit
Ascending (v ∷ vs) = After v.contents vs × Ascending vs

unfoldable pub find_word : List Word → Bytes → Option Word
find_word [] b = none
find_word (v ∷ vs) b = if str_eq v.contents b then some v else find_word vs b

pub raise_none-find :
    (ws : List Word) (b : Bytes) → raise_frequency ws b ≡ none → find_word ws b ≡ none
unfolding raise_frequency find_word
raise_none-find [] b e = refl
raise_none-find (v ∷ vs) b e = elim (Option-cases (raise_frequency vs b)) [
  | inl q ↦ ground (arith, q, raise_none-find vs b q)
  | inr (ws, q) ↦ ground (arith, q)
]

After-raise :
    (ws ws' : List Word) (b c : Bytes) → raise_frequency ws b ≡ some ws' → After c ws → After c ws'
unfolding raise_frequency
After-raise [] ws' b c e a = absurd (cc)
After-raise (v ∷ vs) ws' b c e a = elim (Bool-cases (str_eq v.contents b)) [
  | inl q ↦ subst (After c) (heads q) a
  | inr q ↦ elim (Option-cases (raise_frequency vs b)) [
    | inl r ↦ absurd (ground (arith, q, r))
    | inr (us, r) ↦ subst (After c) (tails q us r) (a.0, After-raise vs us b c r a.1)
  ]
]
  where
    heads : str_eq v.contents b ≡ true → record v { frequency = increment v.frequency } ∷ vs ≡ ws'
    heads q = ground (arith)

    tails :
        str_eq v.contents b ≡ false
        → (us : List Word) → raise_frequency vs b ≡ some us
        → v ∷ us ≡ ws'
    tails q us r = ground (arith)

pub Ascending-raise :
    (ws ws' : List Word) (b : Bytes)
    → raise_frequency ws b ≡ some ws'
    → Ascending ws
    → Ascending ws'
unfolding raise_frequency
Ascending-raise [] ws' b e a = absurd (cc)
Ascending-raise (v ∷ vs) ws' b e a = elim (Bool-cases (str_eq v.contents b)) [
  | inl q ↦ subst Ascending (heads q) a
  | inr q ↦ elim (Option-cases (raise_frequency vs b)) [
    | inl r ↦ absurd (ground (arith, q, r))
    | inr (us, r) ↦
        subst Ascending (tails q us r)
          (After-raise vs us b v.contents r a.0, Ascending-raise vs us b r a.1)
  ]
]
  where
    heads : str_eq v.contents b ≡ true → record v { frequency = increment v.frequency } ∷ vs ≡ ws'
    heads q = ground (arith)

    tails :
        str_eq v.contents b ≡ false
        → (us : List Word) → raise_frequency vs b ≡ some us
        → v ∷ us ≡ ws'
    tails q us r = ground (arith)

After-insert :
    (ws : List Word) (w : Word) (c : Bytes)
    → After c ws
    → str_lt c w.contents ≡ true
    → After c (insert_sorted ws w)
unfolding insert_sorted
After-insert [] w c a h = (h, tt)
After-insert (v ∷ vs) w c a h = elim (Bool-cases (str_lt v.contents w.contents)) [
  | inl q ↦ rw q (a.0, After-insert vs w c a.1 h)
  | inr q ↦ rw q (h, a)
]

After-trans : (ws : List Word) (b c : Bytes) → str_lt b c ≡ true → After c ws → After b ws
After-trans [] b c h a = tt
After-trans (v ∷ vs) b c h a = (str_lt_trans b c v.contents h a.0, After-trans vs b c h a.1)

pub Ascending-insert :
    (ws : List Word) (w : Word)
    → Ascending ws
    → find_word ws w.contents ≡ none
    → Ascending (insert_sorted ws w)
unfolding insert_sorted find_word
Ascending-insert [] w a f = (tt, tt)
Ascending-insert (v ∷ vs) w a f = elim (Bool-cases (str_lt v.contents w.contents)) [
  | inl q ↦ rw q (After-insert vs w v.contents a.0 q, Ascending-insert vs w a.1 (ground (arith, f)))
  | inr q ↦
      let lt : str_lt w.contents v.contents ≡ true =
        ground (arith, f, q, str_lt_total v.contents w.contents) in
      rw q ((lt, After-trans vs w.contents v.contents lt a.0), a)
]

pub find-raise :
    (ws ws' : List Word) (b c : Bytes)
    → raise_frequency ws b ≡ some ws'
    → find_word ws' c ≡ (
        if str_eq b c
        then (elim (find_word ws b) [
          | none ↦ none
          | some v ↦ some (record v { frequency = increment v.frequency })
        ])
        else find_word ws c)
unfolding raise_frequency find_word
find-raise [] ws' b c e = ground arith
find-raise (v ∷ vs) ws' b c e = elim (Option-cases (raise_frequency vs b)) [
  | inl r ↦ ground (arith, r, str_eq_iff v.contents b, str_eq_iff v.contents c, str_eq_iff b c)
  | inr (us, r) ↦ ground (
    arith,
    r,
    str_eq_iff v.contents b,
    str_eq_iff v.contents c,
    str_eq_iff b c,
    find-raise vs us b c r,
  )
]

pub find-insert :
    (ws : List Word) (w : Word) (c : Bytes)
    → find_word ws w.contents ≡ none
    → find_word (insert_sorted ws w) c ≡ (if str_eq w.contents c then some w else find_word ws c)
unfolding insert_sorted find_word
find-insert [] w c f = refl
find-insert (v ∷ vs) w c f = ground (
  arith,
  str_eq_iff v.contents w.contents,
  str_eq_iff v.contents c,
  str_eq_iff w.contents c,
  find-insert vs w c,
)

pub raise-found :
    (ws ws' : List Word) (b : Bytes)
    → raise_frequency ws b ≡ some ws'
    → (v : Word) × (find_word ws b ≡ some v)
unfolding raise_frequency find_word
raise-found [] ws' b e = absurd (cc)
raise-found (v ∷ vs) ws' b e = elim (Bool-cases (str_eq v.contents b)) [
  | inl q ↦ (v, rw q)
  | inr q ↦ elim (Option-cases (raise_frequency vs b)) [
    | inl r ↦ absurd (ground (arith, q, r))
    | inr (us, r) ↦ let (w, f) = raise-found vs us b r in (w, rw q f)
  ]
]

pub length-insert_sorted : (ws : List Word) (w : Word) → length (insert_sorted ws w) ≡ length ws + 1
unfolding insert_sorted
length-insert_sorted [] w = omega arith
length-insert_sorted (v ∷ vs) w = ground (arith, length-insert_sorted vs w)

pub length-raise :
    (ws ws' : List Word) (b : Bytes) → raise_frequency ws b ≡ some ws' → length ws' ≡ length ws
unfolding raise_frequency
length-raise [] ws' b e = absurd (cc)
length-raise (v ∷ vs) ws' b e = elim (Option-cases (raise_frequency vs b)) [
  | inl r ↦ ground (arith, r)
  | inr (us, r) ↦ ground (arith, r, length-raise vs us b r)
]
