-- ===== src/Counter/Words/Sorted.antt =====
-- The list of words against the words that were read: sorted, each word once, with how often it
-- was read and where first.
use schoolwork.Common.{
  ℕ, ◌+◌, ◌^◌, ◌<◌, ◌≤◌, ◌≡◌, refl, ap, ◌∙◌, inl, inr, Option, none, some, List, [], ◌∷◌, arith,
  ◌==◌, if◌then◌else◌, Option-cases, Bool-cases, suc, length,
}
use schoolwork.Common.Bytes.{Bytes, str_eq, str_eq_iff}
use schoolwork.Common.Int.{increment}
use schoolwork.Counter.Words.{
  Word, create_word_node, raise_frequency, WordState, start_words, word_step, count_words,
}
use schoolwork.Counter.Words.Order.{
  Ascending, find_word, Ascending-insert, raise_none-find, Ascending-raise, find-raise, find-insert,
  raise-found, length-insert_sorted, length-raise,
}

abbrev pub occurrences : Bytes → List Bytes → ℕ
occurrences b [] = 0
occurrences b (x ∷ xs) = if str_eq x b then occurrences b xs + 1 else occurrences b xs

abbrev pub first_position : Bytes → ℕ → List Bytes → ℕ
first_position b n [] = 0
first_position b n (x ∷ xs) = if str_eq x b then n else first_position b (n + 1) xs

-- What stands in the list for a word after more words are read.
abbrev seen : Bytes → Option Word → ℕ → List Bytes → Option Word
seen b old n buffers = if occurrences b buffers == 0 then old else elim old [
  | none ↦ some (record {
    contents = b;
    num_chars = length b;
    frequency = occurrences b buffers;
    order_appeared = first_position b n buffers;
  })
  | some v ↦ some (record v { frequency = v.frequency + occurrences b buffers })
]

-- No frequency reaches 2^32 when so many more words are read.
abbrev Fits : ℕ → Option Word → Type 0
Fits n none = Unit {0}
Fits n (some v) = v.frequency + n < 2 ^ 32

find-word_step :
    (s : WordState) (buffer b : Bytes) (old : Option Word)
    → find_word s.head b ≡ old
    → Fits 1 old
    → find_word (word_step s buffer).head b ≡ seen b old s.position (buffer ∷ [])
unfolding word_step create_word_node
find-word_step s buffer b old o fits = elim (Option-cases (raise_frequency s.head buffer)) [
  | inl e ↦ ground (
    arith,
    e,
    o,
    str_eq_iff buffer b,
    raise_none-find s.head buffer e,
    find-insert s.head (create_word_node buffer s.position) b (raise_none-find s.head buffer e),
  )
  | inr (ws, e) ↦ let (v, f) = raise-found s.head ws buffer e in raised old ws v e f o fits
]
  where
    raised :
        (old : Option Word) (ws : List Word) (v : Word)
        → raise_frequency s.head buffer ≡ some ws
        → find_word s.head buffer ≡ some v
        → find_word s.head b ≡ old
        → Fits 1 old
        → find_word (word_step s buffer).head b ≡ seen b old s.position (buffer ∷ [])
    raised none ws v e f o fits =
        ground (arith, e, f, o, str_eq_iff buffer b, find-raise s.head ws buffer b e)
    raised (some u) ws v e f o fits =
        ground (arith, e, f, o, fits, str_eq_iff buffer b, find-raise s.head ws buffer b e)

position-word_step : (s : WordState) (x : Bytes) → (word_step s x).position ≡ increment s.position
unfolding word_step
position-word_step s x = ground arith

seen-Fits :
    (b x : Bytes) (old : Option Word) (n k : ℕ)
    → k + 2 < 2 ^ 32
    → Fits (suc k) old
    → Fits k (seen b old n (x ∷ []))
seen-Fits b x none n k few fits = elim (Bool-cases (str_eq x b)) [
  | inl e ↦ rw e (omega arith)
  | inr e ↦ rw e tt
]
seen-Fits b x (some v) n k few fits = elim (Bool-cases (str_eq x b)) [
  | inl e ↦ rw e (omega (arith, fits))
  | inr e ↦ rw e (omega (arith, fits))
]

seen-seen :
    (b x : Bytes) (old : Option Word) (n : ℕ) (buffers : List Bytes)
    → seen b (seen b old n (x ∷ [])) (n + 1) buffers ≡ seen b old n (x ∷ buffers)
seen-seen b x none n buffers = ground arith
seen-seen b x (some v) n buffers = ground arith

find-count_words :
    (s : WordState) (buffers : List Bytes) (b : Bytes) (old : Option Word)
    → find_word s.head b ≡ old
    → Fits (length buffers) old
    → s.position + length buffers + 1 < 2 ^ 32
    → find_word (count_words s buffers).head b ≡ seen b old s.position buffers
unfolding count_words
find-count_words s [] b none o fits few = o
find-count_words s [] b (some v) o fits few = o
find-count_words s (x ∷ buffers) b old o fits few =
    let at : (word_step s x).position ≡ s.position + 1 =
      omega (arith, position-word_step s x, few) in
    find-count_words (word_step s x) buffers b (seen b old s.position (x ∷ []))
      (find-word_step s x b old o (one old fits))
      (seen-Fits b x old s.position (length buffers) (omega (arith, few)) fits)
      (omega (arith, at, few))
    ∙ ap (λ p. seen b (seen b old s.position (x ∷ [])) p buffers) at
    ∙ seen-seen b x old s.position buffers
  where
    one : (old : Option Word) → Fits (suc (length buffers)) old → Fits 1 old
    one none h = tt
    one (some v) h = omega (arith, h)

Ascending-count_words :
    (s : WordState) (buffers : List Bytes)
    → Ascending s.head
    → Ascending (count_words s buffers).head
unfolding count_words word_step create_word_node
Ascending-count_words s [] a = a
Ascending-count_words s (x ∷ buffers) a =
    Ascending-count_words (word_step s x) buffers (step (raise_frequency s.head x) refl)
  where
    step : (r : Option (List Word)) → raise_frequency s.head x ≡ r → Ascending (word_step s x).head
    step none e =
        rw (e, word_step)
          (Ascending-insert s.head (create_word_node x s.position) a (raise_none-find s.head x e))
    step (some ws) e = rw (e, word_step) (Ascending-raise s.head ws x e a)

totals-count_words :
    (s : WordState) (buffers : List Bytes)
    → s.unique ≡ length s.head
    → s.unique ≤ s.total
    → s.total + length buffers < 2 ^ 32
    → ((count_words s buffers).total ≡ s.total + length buffers)
      × ((count_words s buffers).unique ≡ length (count_words s buffers).head)
unfolding count_words word_step
totals-count_words s [] h le few = (omega arith, h)
totals-count_words s (x ∷ buffers) h le few = elim (Option-cases (raise_frequency s.head x)) [
  | inl e ↦
      let total' : increment s.total ≡ s.total + 1 = omega (arith, few) in
      let unique' : increment s.unique ≡ s.unique + 1 = omega (arith, few, le) in
      let rest =
        totals-count_words (word_step s x) buffers
          (ground
            (arith, e, h, unique', length-insert_sorted s.head (create_word_node x s.position)))
          (ground (arith, e, le, total', unique')) (ground (arith, e, few, total')) in
      (ground (arith, e, rest, total'), rest.1)
  | inr (ws, e) ↦
      let total' : increment s.total ≡ s.total + 1 = omega (arith, few) in
      let rest =
        totals-count_words (word_step s x) buffers
          (ground (arith, e, h, length-raise s.head ws x e)) (ground (arith, e, le, total'))
          (ground (arith, e, few, total')) in
      (ground (arith, e, rest, total'), rest.1)
]

-- Of fewer than 2^31 words, for every string: it stands in the list exactly if it was read, with
-- the number of times that it was read and the position of the first.
pub find-count_words_start :
    (buffers : List Bytes) (b : Bytes)
    → length buffers < 2 ^ 31
    → find_word (count_words start_words buffers).head b ≡ (
        if occurrences b buffers == 0
        then none
        else some (record {
          contents = b;
          num_chars = length b;
          frequency = occurrences b buffers;
          order_appeared = first_position b 0 buffers;
        }))
unfolding start_words find_word
find-count_words_start buffers b few =
    find-count_words start_words buffers b none refl tt (omega (arith, few))

-- The list is in strictly ascending `strcmp` order; for fewer than 2^31 words, the totals are the
-- number of words read and the number of words in the list.
pub count_words-Ascending :
    (buffers : List Bytes)
    → length buffers < 2 ^ 31
    → Ascending (count_words start_words buffers).head
      × ((count_words start_words buffers).total ≡ length buffers)
      × ((count_words start_words buffers).unique ≡ length (count_words start_words buffers).head)
unfolding start_words
count_words-Ascending buffers few =
    let (t, u) = totals-count_words start_words buffers refl (omega arith) (omega (arith, few)) in
    (Ascending-count_words start_words buffers tt, omega (arith, t), u)
