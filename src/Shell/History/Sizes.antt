-- ===== src/Shell/History/Sizes.antt =====
-- What the history keeps: the last commands, as many as its size allows.
use schoolwork.Common.{
  ℕ, zero, suc, ◌+◌, ◌-◌, ◌^◌, ◌≤◌, ◌<◌, min, ◌≡◌, refl, ap, ◌≢◌, ◌⊎◌, inl, inr, true, false, ◌&&◌,
  not, none, some, List, [], ◌∷◌, ◌++◌, arith, ltb, ◌==◌, tests, Bool-cases, Option-cases, length,
  drop, length-append, length-drop,
}
use native.Mathlib.Decide.{dec_lt}
use schoolwork.Common.Bytes.{Bytes, str_eq, str_eq_iff}
use schoolwork.Common.Int.{ℤ, pos, negsuc, ◌-ℤ◌, unsigned}
use schoolwork.Shell.History.{
  HistoryList, last?, remove_oldest, append_command, add_command_to_history, remove_nodes,
  set_history_size,
}

-- The last `n` elements.
abbrev pub keep_last {ℓ} : {A : Type ℓ} → ℕ → List A → List A
keep_last n xs = drop (length xs - n) xs

-- No command stands next to an equal one.
abbrev pub NoRepeat : List Bytes → Type 0
NoRepeat [] = Unit
NoRepeat (c ∷ []) = Unit
NoRepeat (c ∷ d ∷ cs) = (c ≢ d) × NoRepeat (d ∷ cs)

-- The history with size `m`.
pub record IsValid (m : ℕ) (h : HistoryList) : Type 0 where
  pub size : h.max_count ≡ pos m
  pub counted : h.count ≡ length h.commands
  pub bounded : h.count ≤ m
  pub int_range : m < 2 ^ 31
  pub no_repeat : NoRepeat h.commands

remove_oldest_lem :
    (cs : List Bytes) (n : ℕ) (size : ℤ)
    → 1 < length cs
    → remove_oldest (record { commands = cs; count = n; max_count = size })
      ≡ some (record { commands = drop 1 cs; count = n - 1; max_count = size })
unfolding remove_oldest
remove_oldest_lem [] n size h = absurd (omega arith)
remove_oldest_lem (c ∷ []) n size h = absurd (omega arith)
remove_oldest_lem (c ∷ d ∷ cs) n size h = refl

abbrev after_append : ℕ → HistoryList → Bytes → HistoryList
after_append m h c = record h {
  commands = keep_last m (h.commands ++ (c ∷ []));
  count = min (h.count + 1) m;
}

append_keeps :
    (m : ℕ) (h : HistoryList) (c : Bytes)
    → 0 < m
    → IsValid m h
    → append_command h c ≡ some (after_append m h c)
unfolding append_command
append_keeps m h c pm v = elim (Bool-cases (ltb h.count m)) [
  | inl room ↦
      let e : length (h.commands ++ (c ∷ [])) - m ≡ 0 =
        omega (tests, length-append h.commands (c ∷ []), v.counted) in
      rw e (ground (arith, v.size))
  | inr no_room ↦
      let e : length (h.commands ++ (c ∷ [])) - m ≡ 1 =
        omega (tests, length-append h.commands (c ∷ []), v.counted, v.bounded, at_most no_room) in
      rw e (
        ground (
          arith,
          v.size,
          v.bounded,
          remove_oldest_lem (h.commands ++ (c ∷ [])) (h.count + 1) h.max_count,
          length-append h.commands (c ∷ []),
        ))
]
  where
    at_most : ltb h.count m ≡ false → m ≤ h.count
    at_most e = ground arith

NoRepeat-append :
    (cs : List Bytes) (c : Bytes) → NoRepeat cs → last? cs ≢ some c → NoRepeat (cs ++ (c ∷ []))
NoRepeat-append [] c n l = tt
NoRepeat-append (d ∷ []) c n l = (λ e. l (ap some e), tt)
NoRepeat-append (d ∷ e ∷ cs) c n l = (n.0, NoRepeat-append (e ∷ cs) c n.1 l)

NoRepeat-drop : (n : ℕ) (cs : List Bytes) → NoRepeat cs → NoRepeat (drop n cs)
NoRepeat-drop zero cs h = h
NoRepeat-drop (suc n) [] h = tt
NoRepeat-drop (suc n) (c ∷ []) h = NoRepeat-drop n [] tt
NoRepeat-drop (suc n) (c ∷ d ∷ cs) h = NoRepeat-drop n (d ∷ cs) h.1

drop-all {ℓ} : {A : Type ℓ} (n : ℕ) (xs : List A) → length xs ≤ n → drop n xs ≡ []
drop-all zero [] h = refl
drop-all zero (x ∷ xs) h = absurd (omega arith)
drop-all (suc n) [] h = refl
drop-all (suc n) (x ∷ xs) h = drop-all n xs (omega arith)

-- In a valid history with a size `m` above 0, adding a command that is not the newest one keeps the
-- newest `m` of all, the new one last.
pub add_command_to_history_keeps :
    {m : ℕ} {h : HistoryList} (c : Bytes)
    → 0 < m
    → IsValid m h
    → last? h.commands ≢ some c
    → add_command_to_history h c ≡ some (after_append m h c)
unfolding add_command_to_history
add_command_to_history_keeps {m} {h} c pm v new = elim (Option-cases (last? h.commands)) [
  | inl e ↦ ground (arith, v.size, append_keeps m h c pm v, last_none h.commands e, v.counted)
  | inr (d, e) ↦ ground (arith, v.size, append_keeps m h c pm v, (str_eq_iff d c).0)
]
  where
    last_none : (cs : List Bytes) → last? cs ≡ none → length cs ≡ 0
    last_none [] e = refl
    last_none (x ∷ []) e = absurd (cc)
    last_none (x ∷ y ∷ cs) e = absurd (not_none (y ∷ cs) (λ q. cc) e)
      where
        not_none : (cs : List Bytes) → cs ≢ [] → last? cs ≢ none
        not_none [] h e = h refl
        not_none (x ∷ []) h e = cc
        not_none (x ∷ y ∷ cs) h e = not_none (y ∷ cs) (λ q. cc) e

to_remove_few : (c n : ℕ) → n ≤ c → c < 2 ^ 31 → unsigned 64 (pos c -ℤ pos n) ≡ c - n
unfolding ◌-ℤ◌
to_remove_few c n le lt = ground arith

to_remove_all : (c n : ℕ) → c < n → n < 2 ^ 31 → c ≤ unsigned 64 (pos c -ℤ pos n)
unfolding ◌-ℤ◌
to_remove_all c n lt small = ground arith

drop_trivial : (k : ℕ) (cs : List Bytes) → (k ≡ 0) ⊎ (length cs ≡ 0) → drop k cs ≡ cs
drop_trivial zero cs h = refl
drop_trivial (suc k) [] h = refl
drop_trivial (suc k) (c ∷ cs) h = absurd (omega arith)

set_history_size_eq :
    {m n : ℕ} {h : HistoryList}
    → IsValid m h
    → n ≤ h.count
    → set_history_size h (pos n) ≡ remove_nodes h (h.count - n) (pos n)
unfolding set_history_size
set_history_size_eq {m} {n} {h} v le = elim (Bool-cases (ltb n m && not (length h.commands == 0))) [
  | inl e ↦ ground (arith, v.size, v.int_range, v.bounded, to_remove_few h.count n)
  | inr e ↦ ground (arith, v.size, v.bounded, v.counted, drop_trivial (h.count - n) h.commands)
]

-- In a valid history, `history set N` with N not above the number of commands keeps the newest N,
-- and the history is valid with size N.
pub set_history_size_keeps :
    {m n : ℕ} {h : HistoryList}
    → IsValid m h
    → n ≤ h.count
    → ((set_history_size h (pos n)).commands ≡ keep_last n h.commands)
      × IsValid n (set_history_size h (pos n))
unfolding remove_nodes
set_history_size_keeps {m} {n} {h} v le = rw (set_history_size_eq v le) (
  ap (λ k. drop (k - n) h.commands) v.counted,
  record {
    size = refl;
    counted = omega (arith, v.counted, length-drop (h.count - n) h.commands);
    bounded = omega (arith, v.counted);
    int_range = omega (arith, v.bounded, v.int_range);
    no_repeat = NoRepeat-drop (h.count - n) h.commands v.no_repeat;
  },
)

-- In a valid history, a new size above the number of commands, but below the old size, removes
-- every command.
pub set_history_size_forgets :
    {m n : ℕ} {h : HistoryList}
    → IsValid m h
    → h.count < n
    → n < m
    → ((set_history_size h (pos n)).commands ≡ []) × ((set_history_size h (pos n)).count ≡ 0)
unfolding set_history_size remove_nodes
set_history_size_forgets {m} {n} {h} v above below = ground (
  arith,
  v.size,
  v.int_range,
  v.counted,
  to_remove_all h.count n,
  drop-all (unsigned 64 (pos h.count -ℤ pos n)) h.commands,
  length_zero h.commands,
)
  where
    length_zero : (cs : List Bytes) → length cs ≡ 0 → cs ≡ []
    length_zero [] e = refl
    length_zero (c ∷ cs) e = absurd (omega arith)

NoRepeat-keep_last : (n : ℕ) (cs : List Bytes) → NoRepeat cs → NoRepeat (keep_last n cs)
NoRepeat-keep_last n cs h = NoRepeat-drop (length cs - n) cs h

-- Adding a command to a valid history does not fault, and the history stays valid: within its size,
-- counted right, and with no command twice in a row.
pub add_command_to_history-IsValid :
    {m : ℕ} {h : HistoryList} (c : Bytes)
    → IsValid m h
    → (h' : HistoryList) × (add_command_to_history h c ≡ some h') × IsValid m h'
add_command_to_history-IsValid {m} {h} c v = elim (dec_lt 0 m) [
  | no z ↦ (h, stays (omega arith), v)
  | yes pm ↦ elim (Option-cases (last? h.commands)) [
    | inl e ↦ added pm (λ q. cc)
    | inr (d, e) ↦ elim (Bool-cases (str_eq d c)) [
      | inl q ↦ (h, repeated d e q, v)
      | inr q ↦ added pm (λ r. ground (arith, str_eq_iff d c))
    ]
  ]
]
  where
    stays : m ≡ 0 → add_command_to_history h c ≡ some h
    stays z = unfold add_command_to_history in ground (arith, v.size)

    repeated :
        (d : Bytes)
        → last? h.commands ≡ some d
        → str_eq d c ≡ true
        → add_command_to_history h c ≡ some h
    repeated d e q =
        unfold add_command_to_history in ground (arith, v.size, v.counted, nonempty h.commands d e)
      where
        nonempty : (cs : List Bytes) (d : Bytes) → last? cs ≡ some d → 0 < length cs
        nonempty [] d e = absurd (cc)
        nonempty (x ∷ cs) d e = omega arith

    added :
        0 < m
        → last? h.commands ≢ some c
        → (h' : HistoryList) × (add_command_to_history h c ≡ some h') × IsValid m h'
    added pm ne = (
      after_append m h c,
      add_command_to_history_keeps c pm v ne,
      record {
        size = v.size;
        counted = omega (
          arith,
          v.counted,
          v.bounded,
          length-append h.commands (c ∷ []),
          length-drop (length (h.commands ++ (c ∷ [])) - m) (h.commands ++ (c ∷ [])),
        );
        bounded = omega arith;
        int_range = v.int_range;
        no_repeat =
            NoRepeat-keep_last m (h.commands ++ (c ∷ []))
              (NoRepeat-append h.commands c v.no_repeat ne);
      },
    )

-- In an empty history, the first command that is added after the size was set to a negative number
-- faults.
pub negative_size_faults :
    (h : HistoryList) (n : ℕ) (c : Bytes)
    → h.commands ≡ []
    → h.count ≡ 0
    → add_command_to_history (set_history_size h (negsuc n)) c ≡ none
unfolding add_command_to_history set_history_size append_command remove_oldest
negative_size_faults h n c e z = ground (arith)
