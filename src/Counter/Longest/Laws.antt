-- ===== src/Counter/Longest/Laws.antt =====
-- The longest words and lines.
use schoolwork.Common.{ℕ, ◌≡◌, Bool, false, ◌||◌, List, [], ◌∷◌, ltb, if◌then◌else◌, length, All}
use schoolwork.Common.Bytes.{Bytes, str_eq}
use schoolwork.Counter.Words.{Word}

-- The greatest length in a list.
abbrev pub longest : List Bytes → ℕ
longest [] = 0
longest (x ∷ xs) = if ltb (longest xs) (length x) then length x else longest xs

abbrev pub greater : ℕ → ℕ → ℕ
greater a b = if ltb a b then b else a

-- Every word of the list has a length.
abbrev pub AllLength : ℕ → List Word → Type 0
AllLength n ws = All (λ w. length w.contents ≡ n) ws

abbrev pub occurs : Bytes → List Bytes → Bool
occurs b [] = false
occurs b (x ∷ xs) = str_eq x b || occurs b xs
