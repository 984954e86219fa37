-- ===== src/Counter/Input.antt =====
-- How cs537/P1/MADCounter.c reads a file: `fscanf ("%256s")` and `fgets` on a buffer of 257 bytes.
-- A file is the list of its bytes.
use schoolwork.Common.{
  ℕ, zero, suc, Bool, true, false, ◌&&◌, ◌||◌, List, [], ◌∷◌, map, leb, ◌==◌, if◌then◌else◌,
}
use schoolwork.Common.Bytes.{Bytes, rev_onto}

-- `isspace`
unfoldable pub is_space : ℕ → Bool
is_space c = c == b' ' || (leb 9 c && leb c 13)

-- The C string in a buffer: up to the first NUL byte.
unfoldable pub c_string : Bytes → Bytes
c_string [] = []
c_string (c ∷ s) = let rest = c_string s in if c == 0 then [] else c ∷ rest

abbrev emit : Bytes → List Bytes → List Bytes
emit [] ws = ws
emit (c ∷ cur) ws = rev_onto (c ∷ cur) [] ∷ ws

-- The words that `fscanf ("%256s")` reads one after the other. `cur` is the word in progress,
-- newest byte first, and `room` how many bytes it may still take.
unfoldable pub scan_from : Bytes → ℕ → Bytes → List Bytes
unfolding is_space rev_onto
scan_from cur room [] = emit cur []
scan_from cur zero (c ∷ s) = elim (is_space c) [
  | true ↦ emit cur (scan_from [] 256 s)
  | false ↦ emit cur (scan_from (c ∷ []) 255 s)
]
scan_from cur (suc room) (c ∷ s) = elim (is_space c) [
  | true ↦ emit cur (scan_from [] 256 s)
  | false ↦ scan_from (c ∷ cur) room s
]

unfoldable pub scan_words : Bytes → List Bytes
unfolding scan_from c_string
scan_words file = map c_string (scan_from [] 256 file)

-- The buffers that `fgets` fills: up to a newline, which is kept, and at most 256 bytes.
unfoldable pub fgets_from : Bytes → ℕ → Bytes → List Bytes
unfolding rev_onto
fgets_from cur room [] = emit cur []
fgets_from cur zero (c ∷ s) =
    emit cur (elim (c == 10) [
      | true ↦ (10 ∷ []) ∷ fgets_from [] 256 s
      | false ↦ fgets_from (c ∷ []) 255 s
    ])
fgets_from cur (suc room) (c ∷ s) = elim (c == 10) [
  | true ↦ emit (10 ∷ cur) (fgets_from [] 256 s)
  | false ↦ fgets_from (c ∷ cur) room s
]

unfoldable pub fgets_buffers : Bytes → List Bytes
unfolding fgets_from
fgets_buffers file = fgets_from [] 256 file

-- `buffer[strcspn (buffer, "\n")] = '\0'`
unfoldable pub cut_newline : Bytes → Bytes
cut_newline [] = []
cut_newline (c ∷ s) = let rest = cut_newline s in if c == 0 || c == 10 then [] else c ∷ rest
