-- ===== src/Shell/History.antt =====
-- The command history of cs537/P3/wsh.c. The doubly linked list is the list of its commands from
-- the head, the oldest, to the tail. `none` is a fault: a null pointer is followed.
pub mod Sizes
mod Tests
use schoolwork.Common.{
  ℕ, ◌+◌, ◌-◌, min, ◌&&◌, not, Option, none, some, List, [], ◌∷◌, ◌++◌, ◌==◌, if◌then◌else◌, length,
  get_or, set, drop,
}
use mathlib.Core.List.{reverse}
use schoolwork.Common.Bytes.{Bytes, str_eq}
use schoolwork.Common.Int.{ℤ, pos, ltb_ℤ, eq_ℤ, leb_ℤ, ◌-ℤ◌, unsigned, pos_part}
use schoolwork.Shell.Words.{cut_first_token}

pub record HistoryList : Type 0 where
  pub commands : List Bytes
  pub count : ℕ
  pub max_count : ℤ

unfoldable pub init_history_list : ℕ → HistoryList
init_history_list max_commands = record { commands = []; count = 0; max_count = pos max_commands }

-- `history->tail`
abbrev pub last? {ℓ} : {A : Type ℓ} → List A → Option A
last? [] = none
last? (x ∷ []) = some x
last? (x ∷ y ∷ xs) = last? (y ∷ xs)

-- The oldest node goes; `history->head->prev = NULL` faults when it was the only one.
unfoldable pub remove_oldest : HistoryList → Option HistoryList
remove_oldest h = elim h.commands [
  | [] ↦ none
  | c ∷ rest ↦ elim rest [
    | [] ↦ none
    | d ∷ ds ↦ some (record h { commands = d ∷ ds; count = h.count - 1 })
  ]
]

unfoldable pub append_command : HistoryList → Bytes → Option HistoryList
unfolding remove_oldest
append_command h command =
    let h' = record h { commands = h.commands ++ (command ∷ []); count = h.count + 1 } in
    if ltb_ℤ h.max_count (pos (h.count + 1)) then remove_oldest h' else some h'

unfoldable pub add_command_to_history : HistoryList → Bytes → Option HistoryList
unfolding append_command
add_command_to_history h command =
    if eq_ℤ h.max_count (pos 0)
    then some h
    else if h.count == 0
    then append_command h command
    else elim (last? h.commands) [
      | none ↦ none
      | some c ↦ if str_eq c command then some h else append_command h command
    ]

number_from : ℕ → List Bytes → List (ℕ × Bytes)
number_from n [] = []
number_from n (c ∷ cs) = (n, c) ∷ number_from (n + 1) cs

-- `printHistory`: the lines that it prints, newest command first.
pub print_history : HistoryList → List (ℕ × Bytes)
unfolding number_from
print_history h = number_from 1 (reverse h.commands)

-- The loop that removes nodes from the head, as far as there are any.
unfoldable pub remove_nodes : HistoryList → ℕ → ℤ → HistoryList
remove_nodes h to_remove new_size = record {
  commands = drop to_remove h.commands;
  count = h.count - min to_remove (length h.commands);
  max_count = new_size;
}

-- `history set N` of `wsh_history`. The number of nodes to remove is an `int` that the loop
-- compares as a `size_t`.
unfoldable pub set_history_size : HistoryList → ℤ → HistoryList
unfolding ◌-ℤ◌ remove_nodes
set_history_size h new_size =
    if ltb_ℤ new_size h.max_count && not (length h.commands == 0)
    then remove_nodes h (unsigned 64 (pos h.count -ℤ new_size)) new_size
    else record h { max_count = new_size }

-- The walk of `executeFromHistory` from the tail: the position, from the head, of the command
-- with the given number. `none` for a number above the count, where nothing is executed.
abbrev pub history_position : HistoryList → ℤ → Option ℕ
history_position h index =
    if leb_ℤ index (pos h.count) then some (length h.commands - 1 - (pos_part index - 1)) else none

-- `wsh_split_line` on the stored command cuts it in place.
unfoldable pub cut_command : HistoryList → ℕ → HistoryList
cut_command h n = record h {
  commands = set h.commands n (cut_first_token (get_or h.commands n []));
}
