-- ===== src/Shell/History/Tests.antt =====
-- The history at small sizes.
use schoolwork.Common.{ℕ, ◌^◌, ◌≤◌, ◌<◌, ◌≡◌, refl, ◌≢◌, some, [], ◌∷◌, arith}
use schoolwork.Common.Bytes.{Bytes, codes}
use schoolwork.Common.Int.{pos}
use schoolwork.Shell.History.{HistoryList, add_command_to_history}
use schoolwork.Shell.History.Sizes.{
  IsValid, add_command_to_history_keeps, add_command_to_history-IsValid,
}

abbrev ls : Bytes
ls = codes "ls"

abbrev pwd : Bytes
pwd = codes "pwd"

abbrev two_commands : ℕ → HistoryList
two_commands m = record { commands = ls ∷ pwd ∷ []; count = 2; max_count = pos m }

two_commands-IsValid : (m : ℕ) → 2 ≤ m → m < 2 ^ 31 → IsValid m (two_commands m)
two_commands-IsValid m lo hi = record {
  size = refl;
  counted = refl;
  bounded = lo;
  int_range = hi;
  no_repeat = (differ, tt);
}
  where
    differ : ls ≢ pwd
    differ e = cc

add_command_to_history_keeps_example :
    add_command_to_history (two_commands 2) ls
    ≡ some (record { commands = pwd ∷ ls ∷ []; count = 2; max_count = pos 2 })
add_command_to_history_keeps_example =
    add_command_to_history_keeps ls (omega arith)
      (two_commands-IsValid 2 (omega arith) (omega arith)) (λ e. cc)

add_command_to_history-IsValid_example :
    (h : HistoryList) × (add_command_to_history (two_commands 2) ls ≡ some h) × IsValid 2 h
add_command_to_history-IsValid_example =
    add_command_to_history-IsValid ls (two_commands-IsValid 2 (omega arith) (omega arith))
