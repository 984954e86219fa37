-- ===== src/Shell/Variables/Tests.antt =====
-- The variables at small examples.
use schoolwork.Common.{◌≡◌, none, some, [], ◌∷◌, arith}
use schoolwork.Common.Bytes.{Bytes, codes, str_eq}
use schoolwork.Shell.Variables.{Variables, Environment, wsh_local, variable_value}
use schoolwork.Shell.Variables.Laws.{IsValid, variable_value-wsh_local}

abbrev x : Bytes
x = codes "x"

abbrev y : Bytes
y = codes "y"

abbrev no_environment : Environment
no_environment name = none

abbrev one_variable : Variables
one_variable = record { name = x; value = codes "1" } ∷ []

one_variable-IsValid : IsValid one_variable
one_variable-IsValid = record { distinct = (tt, tt); bounded = omega arith }

variable_value-wsh_local_example :
    variable_value no_environment (wsh_local one_variable (some (codes "y=2"))) y ≡ some (codes "2")
unfolding str_eq
variable_value-wsh_local_example =
    variable_value-wsh_local no_environment y (codes "2") y one_variable-IsValid (omega arith)
      ((λ e. omega arith), tt)
