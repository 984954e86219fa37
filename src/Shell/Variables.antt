-- ===== src/Shell/Variables.antt =====
-- The variables of cs537/P3/wsh.c: the shell's own, the environment, and the expansion of `$name`.
pub mod Laws
mod Tests
use schoolwork.Common.{
  ℕ, Bool, true, false, ◌&&◌, Option, none, some, List, [], ◌∷◌, ◌++◌, ltb, ◌==◌, if◌then◌else◌,
  length, get_or, drop,
}
use schoolwork.Common.Bytes.{Bytes, str_eq}

-- `struct Variable`
pub record Variable : Type 0 where
  pub name : Bytes
  pub value : Bytes

abbrev pub max_variables : ℕ
max_variables = 4096

-- `shell_variables`, of which `num_shell_variables` is the length.
abbrev pub Variables : Type 0
Variables = List Variable

-- The environment, by name.
abbrev pub Environment : Type 0
Environment = Bytes → Option Bytes

-- `strchr (s, '=')`: what stands before the first `=`, and behind it.
pub split_at_eq : Bytes → Option (Bytes × Bytes)
split_at_eq [] = none
split_at_eq (c ∷ s) =
    let rest = split_at_eq s in
    if c == b'='
    then some ([], s)
    else elim rest [ none ↦ none | some (name, value) ↦ some (c ∷ name, value) ]

-- The loop of `wsh_local` that removes the first variable of the name, shifting the others down.
pub remove_variable : Variables → Bytes → Variables
remove_variable [] name = []
remove_variable (v ∷ vs) name =
    let rest = remove_variable vs name in if str_eq v.name name then vs else v ∷ rest

pub set_variable : Variables → Bytes → Bytes → Variables
unfolding remove_variable
set_variable vars name value =
    let vs = remove_variable vars name in
    if length value == 0
    then vs
    else if ltb (length vs) max_variables
    then vs ++ (record { name = name; value = value } ∷ [])
    else vs

-- `wsh_local`; with no argument, or none that holds `=`, it only prints an error.
pub wsh_local : Variables → Option Bytes → Variables
unfolding split_at_eq set_variable
wsh_local vars none = vars
wsh_local vars (some arg) = elim (split_at_eq arg) [
  | none ↦ vars
  | some (name, value) ↦ set_variable vars name value
]

-- `setenv (name, value, 1)`: it fails for an empty name and for one that holds `=`.
pub setenv : Environment → Bytes → Bytes → Environment
unfolding split_at_eq
setenv env name value k = if length name == 0 then env k else elim (split_at_eq name) [
  | some _ ↦ env k
  | none ↦ if str_eq name k then some value else env k
]

-- `wsh_export`
pub wsh_export : Environment → Option Bytes → Environment
unfolding split_at_eq setenv
wsh_export env none = env
wsh_export env (some arg) = elim (split_at_eq arg) [
  | none ↦ setenv env arg []
  | some (name, value) ↦ setenv env name value
]

-- `wsh_vars`: what it prints, a line for each variable.
pub wsh_vars : Variables → List Bytes
wsh_vars [] = []
wsh_vars (v ∷ vs) = (v.name ++ (b'=' ∷ v.value)) ∷ wsh_vars vs

-- The search in the shell's own variables.
pub find_variable : Variables → Bytes → Option Bytes
find_variable [] name = none
find_variable (v ∷ vs) name =
    let rest = find_variable vs name in if str_eq name v.name then some v.value else rest

-- The environment comes first.
pub variable_value : Environment → Variables → Bytes → Option Bytes
unfolding find_variable
variable_value env vars name = elim (env name) [
  | some value ↦ some value
  | none ↦ find_variable vars name
]

-- An argument `$name`: its value in its place, or nothing where it has none.
expand_argument : Environment → Variables → Bytes → Option Bytes
unfolding variable_value
expand_argument env vars [] = some []
expand_argument env vars (c ∷ name) =
    if c == b'$' then variable_value env vars name else some (c ∷ name)

-- The loop of `wsh_execute` over its arguments.
unfoldable pub expand_arguments : Environment → Variables → List Bytes → List Bytes
unfolding expand_argument
expand_arguments env vars [] = []
expand_arguments env vars (a ∷ args) =
    let rest = expand_arguments env vars args in
    elim (expand_argument env vars a) [ none ↦ rest | some value ↦ value ∷ rest ]

-- For each argument that the expansion leaves, the variable whose string it is, if it is one.
pub origins : Environment → Variables → List Bytes → List (Option Bytes)
unfolding expand_argument
origins env vars [] = []
origins env vars (a ∷ args) =
    let rest = origins env vars args in
    elim (expand_argument env vars a) [
      | none ↦ rest
      | some value ↦ (if get_or a 0 0 == b'$' then some (drop 1 a) else none) ∷ rest
    ]

-- What is left of a string when its first `=` becomes its end.
cut_at_eq : Bytes → Bytes
unfolding split_at_eq
cut_at_eq value = elim (split_at_eq value) [ none ↦ value | some (name, rest) ↦ name ]

cut_environment : Environment → Bytes → Environment
unfolding cut_at_eq
cut_environment env name k =
    if str_eq name k
    then elim (env k) [ none ↦ none | some value ↦ some (cut_at_eq value) ]
    else env k

cut_variable : Variables → Bytes → Variables
unfolding cut_at_eq
cut_variable [] name = []
cut_variable (v ∷ vs) name =
    let rest = cut_variable vs name in
    if str_eq name v.name then record v { value = cut_at_eq v.value } ∷ vs else v ∷ rest

-- `*value++ = '\0'` in `wsh_local` and `wsh_export`, where their argument is the string of a
-- variable: that variable's value is cut.
pub cut_origin : Environment → Variables → Option Bytes → Option Bytes → Environment × Variables
unfolding cut_environment cut_variable
cut_origin env vars from none = (env, vars)
cut_origin env vars none (some arg) = (env, vars)
cut_origin env vars (some x) (some arg) = elim (env x) [
  | some value ↦ (cut_environment env x, vars)
  | none ↦ (env, cut_variable vars x)
]

-- Whether `wsh_local` frees its own argument before it reads the value in it: the argument is the
-- string of the variable that it sets anew.
pub frees_own : Environment → Option Bytes → Option Bytes → Bool
unfolding split_at_eq
frees_own env from none = false
frees_own env none (some arg) = false
frees_own env (some x) (some arg) = elim (env x) [
  | some value ↦ false
  | none ↦ elim (split_at_eq arg) [ none ↦ false | some (name, value) ↦ str_eq x name ]
]
