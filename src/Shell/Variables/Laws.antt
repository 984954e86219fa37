-- ===== src/Shell/Variables/Laws.antt =====
-- What `local` and `export` do to the value of every variable.
use schoolwork.Common.{
  ◌≤◌, ◌<◌, ◌≡◌, refl, sym, subst, ◌≢◌, inl, inr, none, some, List, [], ◌∷◌, ◌++◌, arith, ltb, ◌==◌,
  if◌then◌else◌, tests, Bool-cases, length, length-append, All,
}
use schoolwork.Common.Bytes.{Bytes, str_eq, str_eq_iff}
use schoolwork.Shell.Variables.{
  Variable, Variables, Environment, max_variables, split_at_eq, remove_variable, set_variable,
  wsh_local, setenv, wsh_export, find_variable, variable_value, expand_arguments,
}

abbrev pub HasNot : Bytes → Variables → Type 0
HasNot name vars = All (λ v. v.name ≢ name) vars

-- No name twice, and no more variables than the array holds.
abbrev pub Distinct : Variables → Type 0
Distinct [] = Unit
Distinct (v ∷ vs) = HasNot v.name vs × Distinct vs

pub record IsValid (vars : Variables) : Type 0 where
  pub distinct : Distinct vars
  pub bounded : length vars ≤ max_variables

find_variable-HasNot :
    (vars : Variables) (name : Bytes) → HasNot name vars → find_variable vars name ≡ none
unfolding find_variable
find_variable-HasNot [] name h = refl
find_variable-HasNot (v ∷ vs) name h =
    ground (arith, str_eq_iff name v.name, find_variable-HasNot vs name h.1)

HasNot-remove :
    (vars : Variables) (name j : Bytes) → HasNot j vars → HasNot j (remove_variable vars name)
unfolding remove_variable
HasNot-remove [] name j h = tt
HasNot-remove (v ∷ vs) name j h = elim (Bool-cases (str_eq v.name name)) [
  | inl e ↦ rw e h.1
  | inr e ↦ rw e (h.0, HasNot-remove vs name j h.1)
]

Distinct-remove :
    (vars : Variables) (name : Bytes) → Distinct vars → Distinct (remove_variable vars name)
unfolding remove_variable
Distinct-remove [] name d = tt
Distinct-remove (v ∷ vs) name d = elim (Bool-cases (str_eq v.name name)) [
  | inl e ↦ rw e d.1
  | inr e ↦ rw e (HasNot-remove vs name v.name d.0, Distinct-remove vs name d.1)
]

removed :
    (vars : Variables) (name : Bytes) → Distinct vars → HasNot name (remove_variable vars name)
unfolding remove_variable
removed [] name d = tt
removed (v ∷ vs) name d = elim (Bool-cases (str_eq v.name name)) [
  | inl e ↦ rw e (subst (λ n. HasNot n vs) ((str_eq_iff v.name name).0 e) d.0)
  | inr e ↦ rw e (λ q. ground (arith, str_eq_iff v.name name), removed vs name d.1)
]

length-remove : (vars : Variables) (name : Bytes) → length (remove_variable vars name) ≤ length vars
unfolding remove_variable
length-remove [] name = omega arith
length-remove (v ∷ vs) name = ground (arith, length-remove vs name)

HasNot-append :
    (vars : Variables) (j : Bytes) (v : Variable)
    → HasNot j vars
    → v.name ≢ j
    → HasNot j (vars ++ (v ∷ []))
HasNot-append [] j v h n = (n, tt)
HasNot-append (w ∷ vs) j v h n = (h.0, HasNot-append vs j v h.1 n)

Distinct-append :
    (vars : Variables) (v : Variable)
    → Distinct vars
    → HasNot v.name vars
    → Distinct (vars ++ (v ∷ []))
Distinct-append [] v d h = (tt, tt)
Distinct-append (w ∷ vs) v d h =
    (HasNot-append vs w.name v d.0 (λ e. h.0 (sym e)), Distinct-append vs v d.1 h.1)

find-remove :
    (vars : Variables) (name j : Bytes)
    → name ≢ j
    → find_variable (remove_variable vars name) j ≡ find_variable vars j
unfolding find_variable remove_variable
find-remove [] name j ne = refl
find-remove (v ∷ vs) name j ne =
    ground (arith, str_eq_iff v.name name, str_eq_iff j v.name, find-remove vs name j ne)

find-append :
    (vars : Variables) (v : Variable) (j : Bytes)
    → HasNot v.name vars
    → find_variable (vars ++ (v ∷ [])) j
      ≡ (if str_eq j v.name then some v.value else find_variable vars j)
unfolding find_variable
find-append [] v j h = refl
find-append (w ∷ vs) v j h =
    ground (arith, str_eq_iff j w.name, str_eq_iff j v.name, find-append vs v j h.1)

-- Setting a variable keeps the names distinct and their number within the array.
pub set_variable-IsValid :
    {vars : Variables} (name value : Bytes) → IsValid vars → IsValid (set_variable vars name value)
unfolding set_variable
set_variable-IsValid {vars} name value v = elim (Bool-cases (length value == 0)) [
  | inl e ↦ rw e kept
  | inr e ↦ elim (Bool-cases (ltb (length vs) max_variables)) [
    | inl f ↦
        rw (e, f)
          record {
            distinct = Distinct-append vs _ kept.distinct (removed vars name v.distinct);
            bounded =
                omega (tests, f, length-append vs (record { name = name; value = value } ∷ []));
          }
    | inr f ↦ rw (e, f) kept
  ]
]
  where
    vs : Variables
    vs = remove_variable vars name

    kept : IsValid vs
    kept = record {
      distinct = Distinct-remove vars name v.distinct;
      bounded = omega (arith, v.bounded, length-remove vars name);
    }

-- After `local name=value` the name has the value, or none if the value is empty, and every other
-- name is as before. There must be room for one variable more.
pub find-set_variable :
    {vars : Variables} (name value j : Bytes)
    → IsValid vars
    → length vars < max_variables
    → find_variable (set_variable vars name value) j ≡ (
        if str_eq j name
        then (if length value == 0 then none else some value)
        else find_variable vars j)
unfolding set_variable
find-set_variable {vars} name value j v room = ground (
  arith,
  length-remove vars name,
  find-append (remove_variable vars name) (record { name = name; value = value }) j
      (removed vars name v.distinct),
  find_variable-HasNot (remove_variable vars name) name (removed vars name v.distinct),
  find-remove vars name j,
  str_eq_iff j name,
)

split_at_eq-first :
    (name value : Bytes)
    → All (λ c. c ≢ b'=') name
    → split_at_eq (name ++ (b'=' ∷ value)) ≡ some (name, value)
unfolding split_at_eq
split_at_eq-first [] value h = refl
split_at_eq-first (c ∷ name) value h = ground (arith, split_at_eq-first name value h.1)

-- With valid variables and room for one more, `local name=value`, for a name without `=`: the name
-- then has the value, or none if the value is empty, every other name is as before, and a name that
-- the environment has keeps its value from there.
pub variable_value-wsh_local :
    {vars : Variables} (env : Environment) (name value j : Bytes)
    → IsValid vars
    → length vars < max_variables
    → All (λ c. c ≢ b'=') name
    → variable_value env (wsh_local vars (some (name ++ (b'=' ∷ value)))) j ≡ elim (env j) [
      | some held ↦ some held
      | none ↦
          if str_eq j name
          then (if length value == 0 then none else some value)
          else find_variable vars j
    ]
unfolding variable_value wsh_local
variable_value-wsh_local {vars} env name value j v room h =
    ground (arith, split_at_eq-first name value h, find-set_variable name value j v room)

split_at_eq-none : (name : Bytes) → All (λ c. c ≢ b'=') name → split_at_eq name ≡ none
unfolding split_at_eq
split_at_eq-none [] h = refl
split_at_eq-none (c ∷ name) h = ground (arith, split_at_eq-none name h.1)

-- `export name=value`, for a name that is not empty and has no `=`: the name then has that value,
-- whatever shell variable has the name, and every other name is as before.
pub variable_value-wsh_export :
    (vars : Variables) (env : Environment) (name value j : Bytes)
    → name ≢ []
    → All (λ c. c ≢ b'=') name
    → variable_value (wsh_export env (some (name ++ (b'=' ∷ value)))) vars j
      ≡ (if str_eq name j then some value else variable_value env vars j)
unfolding variable_value wsh_export setenv
variable_value-wsh_export vars env name value j ne h =
    ground (arith, split_at_eq-first name value h, split_at_eq-none name h, nonempty name ne)
  where
    nonempty : (n : Bytes) → n ≢ [] → length n ≢ 0
    nonempty [] ne = absurd (ne refl)
    nonempty (c ∷ n) ne = omega arith

-- Expansion never makes the argument list longer.
pub length-expand_arguments :
    (env : Environment) (vars : Variables) (args : List Bytes)
    → length (expand_arguments env vars args) ≤ length args
unfolding expand_arguments
length-expand_arguments env vars [] = omega arith
length-expand_arguments env vars (a ∷ args) = ground (arith, length-expand_arguments env vars args)
