-- ===== src/Compiler/TypeArgs.antt =====
-- The specialization of module-scope type parameters in `Compiler::compile`
-- (src/slangmake_compiler.cpp).
use slangmake.Prelude.{
  ℕ, zero, suc, ◌+◌, ◌/◌, ◌%◌, Bool, false, ◌||◌, Bytes, codes, bytes_eq, List, [], ◌∷◌, ◌++◌, map,
  Option, none, some, is_empty, length, ltb, ◌==◌, if◌then◌else◌,
}
use slangmake.Prelude.Sort.{sort}
use slangmake.Permutation.{ShaderConstant}
use slangmake.Permutation.Expand.{bytes_order, find_duplicate_names}
use slangmake.Compiler.Calls.{Library, SpecArg, from_type, from_expr}

-- A value, or the text that the caller appends to the diagnostics before it returns.
pub data Checked {ℓ} (A : Type ℓ) : Type ℓ where
  good : A → Checked A
  bad : Bytes → Checked A

infixl 5 ◌>>=◌ ◌>>◌
abbrev pub ◌>>=◌ {ℓ κ} : {A : Type ℓ} {B : Type κ} → Checked A → (A → Checked B) → Checked B
good a >>= f = f a
bad e >>= f = bad e

abbrev pub ◌>>◌ {ℓ κ} : {A : Type ℓ} {B : Type κ} → Checked A → Checked B → Checked B
m >> k = m >>= λ _. k

-- `findDuplicateBindingNames`.
unfoldable pub find_duplicate_binding_names : List ShaderConstant → List Bytes
find_duplicate_binding_names values = find_duplicate_names (map (λ v. v.name) values)

-- `'a', 'b'`.
unfoldable pub quoted : List Bytes → Bytes
quoted [] = []
quoted (n ∷ []) = codes "'" ++ (n ++ codes "'")
quoted (n ∷ m ∷ ns) = codes "'" ++ (n ++ (codes "', " ++ quoted (m ∷ ns)))

-- `std::to_string`; a number has at most as many digits as its value and one.
unfoldable pub digits : ℕ → ℕ → Bytes
digits zero n = []
digits (suc fuel) n =
    let rest = digits fuel (n / 10) in (if ltb n 10 then [] else rest) ++ ((48 + n % 10) ∷ [])

abbrev pub to_string : ℕ → Bytes
to_string n = digits (suc n) n

-- `argByName.find`; `emplace` keeps the first of two values.
unfoldable pub value_of : List ShaderConstant → Bytes → Option Bytes
value_of [] n = none
value_of (a ∷ args) n =
    let rest = value_of args n in if bytes_eq a.name n then some a.value else rest

unfoldable pub declares : List Bytes → Bytes → Bool
declares [] n = false
declares (d ∷ ds) n = bytes_eq d n || declares ds n

-- The names of the layout's type parameters, from index `i`.
unfoldable pub declared_names : ℕ → List (Option (Option Bytes)) → Checked (List Bytes)
declared_names i [] = good []
declared_names i (none ∷ ps) =
    bad (codes "\ninternal: null type parameter at index " ++ to_string i)
declared_names i (some none ∷ ps) = declared_names (suc i) ps >>= λ ns. good ([] ∷ ns)
declared_names i (some (some n) ∷ ps) = declared_names (suc i) ps >>= λ ns. good (n ∷ ns)

unfoldable pub strays : List Bytes → List ShaderConstant → List Bytes
strays declared [] = []
strays declared (a ∷ args) =
    let rest = strays declared args in if declares declared a.name then rest else a.name ∷ rest

unfoldable pub refuse_strays : List Bytes → List ShaderConstant → Checked (Unit {0})
refuse_strays declared args =
    let unknown = strays declared args in
    if is_empty unknown
    then good tt
    else bad (
        codes "\nunknown typeArg(s) with no matching module-scope `type_param`: "
        ++ quoted (sort bytes_order unknown)
        ++ codes ". Declared parameters: "
        ++ quoted declared)

-- A value that is the name of a type, or else an expression.
unfoldable pub spec_arg : Library → ℕ → Bytes → SpecArg
spec_arg lib layout value = elim (lib.find_type layout value) [
  | some t ↦ from_type t
  | none ↦ from_expr value
]

unfoldable pub required_arg : Bytes → Option Bytes → Checked Bytes
required_arg n none = bad (codes "\nmissing typeArg for generic parameter '" ++ (n ++ codes "'"))
required_arg n (some value) = good value

-- One argument for each declared parameter, in order.
unfoldable pub bind_args : Library → ℕ → List ShaderConstant → List Bytes → Checked (List SpecArg)
bind_args lib layout args [] = good []
bind_args lib layout args (n ∷ ns) = required_arg n (value_of args n) >>= λ value.
    bind_args lib layout args ns >>= λ rest. good (spec_arg lib layout value ∷ rest)

-- A dash between blanks, in UTF-8.
abbrev dash : Bytes
dash = 32 ∷ 226 ∷ 128 ∷ 148 ∷ 32 ∷ []

unfoldable pub refuse_other_params : ℕ → ℕ → Checked (Unit {0})
refuse_other_params total declared =
    if total == declared
    then good tt
    else bad (
        codes "\nmodule has "
        ++ to_string total
        ++ codes " specialization parameters but only "
        ++ to_string declared
        ++ codes " are declared as module-scope `type_param`"
        ++ dash
        ++ codes "slangmake's typeArgs can only "
        ++ codes "bind type_param axes. Refactor the remaining specialisation into type_param "
        ++ codes "declarations or pre-bake them via permutation constants.")

-- The arguments for `specialize`.
unfoldable pub type_arguments : Library → ℕ → ℕ → List ShaderConstant → Checked (List SpecArg)
type_arguments lib composite layout args = do
  let params = lib.type_parameters layout
  refuse_other_params (lib.specialization_params composite) (length params)
  declared ← declared_names 0 params
  refuse_strays declared args
  bind_args lib layout args declared
