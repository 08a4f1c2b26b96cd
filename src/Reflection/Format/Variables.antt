-- ===== src/Reflection/Format/Variables.antt =====
-- Variables, functions and generics of a reflection section (include/slangmake.hpp).
use slangmake.Prelude.{ℕ, List, [], ◌∷◌, ◌≡◌, refl, get_or, arith, ◌+◌, ◌*◌, ◌/◌, ◌%◌}
use slangmake.Reflection.Format.Rows.{Row, IsRow}

pub record Variable : Type 0 where
  pub name_str_idx : ℕ
  pub type_idx : ℕ
  pub modifier_off : ℕ
  pub modifier_count : ℕ
  pub attr_off : ℕ
  pub attr_count : ℕ
  pub has_default : ℕ
  pub default_kind : ℕ
  pub default_value_raw : ℕ  -- uint64_t
  pub generic_container_idx : ℕ

unfoldable pub variable_words : Variable → List ℕ
variable_words r =
    r.name_str_idx
    ∷ r.type_idx
    ∷ r.modifier_off
    ∷ r.modifier_count
    ∷ r.attr_off
    ∷ r.attr_count
    ∷ r.has_default
    ∷ r.default_kind
    ∷ (r.default_value_raw % 4294967296)
    ∷ (r.default_value_raw / 4294967296)
    ∷ r.generic_container_idx
    ∷ []

unfoldable pub variable_of_words : List ℕ → Variable
variable_of_words ws = record {
  name_str_idx = get_or ws 0 0;
  type_idx = get_or ws 1 0;
  modifier_off = get_or ws 2 0;
  modifier_count = get_or ws 3 0;
  attr_off = get_or ws 4 0;
  attr_count = get_or ws 5 0;
  has_default = get_or ws 6 0;
  default_kind = get_or ws 7 0;
  default_value_raw = get_or ws 8 0 + 4294967296 * get_or ws 9 0;
  generic_container_idx = get_or ws 10 0;
}

abbrev pub variable_row : Row Variable
variable_row = record { size = 11; words = variable_words; of_words = variable_of_words }

pub variable_row-IsRow : IsRow variable_row
unfolding variable_words variable_of_words
variable_row-IsRow = record {
  of_words-words = halves_joined;
  length-words = λ r. refl;
  positive = omega arith;
}
  where
    joined : (n : ℕ) → n % 4294967296 + 4294967296 * (n / 4294967296) ≡ n
    joined n = omega arith

    halves_joined : (r : Variable) → variable_of_words (variable_words r) ≡ r
    halves_joined r = λ i. record r { default_value_raw = joined r.default_value_raw i }

pub record VarLayout : Type 0 where
  pub var_idx : ℕ
  pub type_layout_idx : ℕ
  pub category : ℕ
  pub category_count : ℕ
  pub category_pool_off : ℕ
  pub offset_pool_off : ℕ
  pub binding_index : ℕ
  pub binding_space_pool_off : ℕ
  pub image_format : ℕ
  pub semantic_name_str_idx : ℕ
  pub semantic_index : ℕ
  pub stage : ℕ
  pub modifier_off : ℕ
  pub modifier_count : ℕ
  pub attr_off : ℕ
  pub attr_count : ℕ

unfoldable pub var_layout_words : VarLayout → List ℕ
var_layout_words r =
    r.var_idx ∷ r.type_layout_idx ∷ r.category ∷ r.category_count ∷ r.category_pool_off
    ∷ r.offset_pool_off ∷ r.binding_index ∷ r.binding_space_pool_off ∷ r.image_format
    ∷ r.semantic_name_str_idx ∷ r.semantic_index ∷ r.stage ∷ r.modifier_off ∷ r.modifier_count
    ∷ r.attr_off ∷ r.attr_count ∷ []

unfoldable pub var_layout_of_words : List ℕ → VarLayout
var_layout_of_words ws = record {
  var_idx = get_or ws 0 0;
  type_layout_idx = get_or ws 1 0;
  category = get_or ws 2 0;
  category_count = get_or ws 3 0;
  category_pool_off = get_or ws 4 0;
  offset_pool_off = get_or ws 5 0;
  binding_index = get_or ws 6 0;
  binding_space_pool_off = get_or ws 7 0;
  image_format = get_or ws 8 0;
  semantic_name_str_idx = get_or ws 9 0;
  semantic_index = get_or ws 10 0;
  stage = get_or ws 11 0;
  modifier_off = get_or ws 12 0;
  modifier_count = get_or ws 13 0;
  attr_off = get_or ws 14 0;
  attr_count = get_or ws 15 0;
}

abbrev pub var_layout_row : Row VarLayout
var_layout_row = record { size = 16; words = var_layout_words; of_words = var_layout_of_words }

pub var_layout_row-IsRow : IsRow var_layout_row
unfolding var_layout_words var_layout_of_words
var_layout_row-IsRow = record {
  of_words-words = λ r. refl;
  length-words = λ r. refl;
  positive = omega arith;
}

pub record Function : Type 0 where
  pub name_str_idx : ℕ
  pub return_type_idx : ℕ
  pub param_var_off : ℕ
  pub param_var_count : ℕ
  pub modifier_off : ℕ
  pub modifier_count : ℕ
  pub attr_off : ℕ
  pub attr_count : ℕ
  pub generic_container_idx : ℕ

unfoldable pub function_words : Function → List ℕ
function_words r =
    r.name_str_idx ∷ r.return_type_idx ∷ r.param_var_off ∷ r.param_var_count ∷ r.modifier_off
    ∷ r.modifier_count ∷ r.attr_off ∷ r.attr_count ∷ r.generic_container_idx ∷ []

unfoldable pub function_of_words : List ℕ → Function
function_of_words ws = record {
  name_str_idx = get_or ws 0 0;
  return_type_idx = get_or ws 1 0;
  param_var_off = get_or ws 2 0;
  param_var_count = get_or ws 3 0;
  modifier_off = get_or ws 4 0;
  modifier_count = get_or ws 5 0;
  attr_off = get_or ws 6 0;
  attr_count = get_or ws 7 0;
  generic_container_idx = get_or ws 8 0;
}

abbrev pub function_row : Row Function
function_row = record { size = 9; words = function_words; of_words = function_of_words }

pub function_row-IsRow : IsRow function_row
unfolding function_words function_of_words
function_row-IsRow = record {
  of_words-words = λ r. refl;
  length-words = λ r. refl;
  positive = omega arith;
}

pub record Generic : Type 0 where
  pub name_str_idx : ℕ
  pub inner_decl_idx : ℕ
  pub inner_kind : ℕ
  pub type_param_off : ℕ
  pub type_param_count : ℕ
  pub value_param_off : ℕ
  pub value_param_count : ℕ
  pub constraint_pool_off : ℕ
  pub constraint_count : ℕ
  pub outer_generic_idx : ℕ

unfoldable pub generic_words : Generic → List ℕ
generic_words r =
    r.name_str_idx ∷ r.inner_decl_idx ∷ r.inner_kind ∷ r.type_param_off ∷ r.type_param_count
    ∷ r.value_param_off ∷ r.value_param_count ∷ r.constraint_pool_off ∷ r.constraint_count
    ∷ r.outer_generic_idx ∷ []

unfoldable pub generic_of_words : List ℕ → Generic
generic_of_words ws = record {
  name_str_idx = get_or ws 0 0;
  inner_decl_idx = get_or ws 1 0;
  inner_kind = get_or ws 2 0;
  type_param_off = get_or ws 3 0;
  type_param_count = get_or ws 4 0;
  value_param_off = get_or ws 5 0;
  value_param_count = get_or ws 6 0;
  constraint_pool_off = get_or ws 7 0;
  constraint_count = get_or ws 8 0;
  outer_generic_idx = get_or ws 9 0;
}

abbrev pub generic_row : Row Generic
generic_row = record { size = 10; words = generic_words; of_words = generic_of_words }

pub generic_row-IsRow : IsRow generic_row
unfolding generic_words generic_of_words
generic_row-IsRow = record {
  of_words-words = λ r. refl;
  length-words = λ r. refl;
  positive = omega arith;
}
