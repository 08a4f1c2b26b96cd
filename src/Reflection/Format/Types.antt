-- ===== src/Reflection/Format/Types.antt =====
-- The types and type layouts of a reflection section (include/slangmake.hpp).
use slangmake.Prelude.{ℕ, List, [], ◌∷◌, refl, get_or, arith}
use slangmake.Reflection.Format.Rows.{Row, IsRow}

pub record TypeEntry : Type 0 where
  pub kind : ℕ
  pub name_str_idx : ℕ
  pub full_name_str_idx : ℕ
  pub scalar_kind : ℕ
  pub field_count : ℕ
  pub field_pool_off : ℕ
  pub row_count : ℕ
  pub col_count : ℕ
  pub element_type_idx : ℕ
  pub element_count : ℕ
  pub total_array_element_count : ℕ
  pub resource_shape : ℕ
  pub resource_access : ℕ
  pub resource_result_type_idx : ℕ

unfoldable pub type_words : TypeEntry → List ℕ
type_words r =
    r.kind ∷ r.name_str_idx ∷ r.full_name_str_idx ∷ r.scalar_kind ∷ r.field_count ∷ r.field_pool_off
    ∷ r.row_count ∷ r.col_count ∷ r.element_type_idx ∷ r.element_count ∷ r.total_array_element_count
    ∷ r.resource_shape ∷ r.resource_access ∷ r.resource_result_type_idx ∷ []

unfoldable pub type_of_words : List ℕ → TypeEntry
type_of_words ws = record {
  kind = get_or ws 0 0;
  name_str_idx = get_or ws 1 0;
  full_name_str_idx = get_or ws 2 0;
  scalar_kind = get_or ws 3 0;
  field_count = get_or ws 4 0;
  field_pool_off = get_or ws 5 0;
  row_count = get_or ws 6 0;
  col_count = get_or ws 7 0;
  element_type_idx = get_or ws 8 0;
  element_count = get_or ws 9 0;
  total_array_element_count = get_or ws 10 0;
  resource_shape = get_or ws 11 0;
  resource_access = get_or ws 12 0;
  resource_result_type_idx = get_or ws 13 0;
}

abbrev pub type_row : Row TypeEntry
type_row = record { size = 14; words = type_words; of_words = type_of_words }

pub type_row-IsRow : IsRow type_row
unfolding type_words type_of_words
type_row-IsRow = record {
  of_words-words = λ r. refl;
  length-words = λ r. refl;
  positive = omega arith;
}

pub record TypeLayout : Type 0 where
  pub type_idx : ℕ
  pub kind : ℕ
  pub parameter_category : ℕ
  pub category_count : ℕ
  pub category_pool_off : ℕ
  pub field_count : ℕ
  pub field_layout_pool_off : ℕ
  pub container_var_layout_idx : ℕ
  pub element_type_layout_idx : ℕ
  pub element_var_layout_idx : ℕ
  pub explicit_counter_var_layout_idx : ℕ
  pub matrix_layout_mode : ℕ
  pub generic_param_index : ℕ
  pub size_pool_off : ℕ
  pub binding_range_count : ℕ
  pub binding_range_off : ℕ
  pub descriptor_set_count : ℕ
  pub descriptor_set_off : ℕ
  pub sub_object_range_count : ℕ
  pub sub_object_range_off : ℕ

unfoldable pub type_layout_words : TypeLayout → List ℕ
type_layout_words r =
    r.type_idx ∷ r.kind ∷ r.parameter_category ∷ r.category_count ∷ r.category_pool_off
    ∷ r.field_count ∷ r.field_layout_pool_off ∷ r.container_var_layout_idx
    ∷ r.element_type_layout_idx ∷ r.element_var_layout_idx ∷ r.explicit_counter_var_layout_idx
    ∷ r.matrix_layout_mode ∷ r.generic_param_index ∷ r.size_pool_off ∷ r.binding_range_count
    ∷ r.binding_range_off ∷ r.descriptor_set_count ∷ r.descriptor_set_off ∷ r.sub_object_range_count
    ∷ r.sub_object_range_off ∷ []

unfoldable pub type_layout_of_words : List ℕ → TypeLayout
type_layout_of_words ws = record {
  type_idx = get_or ws 0 0;
  kind = get_or ws 1 0;
  parameter_category = get_or ws 2 0;
  category_count = get_or ws 3 0;
  category_pool_off = get_or ws 4 0;
  field_count = get_or ws 5 0;
  field_layout_pool_off = get_or ws 6 0;
  container_var_layout_idx = get_or ws 7 0;
  element_type_layout_idx = get_or ws 8 0;
  element_var_layout_idx = get_or ws 9 0;
  explicit_counter_var_layout_idx = get_or ws 10 0;
  matrix_layout_mode = get_or ws 11 0;
  generic_param_index = get_or ws 12 0;
  size_pool_off = get_or ws 13 0;
  binding_range_count = get_or ws 14 0;
  binding_range_off = get_or ws 15 0;
  descriptor_set_count = get_or ws 16 0;
  descriptor_set_off = get_or ws 17 0;
  sub_object_range_count = get_or ws 18 0;
  sub_object_range_off = get_or ws 19 0;
}

abbrev pub type_layout_row : Row TypeLayout
type_layout_row = record { size = 20; words = type_layout_words; of_words = type_layout_of_words }

pub type_layout_row-IsRow : IsRow type_layout_row
unfolding type_layout_words type_layout_of_words
type_layout_row-IsRow = record {
  of_words-words = λ r. refl;
  length-words = λ r. refl;
  positive = omega arith;
}
