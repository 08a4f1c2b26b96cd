-- ===== src/Reflection/Format/Ranges.antt =====
-- The ranges and sets of a type layout (include/slangmake.hpp).
use slangmake.Prelude.{ℕ, List, [], ◌∷◌, refl, get_or, arith}
use slangmake.Reflection.Format.Rows.{Row, IsRow}

pub record BindingRange : Type 0 where
  pub binding_type : ℕ
  pub binding_count : ℕ
  pub leaf_type_layout_idx : ℕ
  pub leaf_variable_idx : ℕ
  pub image_format : ℕ
  pub is_specializable : ℕ
  pub descriptor_set_index : ℕ
  pub first_descriptor_range_index : ℕ
  pub descriptor_range_count : ℕ

unfoldable pub binding_range_words : BindingRange → List ℕ
binding_range_words r =
    r.binding_type ∷ r.binding_count ∷ r.leaf_type_layout_idx ∷ r.leaf_variable_idx ∷ r.image_format
    ∷ r.is_specializable ∷ r.descriptor_set_index ∷ r.first_descriptor_range_index
    ∷ r.descriptor_range_count ∷ []

unfoldable pub binding_range_of_words : List ℕ → BindingRange
binding_range_of_words ws = record {
  binding_type = get_or ws 0 0;
  binding_count = get_or ws 1 0;
  leaf_type_layout_idx = get_or ws 2 0;
  leaf_variable_idx = get_or ws 3 0;
  image_format = get_or ws 4 0;
  is_specializable = get_or ws 5 0;
  descriptor_set_index = get_or ws 6 0;
  first_descriptor_range_index = get_or ws 7 0;
  descriptor_range_count = get_or ws 8 0;
}

abbrev pub binding_range_row : Row BindingRange
binding_range_row = record {
  size = 9;
  words = binding_range_words;
  of_words = binding_range_of_words;
}

pub binding_range_row-IsRow : IsRow binding_range_row
unfolding binding_range_words binding_range_of_words
binding_range_row-IsRow = record {
  of_words-words = λ r. refl;
  length-words = λ r. refl;
  positive = omega arith;
}

pub record DescriptorSet : Type 0 where
  pub space_offset : ℕ
  pub descriptor_range_start : ℕ
  pub descriptor_range_count : ℕ
  pub pad : ℕ

unfoldable pub descriptor_set_words : DescriptorSet → List ℕ
descriptor_set_words r =
    r.space_offset ∷ r.descriptor_range_start ∷ r.descriptor_range_count ∷ r.pad ∷ []

unfoldable pub descriptor_set_of_words : List ℕ → DescriptorSet
descriptor_set_of_words ws = record {
  space_offset = get_or ws 0 0;
  descriptor_range_start = get_or ws 1 0;
  descriptor_range_count = get_or ws 2 0;
  pad = get_or ws 3 0;
}

abbrev pub descriptor_set_row : Row DescriptorSet
descriptor_set_row = record {
  size = 4;
  words = descriptor_set_words;
  of_words = descriptor_set_of_words;
}

pub descriptor_set_row-IsRow : IsRow descriptor_set_row
unfolding descriptor_set_words descriptor_set_of_words
descriptor_set_row-IsRow = record {
  of_words-words = λ r. refl;
  length-words = λ r. refl;
  positive = omega arith;
}

pub record DescriptorRange : Type 0 where
  pub index_offset : ℕ
  pub descriptor_count : ℕ
  pub binding_type : ℕ
  pub parameter_category : ℕ

unfoldable pub descriptor_range_words : DescriptorRange → List ℕ
descriptor_range_words r =
    r.index_offset ∷ r.descriptor_count ∷ r.binding_type ∷ r.parameter_category ∷ []

unfoldable pub descriptor_range_of_words : List ℕ → DescriptorRange
descriptor_range_of_words ws = record {
  index_offset = get_or ws 0 0;
  descriptor_count = get_or ws 1 0;
  binding_type = get_or ws 2 0;
  parameter_category = get_or ws 3 0;
}

abbrev pub descriptor_range_row : Row DescriptorRange
descriptor_range_row = record {
  size = 4;
  words = descriptor_range_words;
  of_words = descriptor_range_of_words;
}

pub descriptor_range_row-IsRow : IsRow descriptor_range_row
unfolding descriptor_range_words descriptor_range_of_words
descriptor_range_row-IsRow = record {
  of_words-words = λ r. refl;
  length-words = λ r. refl;
  positive = omega arith;
}

pub record SubObjectRange : Type 0 where
  pub binding_range_index : ℕ
  pub space_offset : ℕ
  pub offset_var_layout_idx : ℕ

unfoldable pub sub_object_range_words : SubObjectRange → List ℕ
sub_object_range_words r = r.binding_range_index ∷ r.space_offset ∷ r.offset_var_layout_idx ∷ []

unfoldable pub sub_object_range_of_words : List ℕ → SubObjectRange
sub_object_range_of_words ws = record {
  binding_range_index = get_or ws 0 0;
  space_offset = get_or ws 1 0;
  offset_var_layout_idx = get_or ws 2 0;
}

abbrev pub sub_object_range_row : Row SubObjectRange
sub_object_range_row = record {
  size = 3;
  words = sub_object_range_words;
  of_words = sub_object_range_of_words;
}

pub sub_object_range_row-IsRow : IsRow sub_object_range_row
unfolding sub_object_range_words sub_object_range_of_words
sub_object_range_row-IsRow = record {
  of_words-words = λ r. refl;
  length-words = λ r. refl;
  positive = omega arith;
}
