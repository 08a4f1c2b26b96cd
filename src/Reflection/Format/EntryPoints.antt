-- ===== src/Reflection/Format/EntryPoints.antt =====
-- The entry points of a reflection section (include/slangmake.hpp).
use slangmake.Prelude.{ℕ, List, [], ◌∷◌, refl, get_or, arith}
use slangmake.Reflection.Format.Rows.{Row, IsRow}

pub record EntryPoint : Type 0 where
  pub name_str_idx : ℕ
  pub name_override_str_idx : ℕ
  pub stage : ℕ
  pub thread_group_size_x : ℕ
  pub thread_group_size_y : ℕ
  pub thread_group_size_z : ℕ
  pub wave_size : ℕ
  pub uses_any_sample_rate_input : ℕ
  pub has_default_constant_buffer : ℕ
  pub var_layout_idx : ℕ
  pub type_layout_idx : ℕ
  pub result_var_layout_idx : ℕ
  pub function_idx : ℕ
  pub param_var_layout_off : ℕ
  pub param_var_layout_count : ℕ
  pub attr_off : ℕ
  pub attr_count : ℕ
  pub hash_low : ℕ
  pub hash_high : ℕ

unfoldable pub entry_point_words : EntryPoint → List ℕ
entry_point_words r =
    r.name_str_idx ∷ r.name_override_str_idx ∷ r.stage ∷ r.thread_group_size_x
    ∷ r.thread_group_size_y ∷ r.thread_group_size_z ∷ r.wave_size ∷ r.uses_any_sample_rate_input
    ∷ r.has_default_constant_buffer ∷ r.var_layout_idx ∷ r.type_layout_idx ∷ r.result_var_layout_idx
    ∷ r.function_idx ∷ r.param_var_layout_off ∷ r.param_var_layout_count ∷ r.attr_off ∷ r.attr_count
    ∷ r.hash_low ∷ r.hash_high ∷ []

unfoldable pub entry_point_of_words : List ℕ → EntryPoint
entry_point_of_words ws = record {
  name_str_idx = get_or ws 0 0;
  name_override_str_idx = get_or ws 1 0;
  stage = get_or ws 2 0;
  thread_group_size_x = get_or ws 3 0;
  thread_group_size_y = get_or ws 4 0;
  thread_group_size_z = get_or ws 5 0;
  wave_size = get_or ws 6 0;
  uses_any_sample_rate_input = get_or ws 7 0;
  has_default_constant_buffer = get_or ws 8 0;
  var_layout_idx = get_or ws 9 0;
  type_layout_idx = get_or ws 10 0;
  result_var_layout_idx = get_or ws 11 0;
  function_idx = get_or ws 12 0;
  param_var_layout_off = get_or ws 13 0;
  param_var_layout_count = get_or ws 14 0;
  attr_off = get_or ws 15 0;
  attr_count = get_or ws 16 0;
  hash_low = get_or ws 17 0;
  hash_high = get_or ws 18 0;
}

abbrev pub entry_point_row : Row EntryPoint
entry_point_row = record { size = 19; words = entry_point_words; of_words = entry_point_of_words }

pub entry_point_row-IsRow : IsRow entry_point_row
unfolding entry_point_words entry_point_of_words
entry_point_row-IsRow = record {
  of_words-words = λ r. refl;
  length-words = λ r. refl;
  positive = omega arith;
}
