-- ===== src/Tests/Shader.antt =====
-- A program with a struct, a function with an attribute, and one entry point, as Slang's objects.
use slangmake.Prelude.{ℕ, zero, suc, true, false, codes, [], ◌∷◌, none, some, arith}
use slangmake.Reflection.Section.{ProgramLayout}
use slangmake.Reflection.Slang.{
  SlangType, SlangTypeLayout, SlangVariable, SlangVarLayout, SlangFunction, SlangGeneric, SlangDecl,
  SlangEntryPoint, SlangConstants, Slang,
}
use slangmake.Reflection.Walk.Bounded.{BoundedType, IsBounded}

-- type 0 is a struct with the field 0, type 1 is a scalar
abbrev pub types : ℕ → SlangType
types zero = record {
  kind = 1;
  name = some (codes "S");
  full_name = some (codes "S");
  scalar_type = 0;
  fields = some 0 ∷ [];
  row_count = 0;
  column_count = 0;
  element_type = none;
  element_count = 0;
  total_array_element_count = 0;
  resource_shape = 0;
  resource_access = 0;
  resource_result_type = none;
}
types (suc p) = record {
  kind = 4;
  name = some (codes "int");
  full_name = none;
  scalar_type = 3;
  fields = [];
  row_count = 1;
  column_count = 1;
  element_type = none;
  element_count = 99;
  total_array_element_count = 98;
  resource_shape = 0;
  resource_access = 0;
  resource_result_type = none;
}

abbrev pub variables : ℕ → SlangVariable
variables p = record {
  name = some (codes "f");
  type = some 1;
  has_modifier = λ id. false;
  attributes = [];
  has_default = false;
  default_int = none;
  default_float = none;
  generic_container = none;
}

abbrev pub type_layouts : ℕ → SlangTypeLayout
type_layouts p = record {
  type = some 0;
  kind = 1;
  parameter_category = 2;
  categories = record { category = 2; size = 4; stride = 4; alignment = 4 } ∷ [];
  fields = [];
  container_var_layout = none;
  element_type_layout = none;
  element_var_layout = none;
  explicit_counter = none;
  matrix_layout_mode = 0;
  generic_param_index = none;
  binding_ranges = [];
  descriptor_sets = [];
  sub_object_ranges = [];
}

abbrev pub var_layouts : ℕ → SlangVarLayout
var_layouts p = record {
  variable = some 0;
  type_layout = some 0;
  category = 2;
  categories = record { category = 2; offset = 16; space = 1 } ∷ [];
  binding_index = 7;
  image_format = 0;
  semantic_name = none;
  semantic_index = 0;
  stage = 5;
}

abbrev pub functions : ℕ → SlangFunction
functions p = record {
  name = some (codes "m");
  return_type = none;
  parameters = some 0 ∷ [];
  has_modifier = λ id. true;
  attributes =
      some (record {
        name = some (codes "a");
        arguments = record { int_value = some 3; float_value = none; string_value = none } ∷ [];
      })
      ∷ [];
  generic_container = none;
}

abbrev pub generics : ℕ → SlangGeneric
generics p = record {
  name = none;
  inner_kind = 0;
  type_parameters = [];
  value_parameters = [];
  outer_generic = none;
}

abbrev pub decls : ℕ → SlangDecl
decls p = record {
  kind = 2;
  name = some (codes "m");
  type = none;
  function = some 0;
  variable = none;
  generic = none;
  children = [];
}

abbrev pub entry : SlangEntryPoint
entry = record {
  name = some (codes "m");
  name_override = none;
  stage = 6;
  thread_group_size = (8, 4, 1);
  wave_size = 0;
  uses_any_sample_rate_input = false;
  has_default_constant_buffer = false;
  var_layout = none;
  type_layout = none;
  result_var_layout = none;
  function = some 0;
  parameters = some 0 ∷ [];
  hash = some 0x100000002;
}

abbrev pub layout : ProgramLayout
layout = record {
  unknown_size = 98;
  unbounded_size = 99;
  constant_buffer_binding = 0;
  constant_buffer_size = 98;
  bindless_space_index = none;
}

abbrev pub constants : SlangConstants
constants = record {
  unknown_size = 98;
  unbounded_size = 99;
  all_modifiers = 3 ∷ 5 ∷ [];
  struct_kind = 1;
  container_kinds = 6 ∷ [];
  image_bindings = 7 ∷ [];
  decl_struct = 1;
  decl_enum = 6;
  decl_func = 2;
  decl_variable = 5;
  decl_generic = 4;
}

abbrev pub shader : Slang
shader = record {
  constants = constants;
  types = types;
  type_layouts = type_layouts;
  variables = variables;
  var_layouts = var_layouts;
  functions = functions;
  generics = generics;
  decls = decls;
  layout = layout;
  parameters = some 0 ∷ [];
  global_params_var_layout = none;
  module_decl = some 0;
  entry_points = some entry ∷ [];
  hashed_strings = some (codes "hi") ∷ [];
}

types-Bounded : (p : ℕ) → BoundedType 2 (types p)
types-Bounded zero = record {
  fields = (omega arith, tt);
  element_type = tt;
  resource_result_type = tt;
}
types-Bounded (suc p) = record { fields = tt; element_type = tt; resource_result_type = tt }

pub shader-IsBounded : IsBounded 2 shader
shader-IsBounded = record {
  types = λ p h. types-Bounded p;
  type_layouts = λ p h. record {
    type = omega arith;
    fields = tt;
    container = tt;
    element = tt;
    element_var = tt;
    counter = tt;
    leaf_variables = tt;
    offsets = tt;
  };
  variables = λ p h. record { type = omega arith; generic_container = tt };
  var_layouts = λ p h. record { variable = omega arith; type_layout = omega arith };
  functions =
      λ p h. record { return_type = tt; parameters = (omega arith, tt); generic_container = tt };
  generics = λ p h. record { type_parameters = tt; value_parameters = tt; outer_generic = tt };
  decls = λ p h. record {
    type = tt;
    function = omega arith;
    variable = tt;
    generic = tt;
    children = tt;
  };
  parameters = (omega arith, tt);
  global_params = tt;
  module_decl = omega arith;
  entry_points = (
    record {
      var_layout = tt;
      type_layout = tt;
      result_var_layout = tt;
      function = omega arith;
      parameters = (omega arith, tt);
    },
    tt,
  );
}
