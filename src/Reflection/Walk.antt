-- ===== src/Reflection/Walk.antt =====
-- The walk of a `ReflectionSerializer` over Slang's objects, and `serialize` as a whole
-- (src/slangmake_reflection_serialize.cpp). The recursion of the functions `add...` is on fuel.
pub mod State
pub mod Types
pub mod Layouts
pub mod Unvisited
pub mod Total
pub mod Slots
pub mod Bounded
pub mod Fills
pub mod LayoutFills
pub mod Program
use slangmake.Prelude.{
  ℕ, zero, suc, ◌+◌, ◌*◌, ◌/◌, ◌%◌, ◌^◌, Bytes, List, [], ◌∷◌, ◌++◌, Option, none, some, length,
}
use slangmake.Blob.Writer.Layout.{u32}
use slangmake.Reflection.Format.Header.{invalid_index}
use slangmake.Reflection.Format.EntryPoints.{EntryPoint}
use slangmake.Reflection.Builder.{
  SlangAttribute, intern_c_str, push_u32_list, add_attributes, add_hashed_string,
}
use slangmake.Reflection.Section.{Tables, finish_section}
use slangmake.Reflection.Slang.{Slang, SlangEntryPoint, SlangFunction}
use State.{
  Node, type, type_layout, variable, var_layout, function, generic, decl, Walk, Action, ◌>>=◌, ◌>>◌,
  give, on_tables, change, each, visit, type_slot, type_layout_slot, variable_slot, var_layout_slot,
  function_slot, generic_slot, decl_slot,
}
use Types.{add, bool_word, fill_type, fill_variable, fill_function, fill_generic, fill_decl}
use Layouts.{fill_type_layout, fill_var_layout}

-- `addType`, `addTypeLayout`, `addVariable`, `addVarLayout`, `addFunction`, `addGeneric`, `addDecl`
-- for a pointer that is not null.
unfoldable pub add_node : Slang → ℕ → Node → Action ℕ
add_node g zero n = λ w. none
add_node g (suc fuel) (type p) = visit type_slot p (λ i. fill_type g (add_node g fuel) p)
add_node g (suc fuel) (type_layout p) =
    visit type_layout_slot p (λ i. fill_type_layout g (add_node g fuel) p)
add_node g (suc fuel) (variable p) =
    visit variable_slot p (λ i. fill_variable g (add_node g fuel) p)
add_node g (suc fuel) (var_layout p) =
    visit var_layout_slot p (λ i. fill_var_layout g (add_node g fuel) p)
add_node g (suc fuel) (function p) =
    visit function_slot p (λ i. fill_function g (add_node g fuel) p)
add_node g (suc fuel) (generic p) = visit generic_slot p (λ i. fill_generic g (add_node g fuel) p)
add_node g (suc fuel) (decl p parent) =
    visit decl_slot p (λ i. fill_decl g (add_node g fuel) p parent i)

abbrev pub push_entry_point : EntryPoint → Tables → Tables
push_entry_point e t = record t { entry_points = t.entry_points ++ (e ∷ []) }

module _ (g : Slang) (fuel : ℕ) where
  abbrev pub add_object : (ℕ → Node) → Option ℕ → Action ℕ
  add_object = add g (add_node g fuel)

  -- `addAttributesFromFunc(ep->getFunction())`.
  abbrev pub function_attributes : Option ℕ → Option (List (Option SlangAttribute))
  function_attributes none = none
  function_attributes (some p) = some (g.functions p).attributes

  abbrev pub hash_low : Option ℕ → ℕ
  hash_low none = 0
  hash_low (some h) = h % 2 ^ 32

  abbrev pub hash_high : Option ℕ → ℕ
  hash_high none = 0
  hash_high (some h) = u32 (h / 2 ^ 32)

  unfoldable pub add_entry_point : SlangEntryPoint → Action (Unit {0})
  add_entry_point e = do
    name ← on_tables (intern_c_str e.name)
    name_override ← on_tables (intern_c_str e.name_override)
    own_layout ← add_object var_layout e.var_layout
    own_type_layout ← add_object type_layout e.type_layout
    result ← add_object var_layout e.result_var_layout
    fn ← add_object function e.function
    params ← each (add_object var_layout) e.parameters
    off ← on_tables (push_u32_list params)
    attrs ← on_tables (add_attributes (function_attributes e.function))
    change (
        push_entry_point (record {
          name_str_idx = name;
          name_override_str_idx = name_override;
          stage = u32 e.stage;
          thread_group_size_x = u32 e.thread_group_size.0;
          thread_group_size_y = u32 e.thread_group_size.1;
          thread_group_size_z = u32 e.thread_group_size.2;
          wave_size = u32 e.wave_size;
          uses_any_sample_rate_input = bool_word e.uses_any_sample_rate_input;
          has_default_constant_buffer = bool_word e.has_default_constant_buffer;
          var_layout_idx = own_layout;
          type_layout_idx = own_type_layout;
          result_var_layout_idx = result;
          function_idx = fn;
          param_var_layout_off = off;
          param_var_layout_count = u32 (length e.parameters);
          attr_off = attrs.0;
          attr_count = attrs.1;
          hash_low = hash_low e.hash;
          hash_high = hash_high e.hash;
        }))

  -- A null entry point is passed over.
  unfoldable pub add_entry_points : List (Option SlangEntryPoint) → Action (Unit {0})
  add_entry_points [] = give tt
  add_entry_points (none ∷ more) = add_entry_points more
  add_entry_points (some e ∷ more) = add_entry_point e >> add_entry_points more

  unfoldable pub add_hashed_strings : List (Option Bytes) → Action (Unit {0})
  add_hashed_strings [] = give tt
  add_hashed_strings (s ∷ more) = change (add_hashed_string s) >> add_hashed_strings more

  -- The walk of `serialize`; its result is the index of the global parameters' layout.
  unfoldable pub walk_program : Action ℕ
  walk_program = do
    each (add_object var_layout) g.parameters
    global_vl ← add_object var_layout g.global_params_var_layout
    add_object (λ p. decl p invalid_index) g.module_decl
    add_entry_points g.entry_points
    add_hashed_strings g.hashed_strings
    give global_vl

abbrev pub no_tables : Tables
no_tables = record {
  strings = [];
  string_idx = [];
  hashed_strs = [];
  attr_args = [];
  attrs = [];
  modifier_pool = [];
  types = [];
  type_layouts = [];
  vars = [];
  var_layouts = [];
  funcs = [];
  generics = [];
  decls = [];
  entry_points = [];
  binding_ranges = [];
  descriptor_sets = [];
  descriptor_ranges = [];
  sub_object_ranges = [];
  u32_pool = [];
}

abbrev pub start : Walk
start = record {
  tables = no_tables;
  type_idx = [];
  type_layout_idx = [];
  var_idx = [];
  var_layout_idx = [];
  func_idx = [];
  generic_idx = [];
  decl_idx = [];
}

-- `serializeReflection`; without a layout of the program the section is empty.
unfoldable pub serialize_reflection : ℕ → Option Slang → Option Bytes
serialize_reflection fuel none = some []
serialize_reflection fuel (some g) = elim (walk_program g fuel start) [
  | none ↦ none
  | some (global_vl, w) ↦ some (finish_section g.layout global_vl w.tables)
]
