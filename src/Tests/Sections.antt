-- ===== src/Tests/Sections.antt =====
-- The program of Shader, from Slang's objects to the decoded view.
use slangmake.Prelude.{
  ℕ, ◌+◌, ◌^◌, ◌<◌, ◌≡◌, refl, Bool, true, ◌&&◌, Bytes, codes, List, [], ◌∷◌, All, Option, none,
  some, ltb, ltb→lt, inl, inr, Bool-cases, arith, bytes_eq,
}
use slangmake.Blob.Words.{IsWord}
use slangmake.Blob.Placed.{Extends-refl}
use slangmake.Reflection.Format.Rows.{Row, FitsWords, u32_row}
use slangmake.Reflection.Section.{finish_section}
use slangmake.Reflection.Section.Writable.{IsWritable, Shows}
use slangmake.Reflection.Section.RoundTrip.{finish_section-Shows}
use slangmake.Reflection.View.{reflection_view, string}
use slangmake.Reflection.View as View
use slangmake.Reflection.Format.Attributes.{Decl}
use slangmake.Reflection.Decode.{DeclNode, decl, EntryPointInfo, decoded_entry_points}
use slangmake.Reflection.Decode.Safety.{AllDecoded, decl-defined}
use slangmake.Reflection.Builder.{intern_str}
use slangmake.Reflection.Builder.Strings.{string-intern_str}
use slangmake.Reflection.Walk.State.{Walk}
use slangmake.Reflection.Walk.{walk_program, start, no_tables, serialize_reflection}
use slangmake.Reflection.Builder.{
  find_string, intern_found, intern_str, intern_c_str, push_u32_list, modifier_ids, push_modifiers,
  add_modifiers, attr_arg, push_args, push_attribute, push_attributes, serialize_attributes,
  add_attributes, fnv1a_32, add_hashed_string,
}
use slangmake.Reflection.Format.Attributes.{
  hashed_str_words, hashed_str_of_words, attr_arg_words, attr_arg_of_words, attribute_words,
  attribute_of_words, decl_words, decl_of_words, hashed_str_row, attr_arg_row, attribute_row,
  decl_row,
}
use slangmake.Reflection.Format.EntryPoints.{
  entry_point_words, entry_point_of_words, entry_point_row,
}
use slangmake.Reflection.Format.Header.{refl_header_words}
use slangmake.Reflection.Format.Ranges.{
  binding_range_words, binding_range_of_words, descriptor_set_words, descriptor_set_of_words,
  descriptor_range_words, descriptor_range_of_words, sub_object_range_words,
  sub_object_range_of_words, binding_range_row, descriptor_set_row, descriptor_range_row,
  sub_object_range_row,
}
use slangmake.Reflection.Format.Types.{
  type_words, type_of_words, type_layout_words, type_layout_of_words, type_row, type_layout_row,
}
use slangmake.Reflection.Format.Variables.{
  variable_words, variable_of_words, var_layout_words, var_layout_of_words, function_words,
  function_of_words, generic_words, generic_of_words, variable_row, var_layout_row, function_row,
  generic_row,
}
use slangmake.Reflection.Section.{
  parts, layout_table, layout_tables, write_table, write_tables, refl_header, write_section,
  finish_section,
}
use slangmake.Reflection.Walk.{
  add_node, add_entry_point, add_entry_points, add_hashed_strings, walk_program,
  serialize_reflection,
}
use slangmake.Reflection.Walk.Layouts.{
  push_descriptor_ranges, push_descriptor_sets, look_up_leaf, push_binding_ranges,
  push_sub_object_ranges, push_all_ranges, push_ranges, fill_type_layout, fill_var_layout,
}
use slangmake.Reflection.Walk.State.{give, on_tables, change, each, find_index, visit_found, visit}
use slangmake.Reflection.Walk.Types.{
  fill_type, default_of, fill_variable, fill_function, constraint_pairs, all_constraints,
  fill_generic, add_payload, fill_decl,
}
use slangmake.Reflection.EndToEnd.{serialize_reflection-ends, serialize_reflection-AllDecoded}
use slangmake.Tests.Shader.{layout, shader, shader-IsBounded}

serialize_reflection-ends_example :
    (section : Bytes) × (serialize_reflection 15 (some shader) ≡ some section)
serialize_reflection-ends_example =
    serialize_reflection-ends shader 2 15 shader-IsBounded (omega arith)

program : Unit {0}
unfolding find_string intern_found intern_str intern_c_str push_u32_list modifier_ids push_modifiers
    add_modifiers attr_arg push_args push_attribute push_attributes serialize_attributes
    add_attributes fnv1a_32 add_hashed_string hashed_str_words hashed_str_of_words attr_arg_words
    attr_arg_of_words attribute_words attribute_of_words decl_words decl_of_words entry_point_words
    entry_point_of_words refl_header_words binding_range_words binding_range_of_words
    descriptor_set_words descriptor_set_of_words descriptor_range_words descriptor_range_of_words
    sub_object_range_words sub_object_range_of_words type_words type_of_words type_layout_words
    type_layout_of_words variable_words variable_of_words var_layout_words var_layout_of_words
    function_words function_of_words generic_words generic_of_words parts layout_table layout_tables
    write_table write_tables refl_header write_section finish_section add_node add_entry_point
    add_entry_points add_hashed_strings walk_program serialize_reflection push_descriptor_ranges
    push_descriptor_sets look_up_leaf push_binding_ranges push_sub_object_ranges push_all_ranges
    push_ranges fill_type_layout fill_var_layout give on_tables change each find_index visit_found
    visit fill_type default_of fill_variable fill_function constraint_pairs all_constraints
    fill_generic add_payload fill_decl bytes_eq
program = tt

abbrev outcome : Option (ℕ × Walk) → Walk
outcome none = start
outcome (some (i, w)) = w

abbrev walked : Walk
walked = outcome (walk_program shader 15 start)

shader_walk : walk_program shader 15 start ≡ some (0xFFFFFFFF, walked)
unfolding program
shader_walk = refl

-- Words in range, by a test.
abbrev small : List ℕ → Bool
small [] = true
small (n ∷ ns) = ltb n (2 ^ 32) && small ns

abbrev all_small : {A : Type 0} → Row A → List A → Bool
all_small row [] = true
all_small row (a ∷ more) = small (row.words a) && all_small row more

small-IsWord : (ns : List ℕ) → small ns ≡ true → All IsWord ns
small-IsWord [] h = tt
small-IsWord (n ∷ ns) h = elim (Bool-cases (ltb n (2 ^ 32))) [
  | inl e ↦ (ltb→lt n (2 ^ 32) e, small-IsWord ns (rw e at h))
  | inr e ↦ cc (rw e at h)
]

all_small-FitsWords :
    {A : Type 0} (row : Row A) (rows : List A)
    → all_small row rows ≡ true
    → All (FitsWords row) rows
all_small-FitsWords row [] h = tt
all_small-FitsWords row (a ∷ more) h = elim (Bool-cases (small (row.words a))) [
  | inl e ↦ (small-IsWord (row.words a) e, all_small-FitsWords row more (rw e at h))
  | inr e ↦ cc (rw e at h)
]

walked-IsWritable : IsWritable 0xFFFFFFFF walked.tables
unfolding program
walked-IsWritable = record {
  fits = omega arith;
  global_fits = omega arith;
  hashed_strs_fit = all_small-FitsWords hashed_str_row walked.tables.hashed_strs refl;
  attr_args_fit = all_small-FitsWords attr_arg_row walked.tables.attr_args refl;
  attrs_fit = all_small-FitsWords attribute_row walked.tables.attrs refl;
  modifier_pool_fit = all_small-FitsWords u32_row walked.tables.modifier_pool refl;
  types_fit = all_small-FitsWords type_row walked.tables.types refl;
  type_layouts_fit = all_small-FitsWords type_layout_row walked.tables.type_layouts refl;
  vars_fit = all_small-FitsWords variable_row walked.tables.vars refl;
  var_layouts_fit = all_small-FitsWords var_layout_row walked.tables.var_layouts refl;
  funcs_fit = all_small-FitsWords function_row walked.tables.funcs refl;
  generics_fit = all_small-FitsWords generic_row walked.tables.generics refl;
  decls_fit = all_small-FitsWords decl_row walked.tables.decls refl;
  entry_points_fit = all_small-FitsWords entry_point_row walked.tables.entry_points refl;
  binding_ranges_fit = all_small-FitsWords binding_range_row walked.tables.binding_ranges refl;
  descriptor_sets_fit = all_small-FitsWords descriptor_set_row walked.tables.descriptor_sets refl;
  descriptor_ranges_fit =
      all_small-FitsWords descriptor_range_row walked.tables.descriptor_ranges refl;
  sub_object_ranges_fit =
      all_small-FitsWords sub_object_range_row walked.tables.sub_object_ranges refl;
  u32_pool_fit = all_small-FitsWords u32_row walked.tables.u32_pool refl;
}

serialize_reflection-AllDecoded_example :
    (infos : List EntryPointInfo) × (decoded_entry_points
        (reflection_view (finish_section layout 0xFFFFFFFF walked.tables))
      ≡ some infos)
    × AllDecoded
        (reflection_view (finish_section layout 0xFFFFFFFF walked.tables))
        walked.tables.entry_points
        infos
serialize_reflection-AllDecoded_example =
    serialize_reflection-AllDecoded shader 2 15 0xFFFFFFFF walked shader-IsBounded (omega arith)
      shader_walk walked-IsWritable

finish_section-Shows_example :
    Shows walked.tables (reflection_view (finish_section layout 0xFFFFFFFF walked.tables))
finish_section-Shows_example =
    finish_section-Shows layout 0xFFFFFFFF walked.tables walked-IsWritable

one_name-IsWritable : IsWritable 0xFFFFFFFF (intern_str (codes "m") no_tables).1
unfolding program
one_name-IsWritable = record {
  fits = omega arith;
  global_fits = omega arith;
  hashed_strs_fit = tt;
  attr_args_fit = tt;
  attrs_fit = tt;
  modifier_pool_fit = tt;
  types_fit = tt;
  type_layouts_fit = tt;
  vars_fit = tt;
  var_layouts_fit = tt;
  funcs_fit = tt;
  generics_fit = tt;
  decls_fit = tt;
  entry_points_fit = tt;
  binding_ranges_fit = tt;
  descriptor_sets_fit = tt;
  descriptor_ranges_fit = tt;
  sub_object_ranges_fit = tt;
  u32_pool_fit = tt;
}

walked_decls :
    All
      (λ (d : Decl). d.child_off + d.child_count < 2 ^ 32)
      (View.decls (reflection_view (finish_section layout 0xFFFFFFFF walked.tables)))
unfolding program
walked_decls = rw finish_section-Shows_example.decls_same (omega arith, tt)

-- the name of the function, interned first
string-intern_str_example :
    string
      (reflection_view (finish_section layout 0xFFFFFFFF (intern_str (codes "m") no_tables).1))
      (intern_str (codes "m") no_tables).0
    ≡ codes "m"
string-intern_str_example =
    string-intern_str layout 0xFFFFFFFF (codes "m") no_tables (intern_str (codes "m") no_tables).1
      tt (omega arith) (cc, tt) (Extends-refl (intern_str (codes "m") no_tables).1.strings)
      one_name-IsWritable

decl-defined_example :
    (node : DeclNode) × (decl (reflection_view (finish_section layout 0xFFFFFFFF walked.tables)) 0
      ≡ some node)
decl-defined_example =
    decl-defined (reflection_view (finish_section layout 0xFFFFFFFF walked.tables)) 0 walked_decls
