-- ===== src/Reflection/Section/Writable.antt =====
-- The tables that a section can hold, and a view that shows them.
use slangmake.Prelude.{◌+◌, ◌*◌, ◌*◌, ℕ, ◌^◌, ◌<◌, ◌≡◌, true, All, arith}
use slangmake.Blob.Words.{IsWord}
use slangmake.Reflection.Format.Rows.{FitsWords, u32_row, u32_row-IsRow}
use slangmake.Reflection.Format.Attributes.{
  hashed_str_row, hashed_str_row-IsRow, attr_arg_row, attr_arg_row-IsRow, attribute_row,
  attribute_row-IsRow, decl_row, decl_row-IsRow,
}
use slangmake.Reflection.Format.Types.{
  type_row, type_row-IsRow, type_layout_row, type_layout_row-IsRow,
}
use slangmake.Reflection.Format.Ranges.{
  binding_range_row, binding_range_row-IsRow, descriptor_set_row, descriptor_set_row-IsRow,
  descriptor_range_row, descriptor_range_row-IsRow, sub_object_range_row,
  sub_object_range_row-IsRow,
}
use slangmake.Reflection.Format.Variables.{
  variable_row, variable_row-IsRow, var_layout_row, var_layout_row-IsRow, function_row,
  function_row-IsRow, generic_row, generic_row-IsRow,
}
use slangmake.Reflection.Format.EntryPoints.{entry_point_row, entry_point_row-IsRow}
use slangmake.Reflection.Format.Header.{refl_header_size}
use slangmake.Reflection.Section.{Tables, parts, layout_tables, first_hash_low, first_hash_high}
use slangmake.Reflection.Section.Placed.{IsPart, table_part-IsPart}
use slangmake.Reflection.View.{
  ReflectionView, is_valid, first_entry_point_hash, types, type_layouts, variables, var_layouts,
  functions, generics, decls, entry_points, attributes, attribute_args, modifier_pool,
  hashed_strings, binding_ranges, descriptor_sets, descriptor_ranges, sub_object_ranges, u32_pool,
}

-- What the format can hold: offsets of 32 bits, and numbers that fit their fields.
pub record IsWritable (global_vl : ℕ) (t : Tables) : Type 0 where
  pub fits : (layout_tables refl_header_size (parts t)).1 < 2 ^ 32
  pub global_fits : IsWord global_vl
  pub types_fit : All (FitsWords type_row) t.types
  pub type_layouts_fit : All (FitsWords type_layout_row) t.type_layouts
  pub vars_fit : All (FitsWords variable_row) t.vars
  pub var_layouts_fit : All (FitsWords var_layout_row) t.var_layouts
  pub funcs_fit : All (FitsWords function_row) t.funcs
  pub generics_fit : All (FitsWords generic_row) t.generics
  pub decls_fit : All (FitsWords decl_row) t.decls
  pub entry_points_fit : All (FitsWords entry_point_row) t.entry_points
  pub attrs_fit : All (FitsWords attribute_row) t.attrs
  pub attr_args_fit : All (FitsWords attr_arg_row) t.attr_args
  pub modifier_pool_fit : All (FitsWords u32_row) t.modifier_pool
  pub hashed_strs_fit : All (FitsWords hashed_str_row) t.hashed_strs
  pub binding_ranges_fit : All (FitsWords binding_range_row) t.binding_ranges
  pub descriptor_sets_fit : All (FitsWords descriptor_set_row) t.descriptor_sets
  pub descriptor_ranges_fit : All (FitsWords descriptor_range_row) t.descriptor_ranges
  pub sub_object_ranges_fit : All (FitsWords sub_object_range_row) t.sub_object_ranges
  pub u32_pool_fit : All (FitsWords u32_row) t.u32_pool

-- A view that shows the tables of the serializer.
pub record Shows (t : Tables) (v : ReflectionView) : Type 0 where
  pub valid_view : is_valid v ≡ true
  pub first_hash_same :
      first_entry_point_hash v
      ≡ first_hash_high t.entry_points * 4294967296 + first_hash_low t.entry_points
  pub types_same : types v ≡ t.types
  pub type_layouts_same : type_layouts v ≡ t.type_layouts
  pub variables_same : variables v ≡ t.vars
  pub var_layouts_same : var_layouts v ≡ t.var_layouts
  pub functions_same : functions v ≡ t.funcs
  pub generics_same : generics v ≡ t.generics
  pub decls_same : decls v ≡ t.decls
  pub entry_points_same : entry_points v ≡ t.entry_points
  pub attributes_same : attributes v ≡ t.attrs
  pub attribute_args_same : attribute_args v ≡ t.attr_args
  pub modifier_pool_same : modifier_pool v ≡ t.modifier_pool
  pub hashed_strings_same : hashed_strings v ≡ t.hashed_strs
  pub binding_ranges_same : binding_ranges v ≡ t.binding_ranges
  pub descriptor_sets_same : descriptor_sets v ≡ t.descriptor_sets
  pub descriptor_ranges_same : descriptor_ranges v ≡ t.descriptor_ranges
  pub sub_object_ranges_same : sub_object_ranges v ≡ t.sub_object_ranges
  pub u32_pool_same : u32_pool v ≡ t.u32_pool

pub parts-IsPart : (t : Tables) → All IsPart (parts t)
unfolding parts
parts-IsPart t = (
  record { size = omega arith; counted = omega arith },
  (
    table_part-IsPart hashed_str_row hashed_str_row-IsRow t.hashed_strs,
    (
      table_part-IsPart attr_arg_row attr_arg_row-IsRow t.attr_args,
      (
        table_part-IsPart attribute_row attribute_row-IsRow t.attrs,
        (
          table_part-IsPart u32_row u32_row-IsRow t.modifier_pool,
          (
            table_part-IsPart type_row type_row-IsRow t.types,
            (
              table_part-IsPart type_layout_row type_layout_row-IsRow t.type_layouts,
              (
                table_part-IsPart variable_row variable_row-IsRow t.vars,
                (
                  table_part-IsPart var_layout_row var_layout_row-IsRow t.var_layouts,
                  (
                    table_part-IsPart function_row function_row-IsRow t.funcs,
                    (
                      table_part-IsPart generic_row generic_row-IsRow t.generics,
                      (
                        table_part-IsPart decl_row decl_row-IsRow t.decls,
                        (
                          table_part-IsPart entry_point_row entry_point_row-IsRow t.entry_points,
                          (
                            table_part-IsPart binding_range_row binding_range_row-IsRow
                                t.binding_ranges,
                            (
                              table_part-IsPart descriptor_set_row descriptor_set_row-IsRow
                                  t.descriptor_sets,
                              (
                                table_part-IsPart descriptor_range_row descriptor_range_row-IsRow
                                    t.descriptor_ranges,
                                (
                                  table_part-IsPart sub_object_range_row sub_object_range_row-IsRow
                                      t.sub_object_ranges,
                                  (table_part-IsPart u32_row u32_row-IsRow t.u32_pool, tt),
                                ),
                              ),
                            ),
                          ),
                        ),
                      ),
                    ),
                  ),
                ),
              ),
            ),
          ),
        ),
      ),
    ),
  ),
)
