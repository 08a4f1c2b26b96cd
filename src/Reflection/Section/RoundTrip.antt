-- ===== src/Reflection/Section/RoundTrip.antt =====
-- A view over the section of a serializer shows each of its tables.
use slangmake.Prelude.{
  ℕ, ◌^◌, ◌<◌, ◌≡◌, refl, sym, ap, ◌∙◌, Bytes, List, ◌++◌, All, All-append, some, get_or, length,
  drop, drop-length_append, arith,
}
use slangmake.Blob.Writer.Emit.{pad_until}
use slangmake.Blob.Words.{IsWord}
use slangmake.Blob.Padding.{pad_until_full}
use slangmake.Reflection.Format.Rows.{u32_row, u32_row-IsRow}
use slangmake.Reflection.Format.Attributes.{
  hashed_str_row, hashed_str_row-IsRow, attr_arg_row, attr_arg_row-IsRow, attribute_row,
  attribute_row-IsRow, decl_row, decl_row-IsRow,
}
use slangmake.Reflection.Format.Types.{
  type_row, type_row-IsRow, type_layout_row, type_layout_row-IsRow,
}
use slangmake.Reflection.Format.Ranges.{
  binding_range_row, binding_range_row-IsRow, descriptor_set_row, descriptor_set_row-IsRow,
  descriptor_range_row, descriptor_range_row-IsRow, sub_object_range_row,
  sub_object_range_row-IsRow,
}
use slangmake.Reflection.Format.Variables.{
  variable_row, variable_row-IsRow, var_layout_row, var_layout_row-IsRow, function_row,
  function_row-IsRow, generic_row, generic_row-IsRow,
}
use slangmake.Reflection.Format.EntryPoints.{entry_point_row, entry_point_row-IsRow}
use slangmake.Reflection.Format.Header.{
  ReflHeader, TableRef, no_ref, IsRef, refl_header_size, refl_header_bytes, refl_header_words,
  header_refs, ref_words, load_refl_header-bytes, length-refl_header_bytes, ref_words-IsWord,
  load_refl_header,
}
use slangmake.Reflection.Section.{
  Tables, no_part, ProgramLayout, parts, layout_tables, write_tables, refl_header, write_section,
  finish_section,
}
use slangmake.Reflection.Section.Placed.{
  IsAt, Written, write_tables-Written, layout_tables-le, layout_tables-IsRef,
}
use slangmake.Reflection.View.{
  reflection_view, is_valid, first_entry_point_hash, types, type_layouts, variables, var_layouts,
  functions, generics, decls, entry_points, attributes, attribute_args, modifier_pool,
  hashed_strings, binding_ranges, descriptor_sets, descriptor_ranges, sub_object_ranges, u32_pool,
}
use slangmake.Reflection.Section.Writable.{IsWritable, Shows, parts-IsPart}
use slangmake.Reflection.Section.Front.{
  fixed_words, first_hashes-IsWord, bindless-IsWord, nth-IsRef, table_span-IsAt, view-of_header,
}

module _ (layout : ProgramLayout) (global_vl : ℕ) (t : Tables) (ok : IsWritable global_vl t) where
  abbrev pub laid : List TableRef × ℕ
  laid = layout_tables refl_header_size (parts t)

  abbrev pub hdr : ReflHeader
  hdr = refl_header layout global_vl t laid

  abbrev pub front : Bytes
  front = refl_header_bytes hdr

  pub written : Written front (write_tables laid.0 (parts t) front) laid.0 laid.1 (parts t)
  written =
      write_tables-Written (parts t) refl_header_size front (length-refl_header_bytes hdr)
        (parts-IsPart t) ok.fits

  -- The header is written again over itself.
  pub finish-write_tables : finish_section layout global_vl t ≡ write_tables laid.0 (parts t) front
  unfolding finish_section write_section
  finish-write_tables =
      let body = write_tables laid.0 (parts t) front in
      let full : pad_until laid.1 body ≡ body =
        pad_until_full laid.1 body (omega (arith, written.whole)) in
      let (more, e) = written.extends in
      rw (full, e)
        (ap (◌++◌ front) (
          ap (λ n. drop n (front ++ more)) (sym (length-refl_header_bytes hdr))
          ∙ drop-length_append front more))

  laid-IsRef : (i : ℕ) → IsRef (get_or laid.0 i no_ref)
  laid-IsRef i = nth-IsRef laid.0 i (layout_tables-IsRef refl_header_size (parts t))

  header_refs-IsRef : All IsRef (header_refs hdr)
  unfolding refl_header
  header_refs-IsRef = (
    laid-IsRef 0,
    (
      laid-IsRef 1,
      (
        laid-IsRef 2,
        (
          laid-IsRef 3,
          (
            laid-IsRef 4,
            (
              laid-IsRef 5,
              (
                laid-IsRef 6,
                (
                  laid-IsRef 7,
                  (
                    laid-IsRef 8,
                    (
                      laid-IsRef 9,
                      (
                        laid-IsRef 10,
                        (
                          laid-IsRef 11,
                          (
                            laid-IsRef 12,
                            (
                              laid-IsRef 13,
                              (
                                laid-IsRef 14,
                                (laid-IsRef 15, (laid-IsRef 16, (laid-IsRef 17, tt))),
                              ),
                            ),
                          ),
                        ),
                      ),
                    ),
                  ),
                ),
              ),
            ),
          ),
        ),
      ),
    ),
  )

  fixed-IsWord : All IsWord (fixed_words hdr)
  unfolding refl_header
  fixed-IsWord = (
    omega arith,
    (
      omega arith,
      (
        omega arith,
        (
          omega arith,
          (
            (first_hashes-IsWord t.entry_points ok.entry_points_fit).0,
            (
              (first_hashes-IsWord t.entry_points ok.entry_points_fit).1,
              (
                ground arith,
                (ground arith, (ok.global_fits, (bindless-IsWord layout.bindless_space_index, tt))),
              ),
            ),
          ),
        ),
      ),
    ),
  )

  hdr-IsWord : All IsWord (refl_header_words hdr)
  unfolding refl_header_words
  hdr-IsWord =
      All-append IsWord (fixed_words hdr) (ref_words (header_refs hdr)) fixed-IsWord
        (ref_words-IsWord (header_refs hdr) (header_refs-IsRef))

  pub section_view :
      reflection_view (finish_section layout global_vl t)
      ≡ record { bytes = finish_section layout global_vl t; hdr = some hdr }
  section_view =
      let whole : length (finish_section layout global_vl t) ≡ laid.1 =
        ap length finish-write_tables ∙ written.whole in
      view-of_header (finish_section layout global_vl t) hdr
        (ap load_refl_header (finish-write_tables ∙ written.extends.1)
          ∙ load_refl_header-bytes hdr written.extends.0 hdr-IsWord)
        (omega (arith, whole, layout_tables-le refl_header_size (parts t)))
        (unfold refl_header in refl) (unfold refl_header in refl)
        (unfold refl_header in omega (arith, whole))

  pub section_fits : length (finish_section layout global_vl t) < 2 ^ 32
  section_fits = omega (arith, ap length finish-write_tables, written.whole, ok.fits)

  pub section-IsAt :
      (i : ℕ)
      → i < length (parts t)
      → IsAt
          (finish_section layout global_vl t)
          (get_or laid.0 i no_ref)
          (get_or (parts t) i no_part)
  section-IsAt i l = rw finish-write_tables (written.at i l)

  abbrev section_bytes : Bytes
  section_bytes = finish_section layout global_vl t

  -- Where the tables fit the format, a view over the section is valid and each of its seventeen
  -- accessors returns the serializer's table.
  pub finish_section-Shows : Shows t (reflection_view (finish_section layout global_vl t))
  unfolding parts refl_header is_valid first_entry_point_hash types type_layouts variables
      var_layouts functions generics decls entry_points attributes attribute_args modifier_pool
      hashed_strings binding_ranges descriptor_sets descriptor_ranges sub_object_ranges u32_pool
  finish_section-Shows = rw section_view record {
    valid_view = refl;
    first_hash_same = refl;
    types_same =
        table_span-IsAt type_row type_row-IsRow t.types ok.types_fit section_bytes hdr (λ h. h.type)
          (section-IsAt 5 (omega arith));
    type_layouts_same =
        table_span-IsAt type_layout_row type_layout_row-IsRow t.type_layouts ok.type_layouts_fit
          section_bytes hdr (λ h. h.type_layout) (section-IsAt 6 (omega arith));
    variables_same =
        table_span-IsAt variable_row variable_row-IsRow t.vars ok.vars_fit section_bytes hdr
          (λ h. h.var) (section-IsAt 7 (omega arith));
    var_layouts_same =
        table_span-IsAt var_layout_row var_layout_row-IsRow t.var_layouts ok.var_layouts_fit
          section_bytes hdr (λ h. h.var_layout) (section-IsAt 8 (omega arith));
    functions_same =
        table_span-IsAt function_row function_row-IsRow t.funcs ok.funcs_fit section_bytes hdr
          (λ h. h.func) (section-IsAt 9 (omega arith));
    generics_same =
        table_span-IsAt generic_row generic_row-IsRow t.generics ok.generics_fit section_bytes hdr
          (λ h. h.generic) (section-IsAt 10 (omega arith));
    decls_same =
        table_span-IsAt decl_row decl_row-IsRow t.decls ok.decls_fit section_bytes hdr (λ h. h.decl)
          (section-IsAt 11 (omega arith));
    entry_points_same =
        table_span-IsAt entry_point_row entry_point_row-IsRow t.entry_points ok.entry_points_fit
          section_bytes hdr (λ h. h.entry_point) (section-IsAt 12 (omega arith));
    attributes_same =
        table_span-IsAt attribute_row attribute_row-IsRow t.attrs ok.attrs_fit section_bytes hdr
          (λ h. h.attr) (section-IsAt 3 (omega arith));
    attribute_args_same =
        table_span-IsAt attr_arg_row attr_arg_row-IsRow t.attr_args ok.attr_args_fit section_bytes
          hdr (λ h. h.attr_arg) (section-IsAt 2 (omega arith));
    modifier_pool_same =
        table_span-IsAt u32_row u32_row-IsRow t.modifier_pool ok.modifier_pool_fit section_bytes hdr
          (λ h. h.modifier) (section-IsAt 4 (omega arith));
    hashed_strings_same =
        table_span-IsAt hashed_str_row hashed_str_row-IsRow t.hashed_strs ok.hashed_strs_fit
          section_bytes hdr (λ h. h.hashed_str) (section-IsAt 1 (omega arith));
    binding_ranges_same =
        table_span-IsAt binding_range_row binding_range_row-IsRow t.binding_ranges
          ok.binding_ranges_fit section_bytes hdr (λ h. h.binding_range)
          (section-IsAt 13 (omega arith));
    descriptor_sets_same =
        table_span-IsAt descriptor_set_row descriptor_set_row-IsRow t.descriptor_sets
          ok.descriptor_sets_fit section_bytes hdr (λ h. h.descriptor_set)
          (section-IsAt 14 (omega arith));
    descriptor_ranges_same =
        table_span-IsAt descriptor_range_row descriptor_range_row-IsRow t.descriptor_ranges
          ok.descriptor_ranges_fit section_bytes hdr (λ h. h.descriptor_range)
          (section-IsAt 15 (omega arith));
    sub_object_ranges_same =
        table_span-IsAt sub_object_range_row sub_object_range_row-IsRow t.sub_object_ranges
          ok.sub_object_ranges_fit section_bytes hdr (λ h. h.sub_object_range)
          (section-IsAt 16 (omega arith));
    u32_pool_same =
        table_span-IsAt u32_row u32_row-IsRow t.u32_pool ok.u32_pool_fit section_bytes hdr
          (λ h. h.u32_pool) (section-IsAt 17 (omega arith));
  }
