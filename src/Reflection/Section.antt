-- ===== src/Reflection/Section.antt =====
-- The tables that a `ReflectionSerializer` fills, and the end of `serialize`: the layout of the
-- tables and their emission (src/slangmake_reflection_serialize.cpp).
pub mod Placed
pub mod Writable
pub mod Front
pub mod RoundTrip
use slangmake.Prelude.{
  ℕ, ◌+◌, ◌*◌, ◌<◌, ◌||◌, Bytes, List, [], ◌∷◌, ◌++◌, Option, none, some, get_or, length, drop,
  ◌==◌, if◌then◌else◌,
}
use slangmake.Blob.Writer.Layout.{u32, align8}
use slangmake.Blob.Writer.Emit.{pad_until}
use slangmake.Reflection.Format.Rows.{Row, table_bytes, u32_row}
use slangmake.Reflection.Format.Attributes.{
  HashedStr, hashed_str_row, AttrArg, attr_arg_row, Attribute, attribute_row, Decl, decl_row,
}
use slangmake.Reflection.Format.Types.{TypeEntry, type_row, TypeLayout, type_layout_row}
use slangmake.Reflection.Format.Ranges.{
  BindingRange, binding_range_row, DescriptorSet, descriptor_set_row, DescriptorRange,
  descriptor_range_row, SubObjectRange, sub_object_range_row,
}
use slangmake.Reflection.Format.Variables.{
  Variable, variable_row, VarLayout, var_layout_row, Function, function_row, Generic, generic_row,
}
use slangmake.Reflection.Format.EntryPoints.{EntryPoint, entry_point_row}
use slangmake.Reflection.Format.Header.{
  ReflHeader, TableRef, no_ref, reflection_magic, reflection_version, invalid_index,
  refl_header_size, refl_header_bytes,
}

-- The vectors of `ReflectionSerializer`; `string_idx` is the map `m_stringIdx`.
pub record Tables : Type 0 where
  pub strings : Bytes
  pub string_idx : List (Bytes × ℕ)
  pub hashed_strs : List HashedStr
  pub attr_args : List AttrArg
  pub attrs : List Attribute
  pub modifier_pool : List ℕ
  pub types : List TypeEntry
  pub type_layouts : List TypeLayout
  pub vars : List Variable
  pub var_layouts : List VarLayout
  pub funcs : List Function
  pub generics : List Generic
  pub decls : List Decl
  pub entry_points : List EntryPoint
  pub binding_ranges : List BindingRange
  pub descriptor_sets : List DescriptorSet
  pub descriptor_ranges : List DescriptorRange
  pub sub_object_ranges : List SubObjectRange
  pub u32_pool : List ℕ

-- The arguments of one call of `layoutTable`, and the bytes that `writeTable` gets.
pub record Part : Type 0 where
  pub count : ℕ
  pub stride : ℕ
  pub payload : Bytes

abbrev pub no_part : Part
no_part = record { count = 0; stride = 0; payload = [] }

abbrev pub strings_part : Bytes → Part
strings_part s = record { count = length s; stride = 1; payload = s }

abbrev pub table_part : {A : Type 0} → Row A → List A → Part
table_part row rows = record {
  count = length rows;
  stride = row.size * 4;
  payload = table_bytes row rows;
}

-- The tables in the order of the calls.
unfoldable pub parts : Tables → List Part
parts t =
    strings_part t.strings
    ∷ table_part hashed_str_row t.hashed_strs
    ∷ table_part attr_arg_row t.attr_args
    ∷ table_part attribute_row t.attrs
    ∷ table_part u32_row t.modifier_pool
    ∷ table_part type_row t.types
    ∷ table_part type_layout_row t.type_layouts
    ∷ table_part variable_row t.vars
    ∷ table_part var_layout_row t.var_layouts
    ∷ table_part function_row t.funcs
    ∷ table_part generic_row t.generics
    ∷ table_part decl_row t.decls
    ∷ table_part entry_point_row t.entry_points
    ∷ table_part binding_range_row t.binding_ranges
    ∷ table_part descriptor_set_row t.descriptor_sets
    ∷ table_part descriptor_range_row t.descriptor_ranges
    ∷ table_part sub_object_range_row t.sub_object_ranges
    ∷ table_part u32_row t.u32_pool
    ∷ []

-- `layoutTable` at `cur`: the table's place, and the end of it.
unfoldable pub layout_table : ℕ → Part → TableRef × ℕ
layout_table cur p =
    (record { off = u32 (align8 cur); count = u32 p.count }, align8 cur + p.count * p.stride)

unfoldable pub layout_tables : ℕ → List Part → List TableRef × ℕ
layout_tables cur [] = ([], cur)
layout_tables cur (p ∷ ps) =
    let (r, next) = layout_table cur p in let (rs, last) = layout_tables next ps in (r ∷ rs, last)

-- `writeTable`.
unfoldable pub write_table : TableRef → Part → Bytes → Bytes
write_table r p out = pad_until r.off out ++ p.payload

unfoldable pub write_tables : List TableRef → List Part → Bytes → Bytes
write_tables (r ∷ rs) (p ∷ ps) out = write_tables rs ps (write_table r p out)
write_tables _ _ out = out

-- What `serialize` asks of Slang's program layout; a negative bindless space is `none`.
pub record ProgramLayout : Type 0 where
  pub unknown_size : ℕ  -- SLANG_UNKNOWN_SIZE
  pub unbounded_size : ℕ  -- SLANG_UNBOUNDED_SIZE
  pub constant_buffer_binding : ℕ
  pub constant_buffer_size : ℕ
  pub bindless_space_index : Option ℕ

-- `m_entryPoints.empty() ? 0u : m_entryPoints[0].hashLow`, and the high half.
abbrev pub first_hash_low : List EntryPoint → ℕ
first_hash_low [] = 0
first_hash_low (e ∷ es) = e.hash_low

abbrev pub first_hash_high : List EntryPoint → ℕ
first_hash_high [] = 0
first_hash_high (e ∷ es) = e.hash_high

unfoldable pub refl_header : ProgramLayout → ℕ → Tables → List TableRef × ℕ → ReflHeader
refl_header layout global_vl t (refs, cur) = record {
  magic = reflection_magic;
  version = reflection_version;
  size = u32 cur;
  flags = 0;
  entry_point_hash_low = first_hash_low t.entry_points;
  entry_point_hash_high = first_hash_high t.entry_points;
  global_cb_binding =
      if layout.constant_buffer_binding == layout.unknown_size
      then invalid_index
      else u32 layout.constant_buffer_binding;
  global_cb_size =
      if (layout.constant_buffer_size == layout.unknown_size)
        || (layout.constant_buffer_size == layout.unbounded_size)
      then invalid_index
      else u32 layout.constant_buffer_size;
  global_params_var_layout_idx = global_vl;
  bindless_space_index = elim layout.bindless_space_index [ none ↦ invalid_index | some b ↦ u32 b ];
  strings = get_or refs 0 no_ref;
  hashed_str = get_or refs 1 no_ref;
  attr_arg = get_or refs 2 no_ref;
  attr = get_or refs 3 no_ref;
  modifier = get_or refs 4 no_ref;
  type = get_or refs 5 no_ref;
  type_layout = get_or refs 6 no_ref;
  var = get_or refs 7 no_ref;
  var_layout = get_or refs 8 no_ref;
  func = get_or refs 9 no_ref;
  generic = get_or refs 10 no_ref;
  decl = get_or refs 11 no_ref;
  entry_point = get_or refs 12 no_ref;
  binding_range = get_or refs 13 no_ref;
  descriptor_set = get_or refs 14 no_ref;
  descriptor_range = get_or refs 15 no_ref;
  sub_object_range = get_or refs 16 no_ref;
  u32_pool = get_or refs 17 no_ref;
}

-- The buffer: the header, the tables at their offsets, zeros up to the end, and the header again
-- over the first bytes.
unfoldable pub write_section : ReflHeader → List TableRef × ℕ → List Part → Bytes
write_section hdr (refs, cur) ps =
    let out = pad_until cur (write_tables refs ps (refl_header_bytes hdr)) in
    refl_header_bytes hdr ++ drop refl_header_size out

-- The end of `serialize`, where the tables are full and `global_vl` is the index of the layout of
-- the global parameters.
unfoldable pub finish_section : ProgramLayout → ℕ → Tables → Bytes
finish_section layout global_vl t =
    let laid = layout_tables refl_header_size (parts t) in
    write_section (refl_header layout global_vl t laid) laid (parts t)
