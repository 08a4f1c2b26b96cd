-- ===== src/Reflection/View.antt =====
-- `ReflectionView`: the header checks and the table accessors (src/slangmake_reflection.cpp). The
-- accessors do no check of their own: what a span reads behind the end of the bytes is 0 here.
use slangmake.Prelude.{
  ℕ, ◌+◌, ◌*◌, Bool, true, false, not, Bytes, List, [], ◌∷◌, Option, none, some, length, get_elem?,
  drop, ltb, leb, ◌==◌, if◌then◌else◌,
}
use slangmake.Reflection.Format.Rows.{Row, read_table, u32_row}
use slangmake.Reflection.Format.Attributes.{
  HashedStr, hashed_str_row, AttrArg, attr_arg_row, Attribute, attribute_row, Decl, decl_row,
}
use slangmake.Reflection.Format.Types.{TypeEntry, type_row, TypeLayout, type_layout_row}
use slangmake.Reflection.Format.Ranges.{
  BindingRange, binding_range_row, DescriptorSet, descriptor_set_row, DescriptorRange,
  descriptor_range_row, SubObjectRange, sub_object_range_row,
}
use slangmake.Reflection.Format.Variables.{
  Variable, variable_row, VarLayout, var_layout_row, Function, function_row, Generic, generic_row,
}
use slangmake.Reflection.Format.EntryPoints.{EntryPoint, entry_point_row}
use slangmake.Reflection.Format.Header.{
  ReflHeader, TableRef, reflection_magic, reflection_version, invalid_index, refl_header_size,
  load_refl_header,
}

-- `m_hdr` is `none` for a null pointer.
pub record ReflectionView : Type 0 where
  pub bytes : Bytes
  pub hdr : Option ReflHeader

unfoldable pub reflection_view : Bytes → ReflectionView
reflection_view bytes =
    let hdr = load_refl_header bytes in
    if ltb (length bytes) refl_header_size
    then record { bytes = bytes; hdr = none }
    else if not (hdr.magic == reflection_magic)
    then record { bytes = bytes; hdr = none }
    else if not (hdr.version == reflection_version)
    then record { bytes = bytes; hdr = none }
    else if ltb (length bytes) hdr.size
    then record { bytes = bytes; hdr = none }
    else record { bytes = bytes; hdr = some hdr }

unfoldable pub is_valid : ReflectionView → Bool
is_valid v = elim v.hdr [ none ↦ false | some h ↦ true ]

-- The two halves do not overlap, so `|` is a sum.
unfoldable pub first_entry_point_hash : ReflectionView → ℕ
first_entry_point_hash v = elim v.hdr [
  | none ↦ 0
  | some h ↦ h.entry_point_hash_high * 4294967296 + h.entry_point_hash_low
]

unfoldable pub global_constant_buffer_binding : ReflectionView → ℕ
global_constant_buffer_binding v = elim v.hdr [
  | none ↦ invalid_index
  | some h ↦ h.global_cb_binding
]

unfoldable pub global_constant_buffer_size : ReflectionView → ℕ
global_constant_buffer_size v = elim v.hdr [ none ↦ invalid_index | some h ↦ h.global_cb_size ]

unfoldable pub bindless_space : ReflectionView → ℕ
bindless_space v = elim v.hdr [ none ↦ invalid_index | some h ↦ h.bindless_space_index ]

unfoldable pub global_params_var_layout : ReflectionView → Option ℕ
global_params_var_layout v = elim v.hdr [
  | none ↦ none
  | some h ↦
      if h.global_params_var_layout_idx == invalid_index
      then none
      else some h.global_params_var_layout_idx
]

-- `tableSpan`, behind the test of `m_hdr` that every accessor has.
unfoldable pub table_span : {A : Type 0} → Row A → (ReflHeader → TableRef) → ReflectionView → List A
table_span row f v = elim v.hdr [
  | none ↦ []
  | some h ↦ read_table row (f h).count (drop (f h).off v.bytes)
]

unfoldable pub types : ReflectionView → List TypeEntry
types v = table_span type_row (λ h. h.type) v

unfoldable pub type_layouts : ReflectionView → List TypeLayout
type_layouts v = table_span type_layout_row (λ h. h.type_layout) v

unfoldable pub variables : ReflectionView → List Variable
variables v = table_span variable_row (λ h. h.var) v

unfoldable pub var_layouts : ReflectionView → List VarLayout
var_layouts v = table_span var_layout_row (λ h. h.var_layout) v

unfoldable pub functions : ReflectionView → List Function
functions v = table_span function_row (λ h. h.func) v

unfoldable pub generics : ReflectionView → List Generic
generics v = table_span generic_row (λ h. h.generic) v

unfoldable pub decls : ReflectionView → List Decl
decls v = table_span decl_row (λ h. h.decl) v

unfoldable pub entry_points : ReflectionView → List EntryPoint
entry_points v = table_span entry_point_row (λ h. h.entry_point) v

unfoldable pub attributes : ReflectionView → List Attribute
attributes v = table_span attribute_row (λ h. h.attr) v

unfoldable pub attribute_args : ReflectionView → List AttrArg
attribute_args v = table_span attr_arg_row (λ h. h.attr_arg) v

unfoldable pub modifier_pool : ReflectionView → List ℕ
modifier_pool v = table_span u32_row (λ h. h.modifier) v

unfoldable pub hashed_strings : ReflectionView → List HashedStr
hashed_strings v = table_span hashed_str_row (λ h. h.hashed_str) v

unfoldable pub binding_ranges : ReflectionView → List BindingRange
binding_ranges v = table_span binding_range_row (λ h. h.binding_range) v

unfoldable pub descriptor_sets : ReflectionView → List DescriptorSet
descriptor_sets v = table_span descriptor_set_row (λ h. h.descriptor_set) v

unfoldable pub descriptor_ranges : ReflectionView → List DescriptorRange
descriptor_ranges v = table_span descriptor_range_row (λ h. h.descriptor_range) v

unfoldable pub sub_object_ranges : ReflectionView → List SubObjectRange
sub_object_ranges v = table_span sub_object_range_row (λ h. h.sub_object_range) v

unfoldable pub u32_pool : ReflectionView → List ℕ
u32_pool v = table_span u32_row (λ h. h.u32_pool) v

-- `std::string_view(const char*)`: the bytes in front of the first NUL.
unfoldable pub c_string : Bytes → Bytes
c_string [] = []
c_string (b ∷ bs) = let rest = c_string bs in if b == 0 then [] else b ∷ rest

unfoldable pub string : ReflectionView → ℕ → Bytes
string v i = elim v.hdr [
  | none ↦ []
  | some h ↦
      if i == invalid_index
      then []
      else if leb h.strings.count i
      then []
      else c_string (drop (h.strings.off + i) v.bytes)
]

unfoldable pub hashed_string : ReflectionView → ℕ → Bytes
hashed_string v i = elim (get_elem? (hashed_strings v) i) [
  | none ↦ []
  | some s ↦ string v s.str_idx
]
