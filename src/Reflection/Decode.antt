-- ===== src/Reflection/Decode.antt =====
-- The decoding half of `ReflectionView` (src/slangmake_reflection.cpp). `none` is a read outside a
-- span, which the code does not guard against.
pub mod Safety
use slangmake.Prelude.{
  ℕ, zero, suc, ◌+◌, ◌*◌, Bytes, List, [], ◌∷◌, ◌&&◌, Option, none, some, get_elem?, get_or, length,
  take, drop, ltb, leb, ◌==◌, if◌then◌else◌, ◌>>=◌, arith,
}
use slangmake.Blob.Writer.Layout.{u32}
use slangmake.Reflection.Format.Header.{invalid_index}
use slangmake.Reflection.Format.Attributes.{AttrArg, Attribute, Decl}
use slangmake.Reflection.Format.Types.{TypeLayout}
use slangmake.Reflection.Format.Variables.{VarLayout}
use slangmake.Reflection.Format.EntryPoints.{EntryPoint}
use slangmake.Reflection.View.{
  ReflectionView, string, types, type_layouts, variables, var_layouts, entry_points, attributes,
  attribute_args, u32_pool, decls,
}

pub record Param : Type 0 where
  pub name : Bytes
  pub category : ℕ
  pub space : ℕ
  pub binding : ℕ
  pub byte_offset : ℕ
  pub byte_size : ℕ
  pub element_count : ℕ
  pub image_format : ℕ
  pub semantic_name : Bytes
  pub semantic_index : ℕ
  pub stage : ℕ

-- `(count > 0 && off < pool.size()) ? pool[off] : 0`.
unfoldable pub pool_value : List ℕ → ℕ → ℕ → ℕ
pool_value pool count off = if ltb 0 count && ltb off (length pool) then get_or pool off 0 else 0

unfoldable pub variable_name : ReflectionView → ℕ → Bytes
variable_name v i = elim (get_elem? (variables v) i) [
  | none ↦ []
  | some x ↦ string v x.name_str_idx
]

unfoldable pub element_count_of : ReflectionView → TypeLayout → ℕ
element_count_of v tl = elim (get_elem? (types v) tl.type_idx) [
  | none ↦ 1
  | some ty ↦ if ty.element_count == invalid_index then 1 else ty.element_count
]

unfoldable pub decode_param : ReflectionView → VarLayout → Param
decode_param v vl =
    let pool = u32_pool v in
    let tl = get_elem? (type_layouts v) vl.type_layout_idx in
    record {
      name = variable_name v vl.var_idx;
      category = vl.category;
      space = pool_value pool vl.category_count vl.binding_space_pool_off;
      binding = vl.binding_index;
      byte_offset = pool_value pool vl.category_count vl.offset_pool_off;
      byte_size = elim tl [
        | none ↦ 0
        | some tl ↦ pool_value pool tl.category_count tl.size_pool_off
      ];
      element_count = elim tl [ none ↦ 1 | some tl ↦ element_count_of v tl ];
      image_format = vl.image_format;
      semantic_name = string v vl.semantic_name_str_idx;
      semantic_index = vl.semantic_index;
      stage = vl.stage;
    }

-- `xs[off + k]`, `xs[off + k + 1]`, ..., `n` elements; the sums are taken in `uint32_t`.
unfoldable pub read_run {ℓ} : {A : Type ℓ} → List A → ℕ → ℕ → ℕ → Option (List A)
read_run xs off k zero = some []
read_run xs off k (suc n) =
    get_elem? xs (u32 (off + k)) >>= λ x. read_run xs off (suc k) n >>= λ rest. some (x ∷ rest)

-- The loop over the indices: one that is no index of a layout is passed over.
unfoldable pub params_of : ReflectionView → List ℕ → List Param
params_of v [] = []
params_of v (i ∷ is) = elim (get_elem? (var_layouts v) i) [
  | none ↦ params_of v is
  | some vl ↦ decode_param v vl ∷ params_of v is
]

unfoldable pub decode_attributes :
    ReflectionView → List Attribute → Option (List (Bytes × List AttrArg))
decode_attributes v [] = some []
decode_attributes v (a ∷ more) = read_run (attribute_args v) a.arg_off 0 a.arg_count >>= λ args.
    decode_attributes v more >>= λ rest. some ((string v a.name_str_idx, args) ∷ rest)

pub record EntryPointInfo : Type 0 where
  pub name : Bytes
  pub name_override : Bytes
  pub stage : ℕ
  pub thread_group_size : ℕ × ℕ × ℕ
  pub wave_size : ℕ
  pub hash : ℕ
  pub parameters : List Param
  pub attributes : List (Bytes × List AttrArg)

unfoldable pub entry_point_info :
    ReflectionView → EntryPoint → List ℕ → List (Bytes × List AttrArg) → EntryPointInfo
entry_point_info v ep indices attrs = record {
  name = string v ep.name_str_idx;
  name_override = string v ep.name_override_str_idx;
  stage = ep.stage;
  thread_group_size = (ep.thread_group_size_x, ep.thread_group_size_y, ep.thread_group_size_z);
  wave_size = ep.wave_size;
  hash = ep.hash_high * 4294967296 + ep.hash_low;
  parameters = params_of v indices;
  attributes = attrs;
}

unfoldable pub decode_entry_point : ReflectionView → EntryPoint → Option EntryPointInfo
decode_entry_point v ep =
    read_run (u32_pool v) ep.param_var_layout_off 0 ep.param_var_layout_count >>= λ indices.
    read_run (attributes v) ep.attr_off 0 ep.attr_count >>= λ found.
    decode_attributes v found >>= λ attrs. some (entry_point_info v ep indices attrs)

unfoldable pub decode_all : ReflectionView → List EntryPoint → Option (List EntryPointInfo)
decode_all v [] = some []
decode_all v (ep ∷ eps) =
    decode_entry_point v ep >>= λ info. decode_all v eps >>= λ rest. some (info ∷ rest)

-- An invalid view has no entry points, so its answer is the empty list.
unfoldable pub decoded_entry_points : ReflectionView → Option (List EntryPointInfo)
decoded_entry_points v = decode_all v (entry_points v)

unfoldable pub fields_of_layout : ReflectionView → TypeLayout → Option (List Param)
fields_of_layout v tl =
    read_run (u32_pool v) tl.field_layout_pool_off 0 tl.field_count >>= λ indices.
    some (params_of v indices)

-- An index that is `invalid_index` or behind the layouts gives no parameter.
unfoldable pub decoded_global_parameters : ReflectionView → Option (List Param)
decoded_global_parameters v = elim v.hdr [
  | none ↦ some []
  | some h ↦
      if h.global_params_var_layout_idx == invalid_index
      then some []
      else elim (get_elem? (var_layouts v) h.global_params_var_layout_idx) [
        | none ↦ some []
        | some gvl ↦ elim (get_elem? (type_layouts v) gvl.type_layout_idx) [
          | none ↦ some []
          | some tl ↦ fields_of_layout v tl
        ]
      ]
]

pub record DeclNode : Type 0 where
  pub kind : ℕ
  pub name : Bytes
  pub children : List ℕ
  pub payload_idx : ℕ
  pub parent_decl_idx : ℕ

abbrev pub no_node : DeclNode
no_node = record { kind = 0; name = []; children = []; payload_idx = 0; parent_decl_idx = 0 }

-- `subspan(off, n)`, which must lie inside the span.
unfoldable pub subspan {ℓ} : {A : Type ℓ} → List A → ℕ → ℕ → Option (List A)
subspan xs off n = if leb (off + n) (length xs) then some (take n (drop off xs)) else none

-- The test of the range is made on a sum in `uint32_t`.
unfoldable pub decl_children : List ℕ → Decl → Option (List ℕ)
decl_children pool d =
    if leb (u32 (d.child_off + d.child_count)) (length pool)
    then subspan pool d.child_off d.child_count
    else some []

unfoldable pub node_of : ReflectionView → Decl → Option DeclNode
node_of v d = decl_children (u32_pool v) d >>= λ cs. some (record {
  kind = d.kind;
  name = string v d.name_str_idx;
  children = cs;
  payload_idx = d.payload_idx;
  parent_decl_idx = d.parent_decl_idx;
})

unfoldable pub decl : ReflectionView → ℕ → Option DeclNode
decl v i = elim (get_elem? (decls v) i) [ none ↦ some no_node | some d ↦ node_of v d ]

-- `std::nullopt` is `none` inside.
unfoldable pub root_decl : ReflectionView → Option (Option DeclNode)
root_decl v = elim (decls v) [ [] ↦ some none | d ∷ ds ↦ decl v 0 >>= λ n. some (some n) ]
