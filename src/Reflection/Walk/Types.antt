-- ===== src/Reflection/Walk/Types.antt =====
-- `addType`, `addVariable`, `addFunction`, `addGeneric` and `addDecl` behind the search in the map:
-- how a row is filled (src/slangmake_reflection_serialize.cpp). `rec` adds another object.
use slangmake.Prelude.{
  ℕ, ◌/◌, ◌||◌, Bool, true, false, List, [], ◌∷◌, ◌++◌, Option, none, some, length, ◌==◌,
  if◌then◌else◌,
}
use slangmake.Blob.Writer.Layout.{u32}
use slangmake.Reflection.Format.Header.{invalid_index}
use slangmake.Reflection.Format.Attributes.{Decl}
use slangmake.Reflection.Format.Types.{TypeEntry}
use slangmake.Reflection.Format.Variables.{Variable, Function, Generic}
use slangmake.Reflection.Builder.{intern_c_str, push_u32_list, add_modifiers, add_attributes}
use slangmake.Reflection.Slang.{Slang, SlangVariable, SlangTypeParameter, SlangDecl}
use slangmake.Reflection.Walk.State.{
  Node, type, variable, function, generic, decl, Action, ◌>>=◌, give, on_tables, each,
}

abbrev pub bool_word : Bool → ℕ
bool_word true = 1
bool_word false = 0

-- `SLANG_UNKNOWN_SIZE` and `SLANG_UNBOUNDED_SIZE` become the invalid index.
abbrev pub count_word : Slang → ℕ → ℕ
count_word g n =
    if (n == g.constants.unknown_size) || (n == g.constants.unbounded_size)
    then invalid_index
    else u32 n

module _ (g : Slang) (rec : Node → Action ℕ) where
  -- A null pointer has the invalid index.
  abbrev pub add : (ℕ → Node) → Option ℕ → Action ℕ
  add kind none = give invalid_index
  add kind (some p) = rec (kind p)

  -- Fields are listed for a struct only.
  abbrev pub fields_of : ℕ → List (Option ℕ) → List (Option ℕ)
  fields_of kind fields = if kind == g.constants.struct_kind then fields else []

  unfoldable pub fill_type : ℕ → Action TypeEntry
  fill_type p = do
    let t = g.types p
    name ← on_tables (intern_c_str t.name)
    full_name ← on_tables (intern_c_str t.full_name)
    fields ← each (add variable) (fields_of t.kind t.fields)
    off ← on_tables (push_u32_list fields)
    element ← add type t.element_type
    result ← add type t.resource_result_type
    give (record {
      kind = u32 t.kind;
      name_str_idx = name;
      full_name_str_idx = full_name;
      scalar_kind = u32 t.scalar_type;
      field_count = u32 (length (fields_of t.kind t.fields));
      field_pool_off = off;
      row_count = u32 t.row_count;
      col_count = u32 t.column_count;
      element_type_idx = element;
      element_count = count_word g t.element_count;
      total_array_element_count = count_word g t.total_array_element_count;
      resource_shape = u32 t.resource_shape;
      resource_access = u32 t.resource_access;
      resource_result_type_idx = result;
    })

  -- `defaultKind` and `defaultValueRaw`.
  unfoldable pub default_of : SlangVariable → ℕ × ℕ
  default_of v =
      if v.has_default
      then elim v.default_int [
        | some n ↦ (1, n)
        | none ↦ elim v.default_float [ some d ↦ (2, d) | none ↦ (0, 0) ]
      ]
      else (0, 0)

  unfoldable pub fill_variable : ℕ → Action Variable
  fill_variable p = do
    let v = g.variables p
    name ← on_tables (intern_c_str v.name)
    t ← add type v.type
    mods ← on_tables (add_modifiers g.constants.all_modifiers (some v.has_modifier))
    attrs ← on_tables (add_attributes (some v.attributes))
    container ← add generic v.generic_container
    give (record {
      name_str_idx = name;
      type_idx = t;
      modifier_off = mods.0;
      modifier_count = mods.1;
      attr_off = attrs.0;
      attr_count = attrs.1;
      has_default = bool_word v.has_default;
      default_kind = (default_of v).0;
      default_value_raw = (default_of v).1;
      generic_container_idx = container;
    })

  unfoldable pub fill_function : ℕ → Action Function
  fill_function p = do
    let f = g.functions p
    name ← on_tables (intern_c_str f.name)
    result ← add type f.return_type
    params ← each (add variable) f.parameters
    off ← on_tables (push_u32_list params)
    mods ← on_tables (add_modifiers g.constants.all_modifiers (some f.has_modifier))
    attrs ← on_tables (add_attributes (some f.attributes))
    container ← add generic f.generic_container
    give (record {
      name_str_idx = name;
      return_type_idx = result;
      param_var_off = off;
      param_var_count = u32 (length f.parameters);
      modifier_off = mods.0;
      modifier_count = mods.1;
      attr_off = attrs.0;
      attr_count = attrs.1;
      generic_container_idx = container;
    })

  -- The pairs of one type parameter, whose index is `i`.
  unfoldable pub constraint_pairs : ℕ → List (Option ℕ) → Action (List ℕ)
  constraint_pairs i [] = give []
  constraint_pairs i (c ∷ more) = do
    t ← add type c
    rest ← constraint_pairs i more
    give (i ∷ t ∷ rest)

  unfoldable pub all_constraints : List ℕ → List SlangTypeParameter → Action (List ℕ)
  all_constraints (i ∷ is) (p ∷ ps) = do
    pairs ← constraint_pairs i p.constraints
    rest ← all_constraints is ps
    give (pairs ++ rest)
  all_constraints _ _ = give []

  unfoldable pub fill_generic : ℕ → Action Generic
  fill_generic p = do
    let c = g.generics p
    name ← on_tables (intern_c_str c.name)
    type_params ← each (λ (x : SlangTypeParameter). add variable x.parameter) c.type_parameters
    type_off ← on_tables (push_u32_list type_params)
    value_params ← each (add variable) c.value_parameters
    value_off ← on_tables (push_u32_list value_params)
    pairs ← all_constraints type_params c.type_parameters
    pair_off ← on_tables (push_u32_list pairs)
    outer ← add generic c.outer_generic
    give (record {
      name_str_idx = name;
      inner_decl_idx = invalid_index;
      inner_kind = u32 c.inner_kind;
      type_param_off = type_off;
      type_param_count = u32 (length c.type_parameters);
      value_param_off = value_off;
      value_param_count = u32 (length c.value_parameters);
      constraint_pool_off = pair_off;
      constraint_count = u32 (length pairs / 2);
      outer_generic_idx = outer;
    })

  -- What a declaration is of, by its kind.
  unfoldable pub add_payload : SlangDecl → Action ℕ
  add_payload d =
      if (d.kind == g.constants.decl_struct) || (d.kind == g.constants.decl_enum)
      then add type d.type
      else if d.kind == g.constants.decl_func
      then add function d.function
      else if d.kind == g.constants.decl_variable
      then add variable d.variable
      else if d.kind == g.constants.decl_generic
      then add generic d.generic
      else give invalid_index

  unfoldable pub fill_decl : ℕ → ℕ → ℕ → Action Decl
  fill_decl p parent i = do
    let d = g.decls p
    name ← on_tables (intern_c_str d.name)
    payload ← add_payload d
    children ← each (add (λ q. decl q i)) d.children
    off ← on_tables (push_u32_list children)
    give (record {
      kind = u32 d.kind;
      name_str_idx = name;
      parent_decl_idx = parent;
      child_off = off;
      child_count = u32 (length d.children);
      payload_idx = payload;
    })
