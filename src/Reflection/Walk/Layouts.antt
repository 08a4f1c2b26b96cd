-- ===== src/Reflection/Walk/Layouts.antt =====
-- `addTypeLayout` and `addVarLayout` behind the search in the map: how a row is filled
-- (src/slangmake_reflection_serialize.cpp). `rec` adds another object.
use slangmake.Prelude.{
  ℕ, ◌||◌, Bool, false, List, [], ◌∷◌, ◌++◌, map, Option, none, some, length, ◌==◌, if◌then◌else◌,
}
use slangmake.Blob.Writer.Layout.{u32}
use slangmake.Reflection.Format.Header.{invalid_index}
use slangmake.Reflection.Format.Types.{TypeLayout}
use slangmake.Reflection.Format.Ranges.{BindingRange, DescriptorRange, SubObjectRange}
use slangmake.Reflection.Format.Variables.{VarLayout}
use slangmake.Reflection.Builder.{
  SlangAttribute, intern_c_str, push_u32_list, add_modifiers, add_attributes,
}
use slangmake.Reflection.Section.{Tables}
use slangmake.Reflection.Slang.{
  Slang, SlangSize, SlangBindingRange, SlangDescriptorRange, SlangDescriptorSet,
  SlangSubObjectRange, SlangTypeLayout, SlangOffset, SlangVarLayout, SlangVariable,
}
use slangmake.Reflection.Walk.State.{
  Node, type, type_layout, variable, var_layout, Walk, Action, ◌>>=◌, ◌>>◌, give, on_tables, change,
  each, find_index,
}
use slangmake.Reflection.Walk.Types.{add, fields_of, bool_word}

abbrev pub index_word : Option ℕ → ℕ
index_word none = invalid_index
index_word (some n) = u32 n

-- Three words for each category.
abbrev pub size_words : List SlangSize → List ℕ
size_words [] = []
size_words (s ∷ more) = u32 s.size ∷ u32 s.stride ∷ u32 s.alignment ∷ size_words more

abbrev pub any_of : List ℕ → ℕ → Bool
any_of [] n = false
any_of (k ∷ ks) n = (n == k) || any_of ks n

abbrev pub push_binding_range : BindingRange → Tables → Tables
push_binding_range r t = record t { binding_ranges = t.binding_ranges ++ (r ∷ []) }

abbrev pub push_descriptor_range : DescriptorRange → Tables → Tables
push_descriptor_range r t = record t { descriptor_ranges = t.descriptor_ranges ++ (r ∷ []) }

abbrev pub push_sub_object_range : SubObjectRange → Tables → Tables
push_sub_object_range r t = record t { sub_object_ranges = t.sub_object_ranges ++ (r ∷ []) }

abbrev pub push_descriptor_set : SlangDescriptorSet → Tables → Tables
push_descriptor_set s t = record t {
  descriptor_sets =
      t.descriptor_sets
      ++ (record {
        space_offset = u32 s.space_offset;
        descriptor_range_start = u32 (length t.descriptor_ranges);
        descriptor_range_count = u32 (length s.ranges);
        pad = 0;
      }
          ∷ []);
}

abbrev descriptor_range : SlangDescriptorRange → DescriptorRange
descriptor_range r = record {
  index_offset = u32 r.index_offset;
  descriptor_count = u32 r.descriptor_count;
  binding_type = u32 r.binding_type;
  parameter_category = u32 r.category;
}

unfoldable pub push_descriptor_ranges : List SlangDescriptorRange → Action (Unit {0})
push_descriptor_ranges [] = give tt
push_descriptor_ranges (r ∷ more) = do
  change (push_descriptor_range (descriptor_range r))
  push_descriptor_ranges more

unfoldable pub push_descriptor_sets : List SlangDescriptorSet → Action (Unit {0})
push_descriptor_sets [] = give tt
push_descriptor_sets (s ∷ more) = do
  change (push_descriptor_set s)
  push_descriptor_ranges s.ranges
  push_descriptor_sets more

-- The offsets of the three tables of ranges, read before the walk over them.
abbrev pub range_starts : Tables → (ℕ × ℕ × ℕ) × Tables
range_starts t = (
  (u32 (length t.binding_ranges), u32 (length t.descriptor_sets), u32 (length t.sub_object_ranges)),
  t,
)

-- The index of a type layout that is known, in the map of the moment.
abbrev pub known_leaf : Option ℕ → Walk → ℕ
known_leaf none w = invalid_index
known_leaf (some p) w = elim (find_index p w.type_layout_idx) [ none ↦ invalid_index | some i ↦ i ]

unfoldable pub look_up_leaf : Option ℕ → Action ℕ
look_up_leaf leaf w = some (known_leaf leaf w, w)

module _ (g : Slang) (rec : Node → Action ℕ) where
  unfoldable pub push_binding_ranges : List SlangBindingRange → Action (Unit {0})
  push_binding_ranges [] = give tt
  push_binding_ranges (b ∷ more) = do
    leaf ← look_up_leaf b.leaf_type_layout
    leaf_variable ← add g rec variable b.leaf_variable
    change (
        push_binding_range (record {
          binding_type = u32 b.binding_type;
          binding_count = u32 b.binding_count;
          leaf_type_layout_idx = leaf;
          leaf_variable_idx = leaf_variable;
          image_format =
              if any_of g.constants.image_bindings (u32 b.binding_type)
              then u32 b.image_format
              else 0;
          is_specializable = bool_word b.is_specializable;
          descriptor_set_index = index_word b.descriptor_set_index;
          first_descriptor_range_index = u32 b.first_descriptor_range_index;
          descriptor_range_count = u32 b.descriptor_range_count;
        }))
    push_binding_ranges more

  unfoldable pub push_sub_object_ranges : List SlangSubObjectRange → Action (Unit {0})
  push_sub_object_ranges [] = give tt
  push_sub_object_ranges (s ∷ more) = do
    off ← add g rec var_layout s.offset_var_layout
    change (
        push_sub_object_range (record {
          binding_range_index = u32 s.binding_range_index;
          space_offset = index_word s.space_offset;
          offset_var_layout_idx = off;
        }))
    push_sub_object_ranges more

  -- Only containers have binding tables.
  abbrev walks_binding_tables : SlangTypeLayout → Bool
  walks_binding_tables l =
      (l.kind == g.constants.struct_kind) || any_of g.constants.container_kinds l.kind

  unfoldable pub push_all_ranges : SlangTypeLayout → Action (Unit {0})
  push_all_ranges l = do
    push_binding_ranges l.binding_ranges
    push_descriptor_sets l.descriptor_sets
    push_sub_object_ranges l.sub_object_ranges

  unfoldable pub push_ranges : SlangTypeLayout → Action (Unit {0})
  push_ranges l = if walks_binding_tables l then push_all_ranges l else give tt

  -- The count of a range table, which is 0 where the tables are not walked.
  abbrev pub range_count {ℓ} : {A : Type ℓ} → SlangTypeLayout → List A → ℕ
  range_count l rows = if walks_binding_tables l then u32 (length rows) else 0

  unfoldable pub fill_type_layout : ℕ → Action TypeLayout
  fill_type_layout p = do
    let l = g.type_layouts p
    t ← add g rec type l.type
    cats ← on_tables (push_u32_list (map (λ (s : SlangSize). u32 s.category) l.categories))
    sizes ← on_tables (push_u32_list (size_words l.categories))
    fields ← each (add g rec var_layout) (fields_of g rec l.kind l.fields)
    field_off ← on_tables (push_u32_list fields)
    container ← add g rec var_layout l.container_var_layout
    element ← add g rec type_layout l.element_type_layout
    element_var ← add g rec var_layout l.element_var_layout
    counter ← add g rec var_layout l.explicit_counter
    starts ← on_tables range_starts
    push_ranges l
    give (record {
      type_idx = t;
      kind = u32 l.kind;
      parameter_category = u32 l.parameter_category;
      category_count = u32 (length l.categories);
      category_pool_off = cats;
      field_count = u32 (length (fields_of g rec l.kind l.fields));
      field_layout_pool_off = field_off;
      container_var_layout_idx = container;
      element_type_layout_idx = element;
      element_var_layout_idx = element_var;
      explicit_counter_var_layout_idx = counter;
      matrix_layout_mode = u32 l.matrix_layout_mode;
      generic_param_index = index_word l.generic_param_index;
      size_pool_off = sizes;
      binding_range_count = range_count l l.binding_ranges;
      binding_range_off = starts.0;
      descriptor_set_count = range_count l l.descriptor_sets;
      descriptor_set_off = starts.1;
      sub_object_range_count = range_count l l.sub_object_ranges;
      sub_object_range_off = starts.2;
    })

  -- `addModifiersFromVar(vl->getVariable())`, and the same for attributes.
  abbrev pub variable_of : SlangVarLayout → Option SlangVariable
  variable_of l = elim l.variable [ none ↦ none | some p ↦ some (g.variables p) ]

  abbrev pub modifiers_of : Option SlangVariable → Option (ℕ → Bool)
  modifiers_of none = none
  modifiers_of (some v) = some v.has_modifier

  abbrev pub attributes_of : Option SlangVariable → Option (List (Option SlangAttribute))
  attributes_of none = none
  attributes_of (some v) = some v.attributes

  unfoldable pub fill_var_layout : ℕ → Action VarLayout
  fill_var_layout p = do
    let l = g.var_layouts p
    v ← add g rec variable l.variable
    t ← add g rec type_layout l.type_layout
    cats ← on_tables (push_u32_list (map (λ (c : SlangOffset). u32 c.category) l.categories))
    offs ← on_tables (push_u32_list (map (λ (c : SlangOffset). u32 c.offset) l.categories))
    spaces ← on_tables (push_u32_list (map (λ (c : SlangOffset). u32 c.space) l.categories))
    semantic ← on_tables (intern_c_str l.semantic_name)
    mods ← on_tables (add_modifiers g.constants.all_modifiers (modifiers_of (variable_of l)))
    attrs ← on_tables (add_attributes (attributes_of (variable_of l)))
    give (record {
      var_idx = v;
      type_layout_idx = t;
      category = u32 l.category;
      category_count = u32 (length l.categories);
      category_pool_off = cats;
      offset_pool_off = offs;
      binding_index = u32 l.binding_index;
      binding_space_pool_off = spaces;
      image_format = u32 l.image_format;
      semantic_name_str_idx = semantic;
      semantic_index = u32 l.semantic_index;
      stage = u32 l.stage;
      modifier_off = mods.0;
      modifier_count = mods.1;
      attr_off = attrs.0;
      attr_count = attrs.1;
    })
