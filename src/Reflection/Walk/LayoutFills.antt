-- ===== src/Reflection/Walk/LayoutFills.antt =====
-- Every layout's row is filled: the bodies of `addTypeLayout` and `addVarLayout` end.
use slangmake.Prelude.{ℕ, refl, List, [], ◌∷◌, All, Option}
use slangmake.Reflection.Builder.Ranges.{Keeps-refl}
use slangmake.Reflection.Slang.{
  Slang, SlangBindingRange, SlangDescriptorRange, SlangDescriptorSet, SlangSubObjectRange,
  SlangTypeLayout,
}
use slangmake.Reflection.Walk.State.{Node, type, type_layout, variable, var_layout, Action, give}
use slangmake.Reflection.Walk.Types.{fields_of}
use slangmake.Reflection.Walk.Layouts.{
  push_binding_range, push_descriptor_range, push_descriptor_set, push_sub_object_range,
  push_descriptor_ranges, push_descriptor_sets, range_starts, look_up_leaf, push_binding_ranges,
  push_sub_object_ranges, push_all_ranges, push_ranges, fill_type_layout, modifiers_of,
  attributes_of, variable_of, fill_var_layout, size_words,
}
use slangmake.Reflection.Walk.Total.{
  Runs, Runs-bind, Runs-give, Runs-on_tables, Runs-change, Adds, Below, After-refl, ends,
}
use slangmake.Reflection.Walk.Slots.{Keeps-untouched}
use slangmake.Reflection.Walk.Bounded.{BoundedTypeLayout, BoundedVarLayout}
use slangmake.Reflection.Walk.Fills.{
  Runs-intern, Runs-push, Runs-modifiers, Runs-attributes, Runs-one, Runs-add_all, Runs-if,
  Below-fields_of,
}

module _ {n m : ℕ} where
  Runs-look_up_leaf : (leaf : Option ℕ) → Runs n m (look_up_leaf leaf)
  unfolding look_up_leaf
  Runs-look_up_leaf leaf w h = ends (After-refl n w) tt

  Runs-push_descriptor_ranges :
      (rs : List SlangDescriptorRange) → Runs n m (push_descriptor_ranges rs)
  unfolding push_descriptor_ranges
  Runs-push_descriptor_ranges [] = Runs-give _
  Runs-push_descriptor_ranges (r ∷ more) =
      Runs-bind _ _ (Runs-change _ (λ t. Keeps-untouched t (push_descriptor_range _ t) refl))
        λ u. Runs-push_descriptor_ranges more

  Runs-push_descriptor_sets : (ss : List SlangDescriptorSet) → Runs n m (push_descriptor_sets ss)
  unfolding push_descriptor_sets
  Runs-push_descriptor_sets [] = Runs-give _
  Runs-push_descriptor_sets (s ∷ more) =
      Runs-bind _ _ (Runs-change _ (λ t. Keeps-untouched t (push_descriptor_set s t) refl)) λ u.
        Runs-bind _ _ (Runs-push_descriptor_ranges s.ranges) λ v. Runs-push_descriptor_sets more

module _ {n m : ℕ} (g : Slang) (rec : Node → Action ℕ) (adds : Adds n m rec) where
  Runs-push_binding_ranges :
      (bs : List SlangBindingRange)
      → All (λ (b : SlangBindingRange). Below n b.leaf_variable) bs
      → Runs n m (push_binding_ranges g rec bs)
  unfolding push_binding_ranges
  Runs-push_binding_ranges [] a = Runs-give _
  Runs-push_binding_ranges (b ∷ more) a =
      Runs-bind _ _ (Runs-look_up_leaf b.leaf_type_layout) λ leaf.
        Runs-bind _ _ (Runs-one g rec adds variable (λ q. refl) b.leaf_variable a.0) λ v.
          Runs-bind _ _ (Runs-change _ (λ t. Keeps-untouched t (push_binding_range _ t) refl))
            λ u. Runs-push_binding_ranges more a.1

  Runs-push_sub_object_ranges :
      (ss : List SlangSubObjectRange)
      → All (λ (s : SlangSubObjectRange). Below n s.offset_var_layout) ss
      → Runs n m (push_sub_object_ranges g rec ss)
  unfolding push_sub_object_ranges
  Runs-push_sub_object_ranges [] a = Runs-give _
  Runs-push_sub_object_ranges (s ∷ more) a =
      Runs-bind _ _ (Runs-one g rec adds var_layout (λ q. refl) s.offset_var_layout a.0) λ off.
        Runs-bind _ _ (Runs-change _ (λ t. Keeps-untouched t (push_sub_object_range _ t) refl))
          λ u. Runs-push_sub_object_ranges more a.1

  Runs-push_all_ranges :
      (l : SlangTypeLayout) → BoundedTypeLayout n l → Runs n m (push_all_ranges g rec l)
  unfolding push_all_ranges
  Runs-push_all_ranges l b =
      Runs-bind _ _ (Runs-push_binding_ranges l.binding_ranges b.leaf_variables) λ u.
        Runs-bind _ _ (Runs-push_descriptor_sets l.descriptor_sets)
          λ v. Runs-push_sub_object_ranges l.sub_object_ranges b.offsets

  Runs-push_ranges : (l : SlangTypeLayout) → BoundedTypeLayout n l → Runs n m (push_ranges g rec l)
  unfolding push_ranges
  Runs-push_ranges l b =
      Runs-if g rec adds _ {f = push_all_ranges g rec l} {h = give tt} (Runs-push_all_ranges l b)
        (Runs-give tt)

  pub Runs-fill_type_layout :
      (p : ℕ) → BoundedTypeLayout n (g.type_layouts p) → Runs n m (fill_type_layout g rec p)
  unfolding fill_type_layout
  Runs-fill_type_layout p b =
      let l = g.type_layouts p in
      Runs-bind _ _ (Runs-one g rec adds type (λ q. refl) l.type b.type) λ t.
        Runs-bind _ _ (Runs-push _) λ cats.
          Runs-bind _ _ (Runs-push (size_words l.categories)) λ sizes.
            Runs-bind _ _
              (Runs-add_all g rec adds var_layout (λ q. refl) (fields_of g rec l.kind l.fields)
                (Below-fields_of g rec adds l.kind l.fields b.fields))
              λ fields. Runs-bind _ _ (Runs-push fields) λ field_off.
                Runs-bind _ _
                  (Runs-one g rec adds var_layout (λ q. refl) l.container_var_layout b.container)
                  λ container.
                    Runs-bind _ _
                      (Runs-one g rec adds type_layout (λ q. refl) l.element_type_layout b.element)
                      λ element.
                        Runs-bind _ _
                          (Runs-one g rec adds var_layout (λ q. refl) l.element_var_layout
                            b.element_var)
                          λ element_var.
                            Runs-bind _ _
                              (Runs-one g rec adds var_layout (λ q. refl) l.explicit_counter
                                b.counter)
                              λ counter.
                                Runs-bind _ _ (Runs-on_tables range_starts Keeps-refl)
                                  λ starts. Runs-bind _ _ (Runs-push_ranges l b) λ u. Runs-give _

  pub Runs-fill_var_layout :
      (p : ℕ) → BoundedVarLayout n (g.var_layouts p) → Runs n m (fill_var_layout g rec p)
  unfolding fill_var_layout
  Runs-fill_var_layout p b =
      let l = g.var_layouts p in
      Runs-bind _ _ (Runs-one g rec adds variable (λ q. refl) l.variable b.variable) λ v.
        Runs-bind _ _ (Runs-one g rec adds type_layout (λ q. refl) l.type_layout b.type_layout) λ t.
          Runs-bind _ _ (Runs-push _) λ cats. Runs-bind _ _ (Runs-push _) λ offs.
            Runs-bind _ _ (Runs-push _) λ spaces.
              Runs-bind _ _ (Runs-intern l.semantic_name) λ semantic.
                Runs-bind _ _
                  (Runs-modifiers g.constants.all_modifiers
                    (modifiers_of g rec (variable_of g rec l)))
                  λ mods.
                    Runs-bind _ _ (Runs-attributes (attributes_of g rec (variable_of g rec l)))
                      λ attrs. Runs-give _
