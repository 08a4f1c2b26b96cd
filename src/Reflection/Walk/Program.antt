-- ===== src/Reflection/Walk/Program.antt =====
-- The whole walk ends, and what it leaves in the tables can be decoded.
use slangmake.Prelude.{
  ℕ, zero, suc, ◌≤◌, ◌<◌, ◌≡◌, refl, Bytes, List, [], ◌∷◌, All, All-append, Option, none, some,
  length, arith,
}
use slangmake.Blob.Placed.{Extends-refl}
use slangmake.Reflection.Format.Header.{invalid_index}
use slangmake.Reflection.Format.EntryPoints.{EntryPoint}
use slangmake.Reflection.Decode.Safety.{HasRanges}
use slangmake.Reflection.Section.{Tables}
use slangmake.Reflection.Builder.{
  SlangAttribute, add_hashed_string, intern_str, add_attributes, push_u32_list,
}
use slangmake.Reflection.Builder.Ranges.{
  Fits, Fits-before, Keeps, Keeps-trans, intern_str-Keeps, push_u32_list-Pushed,
}
use slangmake.Reflection.Builder.Attributes.{add_attributes-Attributed}
use slangmake.Reflection.Slang.{Slang, SlangEntryPoint}
use slangmake.Reflection.Walk.State.{
  type, type_layout, variable, var_layout, function, generic, decl, Walk, ◌>>=◌, on_tables, change,
  type_slot, type_layout_slot, variable_slot, var_layout_slot, function_slot, generic_slot,
  decl_slot,
}
use slangmake.Reflection.Walk.{
  add_node, push_entry_point, function_attributes, add_entry_point, add_entry_points,
  add_hashed_strings, walk_program,
}
use slangmake.Reflection.Walk.Total.{
  Ends, ends, Ends-bind, Runs, Runs-bind, Runs-give, Runs-change, each-Ends, Runs-visit, Adds,
  Below,
}
use slangmake.Reflection.Walk.Slots.{
  Keeps-untouched, type_slot-IsSlot, type_layout_slot-IsSlot, variable_slot-IsSlot,
  var_layout_slot-IsSlot, function_slot-IsSlot, generic_slot-IsSlot, decl_slot-IsSlot,
}
use slangmake.Reflection.Walk.Bounded.{BoundedEntryPoint, BoundedMaybe, IsBounded}
use slangmake.Reflection.Walk.Fills.{
  Runs-intern, Runs-one, Runs-add_all, Runs-fill_type, Runs-fill_variable, Runs-fill_function,
  Runs-fill_generic, Runs-fill_decl,
}
use slangmake.Reflection.Walk.LayoutFills.{Runs-fill_type_layout, Runs-fill_var_layout}

module _ (g : Slang) (n : ℕ) (b : IsBounded n g) where
  -- Fuel for the objects that are left is enough.
  pub add_node-Adds : (fuel m : ℕ) → m < fuel → Adds n m (add_node g fuel)
  unfolding add_node
  add_node-Adds zero m l x h = absurd (omega arith)
  add_node-Adds (suc fuel) m l (type p) h =
      Runs-visit type_slot p _ (type_slot-IsSlot n) h
        λ k lt i. Runs-fill_type g _ (add_node-Adds fuel k (omega (arith, lt, l))) p (b.types p h)
  add_node-Adds (suc fuel) m l (type_layout p) h =
      Runs-visit type_layout_slot p _ (type_layout_slot-IsSlot n) h λ k lt i.
        Runs-fill_type_layout g _ (add_node-Adds fuel k (omega (arith, lt, l))) p
          (b.type_layouts p h)
  add_node-Adds (suc fuel) m l (variable p) h =
      Runs-visit variable_slot p _ (variable_slot-IsSlot n) h λ k lt i.
        Runs-fill_variable g _ (add_node-Adds fuel k (omega (arith, lt, l))) p (b.variables p h)
  add_node-Adds (suc fuel) m l (var_layout p) h =
      Runs-visit var_layout_slot p _ (var_layout_slot-IsSlot n) h λ k lt i.
        Runs-fill_var_layout g _ (add_node-Adds fuel k (omega (arith, lt, l))) p (b.var_layouts p h)
  add_node-Adds (suc fuel) m l (function p) h =
      Runs-visit function_slot p _ (function_slot-IsSlot n) h λ k lt i.
        Runs-fill_function g _ (add_node-Adds fuel k (omega (arith, lt, l))) p (b.functions p h)
  add_node-Adds (suc fuel) m l (generic p) h =
      Runs-visit generic_slot p _ (generic_slot-IsSlot n) h λ k lt i.
        Runs-fill_generic g _ (add_node-Adds fuel k (omega (arith, lt, l))) p (b.generics p h)
  add_node-Adds (suc fuel) m l (decl p parent) h =
      Runs-visit decl_slot p _ (decl_slot-IsSlot n) h λ k lt i.
        Runs-fill_decl g _ (add_node-Adds fuel k (omega (arith, lt, l))) p parent i (b.decls p h)

-- An entry point whose ranges are in the tables.
push_entry_point-Keeps :
    (e : EntryPoint) (t : Tables)
    → (Fits t → HasRanges (length t.u32_pool) (length t.attrs) e)
    → Keeps t (push_entry_point e t)
push_entry_point-Keeps e t inside = record {
  strings_grow = Extends-refl t.strings;
  pool_grows = omega arith;
  attrs_grow = omega arith;
  args_grow = omega arith;
  sound = λ f h. record {
    interned = h.interned;
    args = h.args;
    ranges =
        All-append (HasRanges (length t.u32_pool) (length t.attrs)) t.entry_points (e ∷ []) h.ranges
          (
            inside (record {
              strings_fit = f.strings_fit;
              pool_fits = f.pool_fits;
              attrs_fit = f.attrs_fit;
              args_fit = f.args_fit;
            }),
            tt,
          );
  };
}

add_hashed_string-Keeps : (s : Option Bytes) (t : Tables) → Keeps t (add_hashed_string s t)
unfolding add_hashed_string
add_hashed_string-Keeps none t = Keeps-untouched t _ refl
add_hashed_string-Keeps (some s) t =
    Keeps-trans (intern_str-Keeps s t) (Keeps-untouched (intern_str s t).1 _ refl)

-- An entry point that names the runs it was given.
abbrev NamesRuns : ℕ → (ℕ → ℕ × ℕ → EntryPoint) → Type 0
NamesRuns count make =
    (off : ℕ) (attrs : ℕ × ℕ)
    → ((make off attrs).param_var_layout_off ≡ off)
      × ((make off attrs).param_var_layout_count ≤ count)
      × ((make off attrs).attr_off ≡ attrs.0)
      × ((make off attrs).attr_count ≡ attrs.1)

-- The end of `addEntryPoint`.
Ends-push_entry_point :
    {n : ℕ} (params : List ℕ) (list : Option (List (Option SlangAttribute)))
    (make : ℕ → ℕ × ℕ → EntryPoint) (w : Walk)
    → NamesRuns (length params) make
    → Ends n
        (λ a w'. Unit {0})
        w
        ((on_tables (push_u32_list params) >>= λ off.
            on_tables (add_attributes list) >>= λ attrs. change (push_entry_point (make off attrs)))
          w)
unfolding on_tables change
Ends-push_entry_point {n} params list make w names =
    let t1 = push_u32_list params w.tables in
    let t2 = add_attributes list t1.1 in
    let e = make t1.0 t2.0 in
    let pushed = push_u32_list-Pushed params w.tables in
    let given = add_attributes-Attributed list t1.1 in
    let (p, q, r, s) = names t1.0 t2.0 in
    let last : Keeps t2.1 (push_entry_point e t2.1) = push_entry_point-Keeps e t2.1 λ f. record {
      params_inside =
          omega (arith, p, q, pushed.inside (Fits-before given.keeps f), given.keeps.pool_grows);
      attrs_inside = omega (arith, r, s, given.inside f);
    } in
    ends
      (record {
        fewer = omega arith;
        keeps = Keeps-trans pushed.keeps (Keeps-trans given.keeps last);
      })
      tt

module _ (g : Slang) (n fuel m : ℕ) (adds : Adds n m (add_node g fuel)) where
  Runs-add_entry_point :
      (e : SlangEntryPoint) → BoundedEntryPoint n e → Runs n m (add_entry_point g fuel e)
  unfolding add_entry_point
  Runs-add_entry_point e b = Runs-bind _ _ (Runs-intern e.name) λ name.
      Runs-bind _ _ (Runs-intern e.name_override) λ name_override.
        Runs-bind _ _ (Runs-one g _ adds var_layout (λ q. refl) e.var_layout b.var_layout)
          λ own_layout.
            Runs-bind _ _ (Runs-one g _ adds type_layout (λ q. refl) e.type_layout b.type_layout)
              λ own_type_layout.
                Runs-bind _ _
                  (Runs-one g _ adds var_layout (λ q. refl) e.result_var_layout b.result_var_layout)
                  λ result.
                    Runs-bind _ _ (Runs-one g _ adds function (λ q. refl) e.function b.function)
                      λ fn. λ w h.
                        Ends-bind _
                          (each-Ends (Below n) _ (λ o. Runs-one g _ adds var_layout (λ q. refl) o)
                            e.parameters b.parameters w h)
                          λ params w' after len.
                            Ends-push_entry_point params (function_attributes g fuel e.function) _
                              w' (λ off attrs. (refl, omega (arith, len), refl, refl))

  Runs-add_entry_points :
      (es : List (Option SlangEntryPoint))
      → All (BoundedMaybe n) es
      → Runs n m (add_entry_points g fuel es)
  unfolding add_entry_points
  Runs-add_entry_points [] b = Runs-give _
  Runs-add_entry_points (none ∷ more) b = Runs-add_entry_points more b.1
  Runs-add_entry_points (some e ∷ more) b =
      Runs-bind _ _ (Runs-add_entry_point e b.0) λ u. Runs-add_entry_points more b.1

  Runs-add_hashed_strings : (ss : List (Option Bytes)) → Runs n m (add_hashed_strings g fuel ss)
  unfolding add_hashed_strings
  Runs-add_hashed_strings [] = Runs-give _
  Runs-add_hashed_strings (s ∷ more) =
      Runs-bind _ _ (Runs-change _ (add_hashed_string-Keeps s)) λ u. Runs-add_hashed_strings more

  pub Runs-walk_program : IsBounded n g → Runs n m (walk_program g fuel)
  unfolding walk_program
  Runs-walk_program b =
      Runs-bind _ _ (Runs-add_all g _ adds var_layout (λ q. refl) g.parameters b.parameters) λ u.
        Runs-bind _ _
          (Runs-one g _ adds var_layout (λ q. refl) g.global_params_var_layout b.global_params)
          λ global_vl.
            Runs-bind _ _
              (Runs-one g _ adds (λ p. decl p invalid_index) (λ q. refl) g.module_decl
                b.module_decl)
              λ d.
                Runs-bind _ _ (Runs-add_entry_points g.entry_points b.entry_points)
                  λ v. Runs-bind _ _ (Runs-add_hashed_strings g.hashed_strings) λ x. Runs-give _
