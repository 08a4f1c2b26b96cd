-- ===== src/Reflection/Walk/Fills.antt =====
-- Every row is filled: the bodies of the functions `add...` end.
use slangmake.Prelude.{
  ℕ, Bool, ◌≡◌, refl, inl, inr, Bytes, List, [], ◌∷◌, All, Option, some, Bool-cases, ◌==◌, ◌||◌,
  true, false, if◌then◌else◌,
}
use slangmake.Reflection.Builder.{
  SlangAttribute, push_u32_list, intern_c_str, add_modifiers, add_attributes,
}
use slangmake.Reflection.Builder.Ranges.{
  intern_c_str-Keeps, push_u32_list-Pushed, add_modifiers-Keeps,
}
use slangmake.Reflection.Builder.Attributes.{add_attributes-Attributed}
use slangmake.Reflection.Slang.{Slang, SlangTypeParameter, SlangDecl}
use slangmake.Reflection.Walk.State.{
  Node, type, variable, function, generic, decl, Action, on_tables, each,
}
use slangmake.Reflection.Walk.Types.{
  add, fields_of, fill_type, fill_variable, fill_function, constraint_pairs, all_constraints,
  fill_generic, add_payload, fill_decl,
}
use slangmake.Reflection.Walk.Total.{
  pointer, Runs, Runs-bind, Runs-give, Runs-on_tables, Runs-each, Runs-add, Adds, Below,
}
use slangmake.Reflection.Walk.Bounded.{
  BoundedType, BoundedVariable, BoundedFunction, BoundedTypeParameter, BoundedGeneric, BoundedDecl,
}

module _ {n m : ℕ} where
  pub Runs-intern : (s : Option Bytes) → Runs n m (on_tables (intern_c_str s))
  Runs-intern s = Runs-on_tables (intern_c_str s) (intern_c_str-Keeps s)

  pub Runs-push : (list : List ℕ) → Runs n m (on_tables (push_u32_list list))
  Runs-push list = Runs-on_tables (push_u32_list list) (λ t. (push_u32_list-Pushed list t).keeps)

  pub Runs-modifiers :
      (all : List ℕ) (found : Option (ℕ → Bool)) → Runs n m (on_tables (add_modifiers all found))
  Runs-modifiers all found =
      Runs-on_tables (add_modifiers all found) (add_modifiers-Keeps all found)

  pub Runs-attributes :
      (list : Option (List (Option SlangAttribute))) → Runs n m (on_tables (add_attributes list))
  Runs-attributes list =
      Runs-on_tables (add_attributes list) (λ t. (add_attributes-Attributed list t).keeps)

module _ {n m : ℕ} (g : Slang) (rec : Node → Action ℕ) (adds : Adds n m rec) where
  pub Runs-one :
      (kind : ℕ → Node)
      → ((p : ℕ) → pointer (kind p) ≡ p)
      → (o : Option ℕ) → Below n o
      → Runs n m (add g rec kind o)
  Runs-one kind e o b = Runs-add g rec kind adds e o b

  pub Below-fields_of :
      (kind : ℕ) (fields : List (Option ℕ))
      → All (Below n) fields
      → All (Below n) (fields_of g rec kind fields)
  Below-fields_of kind fields a = elim (Bool-cases (kind == g.constants.struct_kind)) [
    | inl e ↦ rw e a
    | inr e ↦ rw e tt
  ]

  pub Runs-add_all :
      (kind : ℕ → Node)
      → ((p : ℕ) → pointer (kind p) ≡ p)
      → (list : List (Option ℕ)) → All (Below n) list
      → Runs n m (each (add g rec kind) list)
  Runs-add_all kind e list a =
      Runs-each (Below n) (add g rec kind) (Runs-add g rec kind adds e) list a

  pub Runs-fill_type : (p : ℕ) → BoundedType n (g.types p) → Runs n m (fill_type g rec p)
  unfolding fill_type
  Runs-fill_type p b =
      let t = g.types p in
      Runs-bind _ _ (Runs-intern t.name) λ name.
        Runs-bind _ _ (Runs-intern t.full_name) λ full_name.
          Runs-bind _ _
            (Runs-add_all variable (λ q. refl) (fields_of g rec t.kind t.fields)
              (Below-fields_of t.kind t.fields b.fields))
            λ fields. Runs-bind _ _ (Runs-push fields) λ off.
              Runs-bind _ _ (Runs-one type (λ q. refl) t.element_type b.element_type) λ element.
                Runs-bind _ _
                  (Runs-one type (λ q. refl) t.resource_result_type b.resource_result_type)
                  λ result. Runs-give _

  pub Runs-fill_variable :
      (p : ℕ) → BoundedVariable n (g.variables p) → Runs n m (fill_variable g rec p)
  unfolding fill_variable
  Runs-fill_variable p b =
      let v = g.variables p in
      Runs-bind _ _ (Runs-intern v.name) λ name.
        Runs-bind _ _ (Runs-one type (λ q. refl) v.type b.type) λ t.
          Runs-bind _ _ (Runs-modifiers g.constants.all_modifiers (some v.has_modifier)) λ mods.
            Runs-bind _ _ (Runs-attributes (some v.attributes)) λ attrs.
              Runs-bind _ _ (Runs-one generic (λ q. refl) v.generic_container b.generic_container)
                λ container. Runs-give _

  pub Runs-fill_function :
      (p : ℕ) → BoundedFunction n (g.functions p) → Runs n m (fill_function g rec p)
  unfolding fill_function
  Runs-fill_function p b =
      let f = g.functions p in
      Runs-bind _ _ (Runs-intern f.name) λ name.
        Runs-bind _ _ (Runs-one type (λ q. refl) f.return_type b.return_type) λ result.
          Runs-bind _ _ (Runs-add_all variable (λ q. refl) f.parameters b.parameters) λ params.
            Runs-bind _ _ (Runs-push params) λ off.
              Runs-bind _ _ (Runs-modifiers g.constants.all_modifiers (some f.has_modifier)) λ mods.
                Runs-bind _ _ (Runs-attributes (some f.attributes)) λ attrs.
                  Runs-bind _ _
                    (Runs-one generic (λ q. refl) f.generic_container b.generic_container)
                    λ container. Runs-give _

  Runs-constraint_pairs :
      (i : ℕ) (cs : List (Option ℕ)) → All (Below n) cs → Runs n m (constraint_pairs g rec i cs)
  unfolding constraint_pairs
  Runs-constraint_pairs i [] b = Runs-give _
  Runs-constraint_pairs i (c ∷ more) b =
      Runs-bind _ _ (Runs-one type (λ q. refl) c b.0)
        λ t. Runs-bind _ _ (Runs-constraint_pairs i more b.1) λ rest. Runs-give _

  Runs-all_constraints :
      (is : List ℕ) (ps : List SlangTypeParameter)
      → All (BoundedTypeParameter n) ps
      → Runs n m (all_constraints g rec is ps)
  unfolding all_constraints
  Runs-all_constraints [] ps b = Runs-give _
  Runs-all_constraints (i ∷ is) [] b = Runs-give _
  Runs-all_constraints (i ∷ is) (p ∷ ps) b =
      Runs-bind _ _ (Runs-constraint_pairs i p.constraints b.0.constraints)
        λ pairs. Runs-bind _ _ (Runs-all_constraints is ps b.1) λ rest. Runs-give _

  pub Runs-fill_generic :
      (p : ℕ) → BoundedGeneric n (g.generics p) → Runs n m (fill_generic g rec p)
  unfolding fill_generic
  Runs-fill_generic p b =
      let c = g.generics p in
      Runs-bind _ _ (Runs-intern c.name) λ name.
        Runs-bind _ _
          (Runs-each (BoundedTypeParameter n) _
            (λ x h. Runs-one variable (λ q. refl) x.parameter h.parameter) c.type_parameters
            b.type_parameters)
          λ type_params. Runs-bind _ _ (Runs-push type_params) λ type_off.
            Runs-bind _ _ (Runs-add_all variable (λ q. refl) c.value_parameters b.value_parameters)
              λ value_params. Runs-bind _ _ (Runs-push value_params) λ value_off.
                Runs-bind _ _ (Runs-all_constraints type_params c.type_parameters b.type_parameters)
                  λ pairs. Runs-bind _ _ (Runs-push pairs) λ pair_off.
                    Runs-bind _ _ (Runs-one generic (λ q. refl) c.outer_generic b.outer_generic)
                      λ outer. Runs-give _

  -- A test between two actions.
  pub Runs-if :
      {A : Type 0} (c : Bool) {f h : Action A}
      → Runs n m f
      → Runs n m h
      → Runs n m (if c then f else h)
  Runs-if true r s = r
  Runs-if false r s = s

  Runs-add_payload : (d : SlangDecl) → BoundedDecl n d → Runs n m (add_payload g rec d)
  unfolding add_payload
  Runs-add_payload d b =
      let c = g.constants in
      Runs-if ((d.kind == c.decl_struct) || (d.kind == c.decl_enum))
        (Runs-one type (λ q. refl) d.type b.type)
        (Runs-if (d.kind == c.decl_func) (Runs-one function (λ q. refl) d.function b.function) (
          Runs-if (d.kind == c.decl_variable) (Runs-one variable (λ q. refl) d.variable b.variable)
            (Runs-if (d.kind == c.decl_generic) (Runs-one generic (λ q. refl) d.generic b.generic)
              (Runs-give _))))

  pub Runs-fill_decl :
      (p parent i : ℕ) → BoundedDecl n (g.decls p) → Runs n m (fill_decl g rec p parent i)
  unfolding fill_decl
  Runs-fill_decl p parent i b =
      let d = g.decls p in
      Runs-bind _ _ (Runs-intern d.name) λ name. Runs-bind _ _ (Runs-add_payload d b) λ payload.
        Runs-bind _ _ (Runs-add_all (λ q. decl q i) (λ q. refl) d.children b.children)
          λ children. Runs-bind _ _ (Runs-push children) λ off. Runs-give _
