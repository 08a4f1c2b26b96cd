-- ===== src/Reflection/Walk/Bounded.antt =====
-- A program whose objects refer to finitely many objects: every pointer is null or below `n`.
use slangmake.Prelude.{ℕ, ◌<◌, Option, none, some, All}
use slangmake.Reflection.Slang.{
  Slang, SlangType, SlangTypeLayout, SlangBindingRange, SlangSubObjectRange, SlangVariable,
  SlangVarLayout, SlangFunction, SlangTypeParameter, SlangGeneric, SlangDecl, SlangEntryPoint,
}
use slangmake.Reflection.Walk.Total.{Below}

module _ (n : ℕ) where
  pub record BoundedType (t : SlangType) : Type 0 where
    pub fields : All (Below n) t.fields
    pub element_type : Below n t.element_type
    pub resource_result_type : Below n t.resource_result_type

  pub record BoundedTypeLayout (l : SlangTypeLayout) : Type 0 where
    pub type : Below n l.type
    pub fields : All (Below n) l.fields
    pub container : Below n l.container_var_layout
    pub element : Below n l.element_type_layout
    pub element_var : Below n l.element_var_layout
    pub counter : Below n l.explicit_counter
    pub leaf_variables : All (λ (b : SlangBindingRange). Below n b.leaf_variable) l.binding_ranges
    pub offsets : All (λ (s : SlangSubObjectRange). Below n s.offset_var_layout) l.sub_object_ranges

  pub record BoundedVariable (v : SlangVariable) : Type 0 where
    pub type : Below n v.type
    pub generic_container : Below n v.generic_container

  pub record BoundedVarLayout (l : SlangVarLayout) : Type 0 where
    pub variable : Below n l.variable
    pub type_layout : Below n l.type_layout

  pub record BoundedFunction (f : SlangFunction) : Type 0 where
    pub return_type : Below n f.return_type
    pub parameters : All (Below n) f.parameters
    pub generic_container : Below n f.generic_container

  pub record BoundedTypeParameter (p : SlangTypeParameter) : Type 0 where
    pub parameter : Below n p.parameter
    pub constraints : All (Below n) p.constraints

  pub record BoundedGeneric (c : SlangGeneric) : Type 0 where
    pub type_parameters : All BoundedTypeParameter c.type_parameters
    pub value_parameters : All (Below n) c.value_parameters
    pub outer_generic : Below n c.outer_generic

  pub record BoundedDecl (d : SlangDecl) : Type 0 where
    pub type : Below n d.type
    pub function : Below n d.function
    pub variable : Below n d.variable
    pub generic : Below n d.generic
    pub children : All (Below n) d.children

  pub record BoundedEntryPoint (e : SlangEntryPoint) : Type 0 where
    pub var_layout : Below n e.var_layout
    pub type_layout : Below n e.type_layout
    pub result_var_layout : Below n e.result_var_layout
    pub function : Below n e.function
    pub parameters : All (Below n) e.parameters

  abbrev pub BoundedMaybe : Option SlangEntryPoint → Type 0
  BoundedMaybe none = Unit
  BoundedMaybe (some e) = BoundedEntryPoint e

  pub record IsBounded (g : Slang) : Type 0 where
    pub types : (p : ℕ) → p < n → BoundedType (g.types p)
    pub type_layouts : (p : ℕ) → p < n → BoundedTypeLayout (g.type_layouts p)
    pub variables : (p : ℕ) → p < n → BoundedVariable (g.variables p)
    pub var_layouts : (p : ℕ) → p < n → BoundedVarLayout (g.var_layouts p)
    pub functions : (p : ℕ) → p < n → BoundedFunction (g.functions p)
    pub generics : (p : ℕ) → p < n → BoundedGeneric (g.generics p)
    pub decls : (p : ℕ) → p < n → BoundedDecl (g.decls p)
    pub parameters : All (Below n) g.parameters
    pub global_params : Below n g.global_params_var_layout
    pub module_decl : Below n g.module_decl
    pub entry_points : All BoundedMaybe g.entry_points
