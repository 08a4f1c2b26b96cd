-- ===== src/Reflection/Slang.antt =====
-- What the serializer asks of Slang's reflection objects, which are not part of this repository. A
-- pointer is a number, a null pointer `none`, a loop over indices a list, a failed query `none`,
-- and a negative number where the source tests for one `none` too.
use slangmake.Prelude.{ℕ, Bool, Bytes, List, Option}
use slangmake.Reflection.Builder.{SlangAttribute}
use slangmake.Reflection.Section.{ProgramLayout}

-- `slang::TypeReflection`.
pub record SlangType : Type 0 where
  pub kind : ℕ
  pub name : Option Bytes
  pub full_name : Option Bytes
  pub scalar_type : ℕ
  pub fields : List (Option ℕ)
  pub row_count : ℕ
  pub column_count : ℕ
  pub element_type : Option ℕ
  pub element_count : ℕ
  pub total_array_element_count : ℕ
  pub resource_shape : ℕ
  pub resource_access : ℕ
  pub resource_result_type : Option ℕ

-- A category of a type layout, with the layout's size, stride and alignment in it.
pub record SlangSize : Type 0 where
  pub category : ℕ
  pub size : ℕ
  pub stride : ℕ
  pub alignment : ℕ

pub record SlangBindingRange : Type 0 where
  pub binding_type : ℕ
  pub binding_count : ℕ
  pub leaf_type_layout : Option ℕ
  pub leaf_variable : Option ℕ
  pub image_format : ℕ
  pub is_specializable : Bool
  pub descriptor_set_index : Option ℕ
  pub first_descriptor_range_index : ℕ
  pub descriptor_range_count : ℕ

pub record SlangDescriptorRange : Type 0 where
  pub index_offset : ℕ
  pub descriptor_count : ℕ
  pub binding_type : ℕ
  pub category : ℕ

pub record SlangDescriptorSet : Type 0 where
  pub space_offset : ℕ
  pub ranges : List SlangDescriptorRange

pub record SlangSubObjectRange : Type 0 where
  pub binding_range_index : ℕ
  pub space_offset : Option ℕ
  pub offset_var_layout : Option ℕ

-- `slang::TypeLayoutReflection`.
pub record SlangTypeLayout : Type 0 where
  pub type : Option ℕ
  pub kind : ℕ
  pub parameter_category : ℕ
  pub categories : List SlangSize
  pub fields : List (Option ℕ)
  pub container_var_layout : Option ℕ
  pub element_type_layout : Option ℕ
  pub element_var_layout : Option ℕ
  pub explicit_counter : Option ℕ
  pub matrix_layout_mode : ℕ
  pub generic_param_index : Option ℕ
  pub binding_ranges : List SlangBindingRange
  pub descriptor_sets : List SlangDescriptorSet
  pub sub_object_ranges : List SlangSubObjectRange

-- `slang::VariableReflection`; a default that is a `float` is given as the bits of its `double`.
pub record SlangVariable : Type 0 where
  pub name : Option Bytes
  pub type : Option ℕ
  pub has_modifier : ℕ → Bool
  pub attributes : List (Option SlangAttribute)
  pub has_default : Bool
  pub default_int : Option ℕ
  pub default_float : Option ℕ
  pub generic_container : Option ℕ

-- A category of a variable layout, with the layout's offset and space in it.
pub record SlangOffset : Type 0 where
  pub category : ℕ
  pub offset : ℕ
  pub space : ℕ

-- `slang::VariableLayoutReflection`.
pub record SlangVarLayout : Type 0 where
  pub variable : Option ℕ
  pub type_layout : Option ℕ
  pub category : ℕ
  pub categories : List SlangOffset
  pub binding_index : ℕ
  pub image_format : ℕ
  pub semantic_name : Option Bytes
  pub semantic_index : ℕ
  pub stage : ℕ

-- `slang::FunctionReflection`.
pub record SlangFunction : Type 0 where
  pub name : Option Bytes
  pub return_type : Option ℕ
  pub parameters : List (Option ℕ)
  pub has_modifier : ℕ → Bool
  pub attributes : List (Option SlangAttribute)
  pub generic_container : Option ℕ

-- A type parameter of a generic, with the types that constrain it.
pub record SlangTypeParameter : Type 0 where
  pub parameter : Option ℕ
  pub constraints : List (Option ℕ)

-- `slang::GenericReflection`.
pub record SlangGeneric : Type 0 where
  pub name : Option Bytes
  pub inner_kind : ℕ
  pub type_parameters : List SlangTypeParameter
  pub value_parameters : List (Option ℕ)
  pub outer_generic : Option ℕ

-- `slang::DeclReflection`.
pub record SlangDecl : Type 0 where
  pub kind : ℕ
  pub name : Option Bytes
  pub type : Option ℕ
  pub function : Option ℕ
  pub variable : Option ℕ
  pub generic : Option ℕ
  pub children : List (Option ℕ)

-- `slang::EntryPointReflection`, with the first eight bytes of its hash as a number.
pub record SlangEntryPoint : Type 0 where
  pub name : Option Bytes
  pub name_override : Option Bytes
  pub stage : ℕ
  pub thread_group_size : ℕ × ℕ × ℕ
  pub wave_size : ℕ
  pub uses_any_sample_rate_input : Bool
  pub has_default_constant_buffer : Bool
  pub var_layout : Option ℕ
  pub type_layout : Option ℕ
  pub result_var_layout : Option ℕ
  pub function : Option ℕ
  pub parameters : List (Option ℕ)
  pub hash : Option ℕ

-- Slang's enumerators and constants.
pub record SlangConstants : Type 0 where
  pub unknown_size : ℕ
  pub unbounded_size : ℕ
  pub all_modifiers : List ℕ  -- the list `kAllModifiers`
  pub struct_kind : ℕ
  pub container_kinds : List ℕ  -- ConstantBuffer, ParameterBlock, TextureBuffer, ShaderStorageBuffer
  pub image_bindings : List ℕ  -- the four binding types of images and typed buffers
  pub decl_struct : ℕ
  pub decl_enum : ℕ
  pub decl_func : ℕ
  pub decl_variable : ℕ
  pub decl_generic : ℕ

-- The objects behind the pointers, and what the layout of the program lists.
pub record Slang : Type 0 where
  pub constants : SlangConstants
  pub types : ℕ → SlangType
  pub type_layouts : ℕ → SlangTypeLayout
  pub variables : ℕ → SlangVariable
  pub var_layouts : ℕ → SlangVarLayout
  pub functions : ℕ → SlangFunction
  pub generics : ℕ → SlangGeneric
  pub decls : ℕ → SlangDecl
  pub layout : ProgramLayout
  pub parameters : List (Option ℕ)
  pub global_params_var_layout : Option ℕ
  pub module_decl : Option ℕ
  pub entry_points : List (Option SlangEntryPoint)
  pub hashed_strings : List (Option Bytes)
