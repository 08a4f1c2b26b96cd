-- ===== src/Compiler/Calls.antt =====
-- What `Compiler::compile` uses of its surroundings: Slang's sessions and components, which are
-- numbers here, and the files. Each call gives its diagnostics and, if it succeeds, its object.
use slangmake.Prelude.{ℕ, Bytes, List, Option}
use slangmake.Compiler.Options.{SessionDesc, SlangModes}
use slangmake.Reflection.Slang.{Slang}

-- `slang::SpecializationArg`.
pub data SpecArg : Type 0 where
  from_type : ℕ → SpecArg
  from_expr : Bytes → SpecArg

pub record Library : Type 0 where
  pub modes : SlangModes
  pub unknown_profile : ℕ
  pub stoi : Bytes → Option ℕ
  pub stem : Bytes → Bytes  -- `path.stem().string()`
  pub read : Bytes → Option Bytes
  pub find_profile : Bytes → ℕ
  pub create_session : SessionDesc → Option ℕ
  pub load_module : ℕ → Bytes → Bytes → Bytes → Bytes × Option ℕ
  pub dependency_files : ℕ → List (Option Bytes)
  pub find_entry_point : ℕ → Bytes → Option ℕ
  pub defined_entry_points : ℕ → List (Option ℕ)
  pub create_composite : ℕ → List ℕ → Bytes × Option ℕ
  pub get_layout : ℕ → Bytes × Option ℕ
  pub specialization_params : ℕ → ℕ
  pub type_parameters : ℕ → List (Option (Option Bytes))  -- a null parameter, a null name
  pub find_type : ℕ → Bytes → Option ℕ
  pub specialize : ℕ → List SpecArg → Bytes × Option ℕ
  pub link : ℕ → Bytes × Option ℕ
  pub target_code : ℕ → Bytes × Option Bytes
  pub objects : ℕ → ℕ → Option Slang  -- the reflection objects of a linked program and a module
