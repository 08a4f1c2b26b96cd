-- ===== src/Compiler/Built.antt =====
-- What a success of `Compiler::compile` (src/slangmake_compiler.cpp) is built of.
use slangmake.Prelude.{ℕ, Bool, true, false, ◌≡◌, Bytes, List, [], ◌∷◌, some, is_empty}
use slangmake.Permutation.{Permutation}
use slangmake.Hash.Options.{CompileOptions}
use slangmake.Batch.Surroundings.{Result}
use slangmake.Reflection.Walk.{serialize_reflection}
use slangmake.Compiler.{session_desc, named_files, found_points}
use slangmake.Compiler.Calls.{Library, SpecArg}
use slangmake.Compiler.TypeArgs.{find_duplicate_binding_names}
use slangmake.Compiler.Bindings.{Accepts}

-- The entry points: the one of the options' name, or else those of the module, at least one.
pub data IsPoints (lib : Library) (m : ℕ) (name : Bytes) : List ℕ → Type 0 where
  all_defined :
      is_empty name ≡ true
      → is_empty (found_points (lib.defined_entry_points m)) ≡ false
      → IsPoints lib m name (found_points (lib.defined_entry_points m))
  of_name :
      {e : ℕ}
      → is_empty name ≡ false
      → lib.find_entry_point m name ≡ some e
      → IsPoints lib m name (e ∷ [])

-- The program with its type parameters bound; without values it is the composite.
pub data IsProgram (lib : Library) (perm : Permutation) (composite : ℕ) : ℕ → Type 0 where
  plain : is_empty perm.type_args ≡ true → IsProgram lib perm composite composite
  bound :
      {layout program : ℕ} {args : List SpecArg}
      → is_empty perm.type_args ≡ false
      → (lib.get_layout composite).1 ≡ some layout
      → Accepts lib composite layout perm.type_args args
      → (lib.specialize composite args).1 ≡ some program
      → IsProgram lib perm composite program

-- The objects behind the code: each made from the one before, the code from the last.
pub record IsBuild (lib : Library) (opts : CompileOptions) (perm : Permutation) (m linked : ℕ)
    (code : Bytes) (dependencies : List Bytes) : Type 0 where
  pub session : ℕ
  pub source : Bytes
  pub points : List ℕ
  pub composite : ℕ
  pub program : ℕ
  pub unique : find_duplicate_binding_names perm.type_args ≡ []
  pub opened : lib.create_session (session_desc lib opts perm) ≡ some session
  pub input : lib.read opts.input_file ≡ some source
  pub module_loaded :
      (lib.load_module session (lib.stem opts.input_file) opts.input_file source).1 ≡ some m
  pub points_found : IsPoints lib m opts.entry_point points
  pub composed : (lib.create_composite session (m ∷ points)).1 ≡ some composite
  pub program_made : IsProgram lib perm composite program
  pub program_linked : (lib.link program).1 ≡ some linked
  pub code_made : (lib.target_code linked).1 ≡ some code
  pub same_dependencies : dependencies ≡ named_files (lib.dependency_files m)

pub data IsReflected (lib : Library) (fuel : ℕ) (asked : Bool) (m linked : ℕ) (r : Result)
    : Type 0 where
  left_out : asked ≡ false → r.reflection ≡ [] → IsReflected lib fuel asked m linked r
  written :
      asked ≡ true
      → serialize_reflection fuel (lib.objects linked m) ≡ some r.reflection
      → IsReflected lib fuel asked m linked r

-- A success with what it is made of.
pub record IsBuilt (lib : Library) (fuel : ℕ) (opts : CompileOptions) (perm : Permutation)
    (r : Result) : Type 0 where
  pub slang_module : ℕ
  pub linked : ℕ
  pub build : IsBuild lib opts perm slang_module linked r.code r.dependencies
  pub reflection : IsReflected lib fuel opts.emit_reflection slang_module linked r
