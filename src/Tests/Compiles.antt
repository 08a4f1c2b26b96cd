-- ===== src/Tests/Compiles.antt =====
-- One permutation of a shader, and the worker threads.
use slangmake.Prelude.{
  ℕ, zero, suc, ◌≡◌, refl, ◌↔◌, ◌⊎◌, ◌<◌, ◌^◌, ◌/◌, ◌%◌, ◌≤◌, ◌*◌, ◌+◌, true, false, codes, List,
  [], ◌∷◌, Option, none, some, length, arith,
}
use slangmake.Enums.{Target, target_to_blob_code}
use slangmake.Permutation.{Permutation, ShaderConstant}
use slangmake.Hash.Options.{CompileOptions}
use slangmake.Batch.Surroundings.{Result}
use slangmake.Reflection.Slang.{Slang}
use slangmake.Reflection.Walk.{serialize_reflection}
use slangmake.Prelude.{bytes_eq}
use slangmake.Permutation.Expand.{increment, count_names, repeated, find_duplicate_names}
use slangmake.Prelude.Sort.{sort, insert}
use slangmake.Compiler.{
  compile, compile_code, with_reflection, reflected, duplicate_type_args, open_session, open_input,
  required, named_files, loaded, load_module, found_points, named_point, all_points, entry_points,
  or_stop, layout_of, checked, specialized, specialize,
}
use slangmake.Compiler.Calls.{Library, from_type}
use slangmake.Compiler.Options.{
  shift_word, shift_word-parts, to_slang_compile_target,
  to_slang_compile_target-target_to_blob_code,
}
use slangmake.Compiler.TypeArgs.{
  good, find_duplicate_binding_names, value_of, declares, declared_names, strays, refuse_strays,
  spec_arg, required_arg, bind_args, refuse_other_params, type_arguments,
}
use slangmake.Compiler.Bindings.{Accepts, type_arguments-Accepts}
use slangmake.Compiler.Built.{IsBuilt}
use slangmake.Compiler.Success.{compile-IsBuilt}
use slangmake.Compiler.Outcomes.{Ending, compile-Ending}
use slangmake.Batch.Workers.{
  put, fetching, compiling, stopped, Pool, Step, fetch, leave, write, Reach, begin, later,
  sequential,
}
use slangmake.Batch.Workers.Finished.{finished-sequential}
use slangmake.Batch.Workers.Progress.{workers-stop}
use slangmake.Tests.Texts.{options}
use native.Mathlib.Decide.{ℕ_discrete}

to_slang_compile_target-target_to_blob_code_example :
    to_slang_compile_target Target.wgsl ≡ target_to_blob_code Target.wgsl
to_slang_compile_target-target_to_blob_code_example =
    to_slang_compile_target-target_to_blob_code Target.wgsl

shift_word-parts_example :
    (shift_word (record { kind = 2; space = 3; shift = 4 }) < 2 ^ 32)
    × (shift_word (record { kind = 2; space = 3; shift = 4 }) / 2 ^ 24 ≡ 2 % 2 ^ 8)
    × (shift_word (record { kind = 2; space = 3; shift = 4 }) % 2 ^ 24 ≡ 3 % 2 ^ 24)
shift_word-parts_example = shift_word-parts (record { kind = 2; space = 3; shift = 4 })

-- A module 7 with the type parameter `T` and an entry point, and a type `Metal`.
abbrev library : Option Slang → Library
library o = record {
  modes = record {
    fp_default = 0;
    fp_fast = 1;
    fp_precise = 2;
    debug_standard = 2;
    row_major = 1;
    column_major = 2;
  };
  unknown_profile = 0;
  stoi = λ s. none;
  stem = λ s. s;
  read = λ path. some (codes "shader");
  find_profile = λ s. 3;
  create_session = λ d. some 5;
  load_module = λ session name path source. ([], some 7);
  dependency_files = λ m. some (codes "a.slang") ∷ none ∷ [];
  find_entry_point = λ m name. none;
  defined_entry_points = λ m. none ∷ some 8 ∷ [];
  create_composite = λ session parts. ([], some (length parts));
  get_layout = λ c. ([], some 9);
  specialization_params = λ c. 1;
  type_parameters = λ l. some (some (codes "T")) ∷ [];
  find_type = λ l name. some 10;
  specialize = λ c args. ([], some 11);
  link = λ c. ([], some 12);
  target_code = λ c. ([], some (c ∷ []));
  objects = λ linked m. o;
}

abbrev metal : List ShaderConstant
metal = record { name = codes "T"; value = codes "Metal" } ∷ []

abbrev perm : Permutation
perm = record { constants = []; type_args = metal }

abbrev compiled : Result
compiled = record {
  success = true;
  code = 12 ∷ [];
  reflection = [];
  dependencies = codes "a.slang" ∷ [];
  diagnostics = [];
}

abbrev any_entry : CompileOptions
any_entry = record options { entry_point = [] }

program : Unit {0}
unfolding compile compile_code with_reflection reflected duplicate_type_args open_session open_input
    required named_files loaded load_module found_points named_point all_points entry_points or_stop
    layout_of checked specialized specialize find_duplicate_binding_names value_of declares
    declared_names strays refuse_strays spec_arg required_arg bind_args refuse_other_params
    type_arguments bytes_eq increment count_names repeated find_duplicate_names sort insert
    serialize_reflection
program = tt

type_arguments_run : type_arguments (library none) 2 9 metal ≡ good (from_type 10 ∷ [])
unfolding program
type_arguments_run = refl

compile_run : compile (library none) 0 any_entry perm ≡ some compiled
unfolding program
compile_run = refl

-- No entry point is called `main`.
unknown_point_run :
    compile (library none) 0 options perm
    ≡ some (record compiled {
      success = false;
      code = [];
      diagnostics = codes "\nentry point not found: main";
    })
unfolding program
unknown_point_run = refl

type_arguments-Accepts_example :
    (type_arguments (library none) 2 9 metal ≡ good (from_type 10 ∷ []))
    ↔ Accepts (library none) 2 9 metal (from_type 10 ∷ [])
type_arguments-Accepts_example = type_arguments-Accepts (library none) 2 9 metal (from_type 10 ∷ [])

compile-Ending_example : Ending true compiled
compile-Ending_example = compile-Ending (library none) 0 any_entry perm compiled compile_run

compile-IsBuilt_example : IsBuilt (library none) 0 any_entry perm compiled
compile-IsBuilt_example = compile-IsBuilt (library none) 0 any_entry perm compiled compile_run refl

-- One thread for the job 4: it takes the job, writes its result and stops.
abbrev results : ℕ → ℕ
results i = 0

abbrev jobs : List ℕ
jobs = 4 ∷ []

abbrev fetched : Pool (λ i. i + 100) jobs
fetched = record { next_idx = 1; results = results; threads = put (λ t. fetching) 0 (compiling 0) }

abbrev written : Pool (λ i. i + 100) jobs
written = record {
  next_idx = 1;
  results = put results 4 104;
  threads = put fetched.threads 0 fetching;
}

abbrev ended : Pool (λ i. i + 100) jobs
ended = record { next_idx = 2; results = written.results; threads = put written.threads 0 stopped }

ended-Reach : Reach (λ i. i + 100) jobs 1 results 3 ended
unfolding ℕ_discrete
ended-Reach =
    later
      (later (later begin (fetch 0 (omega arith) refl (omega arith))) (write 0 (omega arith) refl))
      (leave 0 (omega arith) refl (omega arith))

ended-stopped : (t : ℕ) → t < 1 → ended.threads t ≡ stopped
unfolding ℕ_discrete
ended-stopped zero h = refl
ended-stopped (suc t) h = absurd (omega arith)

finished-sequential_example : ended.results 4 ≡ sequential (λ i. i + 100) jobs results 4
finished-sequential_example =
    finished-sequential (λ i. i + 100) jobs 1 3 results ended (omega arith) ended-Reach
      ended-stopped 4

workers-stop_example :
    (3 ≤ 2 * 1 + 1)
    × (((t : ℕ) → t < 1 → ended.threads t ≡ stopped)
        ⊎ ((s' : Pool (λ i. i + 100) jobs) × Step (λ i. i + 100) jobs 1 ended s'))
workers-stop_example = workers-stop (λ i. i + 100) jobs 1 3 results ended ended-Reach
