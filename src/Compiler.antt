-- ===== src/Compiler.antt =====
-- `Compiler::compile` (src/slangmake_compiler.cpp): one permutation of one shader. Each early return
-- of the function is an `Attempt` that has stopped with the result of the moment.
pub mod Options
pub mod Calls
pub mod TypeArgs
pub mod Bindings
pub mod Outcomes
pub mod Built
pub mod Stages
pub mod Success
use slangmake.Prelude.{
  ℕ, Bool, true, false, Bytes, codes, List, [], ◌∷◌, ◌++◌, Option, none, some, is_empty,
  if◌then◌else◌,
}
use slangmake.Permutation.{Permutation}
use slangmake.Hash.Options.{CompileOptions}
use slangmake.Batch.Surroundings.{Result}
use slangmake.Reflection.Walk.{serialize_reflection}
use Options.{SessionDesc, build_option_entries, to_slang_compile_target, layout_mode}
use Calls.{Library, SpecArg}
use TypeArgs.{Checked, good, bad, find_duplicate_binding_names, quoted, type_arguments}

pub data Attempt {ℓ} (A : Type ℓ) : Type ℓ where
  stopped : Result → Attempt A
  going : A → Attempt A

infixl 5 ◌>>=◌
abbrev pub ◌>>=◌ {ℓ κ} : {A : Type ℓ} {B : Type κ} → Attempt A → (A → Attempt B) → Attempt B
stopped r >>= f = stopped r
going a >>= f = f a

abbrev pub no_result : Result
no_result = record {
  success = false;
  code = [];
  reflection = [];
  dependencies = [];
  diagnostics = [];
}

-- `result.diagnostics += text`.
abbrev pub say : Bytes → Result → Result
say text r = record r { diagnostics = r.diagnostics ++ text }

unfoldable pub duplicate_type_args : Permutation → Attempt (Unit {0})
duplicate_type_args perm =
    let names = find_duplicate_binding_names perm.type_args in
    if is_empty names
    then going tt
    else stopped (
        say
          (codes "duplicate typeArg name(s): "
            ++ quoted names
            ++ codes
                ". Each module-scope `type_param` may be specialized at most once per permutation.")
          no_result)

-- The macros of the options stand in front of those of the permutation.
unfoldable pub session_desc : Library → CompileOptions → Permutation → SessionDesc
session_desc lib opts perm = record {
  format = to_slang_compile_target opts.target;
  profile = if is_empty opts.profile then lib.unknown_profile else lib.find_profile opts.profile;
  floating_point_mode = lib.modes.fp_default;
  force_glsl_scalar_buffer_layout = opts.glsl_scalar_layout;
  default_matrix_layout_mode = layout_mode lib.modes opts.matrix_layout;
  search_paths = opts.include_paths;
  preprocessor_macros = opts.defines ++ perm.constants;
  option_entries = build_option_entries lib.modes lib.stoi opts;
}

-- What Slang or the file system gives, or the end with `text`.
unfoldable pub required {ℓ} : {A : Type ℓ} → Bytes → Result → Option A → Attempt A
required text r none = stopped (say text r)
required text r (some a) = going a

unfoldable pub open_session : Library → CompileOptions → Permutation → Attempt ℕ
open_session lib opts perm =
    required (codes "failed to create session") no_result
      (lib.create_session (session_desc lib opts perm))

unfoldable pub open_input : Library → CompileOptions → Attempt Bytes
open_input lib opts =
    required (codes "cannot open input: " ++ opts.input_file) no_result (lib.read opts.input_file)

-- The files that have a path.
unfoldable pub named_files : List (Option Bytes) → List Bytes
named_files [] = []
named_files (none ∷ more) = named_files more
named_files (some p ∷ more) = p ∷ named_files more

unfoldable pub loaded : Library → Bytes × Option ℕ → Attempt (ℕ × Result)
loaded lib (diag, none) = stopped (say diag no_result)
loaded lib (diag, some m) =
    going (m, record (say diag no_result) { dependencies = named_files (lib.dependency_files m) })

unfoldable pub load_module : Library → CompileOptions → ℕ → Bytes → Attempt (ℕ × Result)
load_module lib opts session source =
    loaded lib (lib.load_module session (lib.stem opts.input_file) opts.input_file source)

unfoldable pub found_points : List (Option ℕ) → List ℕ
found_points [] = []
found_points (none ∷ more) = found_points more
found_points (some e ∷ more) = e ∷ found_points more

unfoldable pub named_point : Library → Bytes → ℕ → Result → Attempt (List ℕ)
named_point lib name m r =
    required (codes "\nentry point not found: " ++ name) r (lib.find_entry_point m name) >>= λ e.
    going (e ∷ [])

unfoldable pub all_points : Library → ℕ → Result → Attempt (List ℕ)
all_points lib m r =
    let found = found_points (lib.defined_entry_points m) in
    if is_empty found
    then stopped (say (codes "\nno entry points defined in module") r)
    else going found

unfoldable pub entry_points : Library → CompileOptions → ℕ → Result → Attempt (List ℕ)
entry_points lib opts m r =
    if is_empty opts.entry_point then all_points lib m r else named_point lib opts.entry_point m r

-- A call whose diagnostics matter only if it failed.
unfoldable pub or_stop {ℓ} : {A : Type ℓ} → Result → Bytes × Option A → Attempt A
or_stop r (diag, none) = stopped (say diag r)
or_stop r (diag, some a) = going a

unfoldable pub layout_of : Result → Bytes × Option ℕ → Attempt (ℕ × Result)
layout_of r (diag, none) =
    stopped (say (codes "\nfailed to obtain unspecialized program layout") (say diag r))
layout_of r (diag, some l) = going (l, say diag r)

unfoldable pub checked {ℓ} : {A : Type ℓ} → Result → Checked A → Attempt A
checked r (good a) = going a
checked r (bad text) = stopped (say text r)

unfoldable pub specialized : Library → Permutation → ℕ → Result → Attempt (ℕ × Result)
specialized lib perm composite r = layout_of r (lib.get_layout composite) >>= λ l.
    checked l.1 (type_arguments lib composite l.0 perm.type_args) >>= λ args.
    or_stop l.1 (lib.specialize composite args) >>= λ c. going (c, l.1)

unfoldable pub specialize : Library → Permutation → ℕ → Result → Attempt (ℕ × Result)
specialize lib perm composite r =
    if is_empty perm.type_args then going (composite, r) else specialized lib perm composite r

-- Everything up to the code; the program and the module are kept for the reflection.
unfoldable pub compile_code : Library → CompileOptions → Permutation → Attempt (ℕ × ℕ × Result)
compile_code lib opts perm = duplicate_type_args perm >>= λ u.
    open_session lib opts perm >>= λ session. open_input lib opts >>= λ source.
    load_module lib opts session source >>= λ m. entry_points lib opts m.0 m.1 >>= λ points.
    or_stop m.1 (lib.create_composite session (m.0 ∷ points)) >>= λ composite.
    specialize lib perm composite m.1 >>= λ c. or_stop c.1 (lib.link c.0) >>= λ linked.
    or_stop c.1 (lib.target_code linked) >>= λ code. going (linked, m.0, record c.1 { code = code })

abbrev pub success : Result → Result
success r = record r { success = true }

-- `none` is a reflection that runs out of fuel.
unfoldable pub reflected : Result → Option Bytes → Option Result
reflected r none = none
reflected r (some bytes) = some (record (success r) { reflection = bytes })

unfoldable pub with_reflection :
    Library → ℕ → CompileOptions → Attempt (ℕ × ℕ × Result) → Option Result
with_reflection lib fuel opts (stopped r) = some r
with_reflection lib fuel opts (going (linked, m, r)) =
    if opts.emit_reflection
    then reflected r (serialize_reflection fuel (lib.objects linked m))
    else some (success r)

unfoldable pub compile : Library → ℕ → CompileOptions → Permutation → Option Result
compile lib fuel opts perm = with_reflection lib fuel opts (compile_code lib opts perm)
