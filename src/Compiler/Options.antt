-- ===== src/Compiler/Options.antt =====
-- `buildOptionEntries` and the session's description (src/slangmake_compiler.cpp), and
-- `toSlangCompileTarget` (src/slangmake_util_compiler.cpp). Slang's option names are the constructors
-- of `OptionName`; its other enumerators are fields of `SlangModes`.
use slangmake.Prelude.{
  ℕ, ◌+◌, ◌*◌, ◌%◌, ◌/◌, ◌<◌, ◌^◌, arith, Bool, true, false, Bytes, codes, List, [], ◌∷◌, ◌++◌, map,
  is_empty, Option, none, some, ◌≡◌, refl, if◌then◌else◌,
}
use slangmake.Enums.{
  Target, MatrixLayout, FloatingPointMode, optimization_code, target_to_blob_code,
}
use slangmake.Permutation.{ShaderConstant}
use slangmake.Hash.Options.{CompileOptions, VulkanBindShift}

-- `slang::CompilerOptionName`, the ones in use.
pub data OptionName : Type 0 where
  optimization matrix_layout_row matrix_layout_column floating_point_mode debug_information
        warnings_as_errors glsl_force_scalar_layout dump_intermediates emit_spirv_directly
        emit_spirv_via_glsl vulkan_bind_shift language_version include :
      OptionName

-- `slang::CompilerOptionEntry`: two integers, as 32-bit patterns, or a string.
pub data OptionEntry : Type 0 where
  int_option : OptionName → ℕ → ℕ → OptionEntry
  string_option : OptionName → Bytes → OptionEntry

abbrev pub int_opt : OptionName → ℕ → OptionEntry
int_opt n v = int_option n v 0

abbrev pub bool_opt : OptionName → Bool → OptionEntry
bool_opt n true = int_opt n 1
bool_opt n false = int_opt n 0

pub record SlangModes : Type 0 where
  pub fp_default : ℕ
  pub fp_fast : ℕ
  pub fp_precise : ℕ
  pub debug_standard : ℕ
  pub row_major : ℕ
  pub column_major : ℕ

-- `static_cast<int>(opts.optimization)`, the layout, and the mode.
unfoldable pub layout_name : MatrixLayout → OptionName
layout_name MatrixLayout.row_major = matrix_layout_row
layout_name MatrixLayout.column_major = matrix_layout_column

unfoldable pub fp_mode : SlangModes → FloatingPointMode → ℕ
fp_mode m FloatingPointMode.fast = m.fp_fast
fp_mode m FloatingPointMode.precise = m.fp_precise
fp_mode m _ = m.fp_default

abbrev pub when : Bool → OptionEntry → List OptionEntry
when true e = e ∷ []
when false e = []

unfoldable pub spirv_entries : Target → Bool → List OptionEntry
spirv_entries Target.spirv true = bool_opt emit_spirv_directly true ∷ []
spirv_entries Target.spirv false = bool_opt emit_spirv_via_glsl true ∷ []
spirv_entries _ direct = []

-- The two masked parts do not overlap, so `|` is a sum.
unfoldable pub shift_word : VulkanBindShift → ℕ
shift_word b = b.kind % 2 ^ 8 * 2 ^ 24 + b.space % 2 ^ 24

unfoldable pub shift_entry : VulkanBindShift → OptionEntry
shift_entry b = int_option vulkan_bind_shift (shift_word b) (b.shift % 2 ^ 32)

-- `stoi` is `std::stoi`, as a 32-bit pattern, without a value where it throws; such a version is
-- dropped.
unfoldable pub language_entries : (Bytes → Option ℕ) → Bytes → List OptionEntry
language_entries stoi version =
    if is_empty version
    then []
    else elim (stoi version) [ none ↦ [] | some n ↦ int_opt language_version n ∷ [] ]

unfoldable pub build_option_entries :
    SlangModes → (Bytes → Option ℕ) → CompileOptions → List OptionEntry
build_option_entries m stoi o =
    int_opt optimization (optimization_code o.optimization)
    ∷ bool_opt (layout_name o.matrix_layout) true
    ∷ int_opt floating_point_mode (fp_mode m o.fp_mode)
    ∷ (when o.debug_info (int_opt debug_information m.debug_standard)
        ++ when o.warnings_as_errors (string_option warnings_as_errors (codes "all"))
        ++ when o.glsl_scalar_layout (bool_opt glsl_force_scalar_layout true)
        ++ when o.dump_intermediates (bool_opt dump_intermediates true)
        ++ spirv_entries o.target o.emit_spirv_directly
        ++ map shift_entry o.vulkan_bind_shifts
        ++ language_entries stoi o.language_version
        ++ map (string_option include) o.include_paths)

-- `SlangCompileTarget`, whose values the static assertions state.
unfoldable pub to_slang_compile_target : Target → ℕ
to_slang_compile_target Target.spirv = 6
to_slang_compile_target Target.dxil = 10
to_slang_compile_target Target.dxbc = 8
to_slang_compile_target Target.hlsl = 5
to_slang_compile_target Target.glsl = 2
to_slang_compile_target Target.metal = 24
to_slang_compile_target Target.metal_lib = 25
to_slang_compile_target Target.wgsl = 28

-- The codes in blobs are Slang's: for every target, the code that `targetToBlobCode` stores is the
-- value that `toSlangCompileTarget` passes to Slang.
pub to_slang_compile_target-target_to_blob_code :
    (t : Target) → to_slang_compile_target t ≡ target_to_blob_code t
unfolding to_slang_compile_target target_to_blob_code
to_slang_compile_target-target_to_blob_code Target.spirv = refl
to_slang_compile_target-target_to_blob_code Target.dxil = refl
to_slang_compile_target-target_to_blob_code Target.dxbc = refl
to_slang_compile_target-target_to_blob_code Target.hlsl = refl
to_slang_compile_target-target_to_blob_code Target.glsl = refl
to_slang_compile_target-target_to_blob_code Target.metal = refl
to_slang_compile_target-target_to_blob_code Target.metal_lib = refl
to_slang_compile_target-target_to_blob_code Target.wgsl = refl

-- `slang::TargetDesc` and `slang::SessionDesc`.
pub record SessionDesc : Type 0 where
  pub format : ℕ
  pub profile : ℕ
  pub floating_point_mode : ℕ
  pub force_glsl_scalar_buffer_layout : Bool
  pub default_matrix_layout_mode : ℕ
  pub search_paths : List Bytes
  pub preprocessor_macros : List ShaderConstant
  pub option_entries : List OptionEntry

unfoldable pub layout_mode : SlangModes → MatrixLayout → ℕ
layout_mode m MatrixLayout.row_major = m.row_major
layout_mode m MatrixLayout.column_major = m.column_major

-- The first integer of a bind shift is a 32-bit word with the low 8 bits of the kind on top and the
-- low 24 bits of the space below, so it keeps both.
pub shift_word-parts :
    (b : VulkanBindShift)
    → (shift_word b < 2 ^ 32)
      × (shift_word b / 2 ^ 24 ≡ b.kind % 2 ^ 8)
      × (shift_word b % 2 ^ 24 ≡ b.space % 2 ^ 24)
unfolding shift_word
shift_word-parts b = (omega arith, omega arith, omega arith)
