-- ===== src/Hash/Options.antt =====
-- `CompileOptions` and `hashCompileOptions` (src/slangmake_util.cpp). `sort` of pairs of strings is
-- lexicographic.
use mathlib.Core.List.{Perm}
use mathlib.Core.Logic.{∥∥₁_elim}
use native.Mathlib.Nat.{ℕ_set}
use slangmake.Prelude.{
  ℕ, ◌≡◌, refl, sym, Bool, true, false, Bytes, bytes_eq, bytes_lt, bytes_eq_iff, bytes_eq_sym,
  bytes_lt_asymm, bytes_lt_cotrans, bytes_lt_connex, List, [], ◌∷◌, if◌then◌else◌, Bool-cases, inl,
  inr, arith,
}
use slangmake.Prelude.Sort.{Order, sort, sort-Permᴰ}
use slangmake.Enums.{
  Target, Optimization, MatrixLayout, FloatingPointMode, target_code, optimization_code,
  matrix_layout_code, fp_mode_code,
}
use slangmake.Permutation.{ShaderConstant}
use slangmake.Hash.{fnv_offset, fnv1a_mix, fnv1a_mix_str, le32}

pub record VulkanBindShift : Type 0 where
  pub kind : ℕ
  pub space : ℕ
  pub shift : ℕ

-- `vulkan_version` is the 32-bit pattern of an `int`.
pub record CompileOptions : Type 0 where
  pub input_file : Bytes
  pub entry_point : Bytes
  pub target : Target
  pub profile : Bytes
  pub include_paths : List Bytes
  pub defines : List ShaderConstant
  pub optimization : Optimization
  pub matrix_layout : MatrixLayout
  pub fp_mode : FloatingPointMode
  pub debug_info : Bool
  pub warnings_as_errors : Bool
  pub glsl_scalar_layout : Bool
  pub emit_spirv_directly : Bool
  pub dump_intermediates : Bool
  pub emit_reflection : Bool
  pub vulkan_version : ℕ
  pub vulkan_bind_shifts : List VulkanBindShift
  pub language_version : Bytes

-- `fnv1aMixPod` of a 32-bit value and of a `bool`.
unfoldable pub mix32 : ℕ → ℕ → ℕ
mix32 h n = fnv1a_mix h (le32 n)

unfoldable pub mix_bool : ℕ → Bool → ℕ
mix_bool h b = fnv1a_mix h ((if b then 1 else 0) ∷ [])

unfoldable pub mix_paths : ℕ → List Bytes → ℕ
mix_paths h [] = h
mix_paths h (p ∷ ps) = mix_paths (fnv1a_mix_str h p) ps

unfoldable pub mix_defines : ℕ → List ShaderConstant → ℕ
mix_defines h [] = h
mix_defines h (d ∷ ds) = mix_defines (fnv1a_mix_str (fnv1a_mix_str h d.name) d.value) ds

unfoldable pub mix_shifts : ℕ → List VulkanBindShift → ℕ
mix_shifts h [] = h
mix_shifts h (b ∷ bs) = mix_shifts (mix32 (mix32 (mix32 h b.kind) b.space) b.shift) bs

-- `<` of pairs.
unfoldable pub define_less : ShaderConstant → ShaderConstant → Bool
define_less a b =
    if bytes_eq a.name b.name then bytes_lt a.value b.value else bytes_lt a.name b.name

pub define_less-asymm : (a b : ShaderConstant) → define_less a b ≡ true → define_less b a ≡ false
unfolding define_less
define_less-asymm a b h = ground (
  arith,
  bytes_eq_iff a.name b.name,
  bytes_eq_iff b.name a.name,
  bytes_lt_asymm a.name b.name,
  bytes_lt_asymm a.value b.value,
)

pub define_less-cotrans :
    (a b c : ShaderConstant)
    → define_less a c ≡ true
    → define_less b c ≡ false
    → define_less a b ≡ true
unfolding define_less
define_less-cotrans a b c h k = grind (
  arith,
  bytes_eq_iff a.name b.name,
  bytes_eq_iff a.name c.name,
  bytes_eq_iff b.name c.name,
  bytes_lt_cotrans a.value b.value c.value,
  bytes_lt_cotrans a.name b.name c.name,
  bytes_lt_connex a.name b.name,
  bytes_lt_connex b.name a.name,
)

define_less-connex :
    (a b : ShaderConstant) → define_less a b ≡ false → define_less b a ≡ false → a ≡ b
unfolding define_less
define_less-connex a b h k = elim (Bool-cases (bytes_eq a.name b.name)) [
  | inl e ↦
      let n = (bytes_eq_iff a.name b.name).0 e in
      let v : a.value ≡ b.value =
        bytes_lt_connex a.value b.value (rw e at h)
          (rw ((bytes_eq_iff b.name a.name).1 (sym n)) at k) in
      λ i. record { name = n i; value = v i }
  | inr e ↦
      let f : bytes_eq b.name a.name ≡ false = bytes_eq_sym a.name b.name e in
      let n = bytes_lt_connex a.name b.name (rw e at h) (rw f at k) in
      cc (e, (bytes_eq_iff a.name b.name).1 n)
]

abbrev pub by_pair : Order ShaderConstant
by_pair = record { less = define_less; asymm = define_less-asymm; cotrans = define_less-cotrans }

unfoldable pub hash_compile_options : CompileOptions → ℕ
hash_compile_options o =
    let h1 =
      fnv1a_mix_str (fnv1a_mix_str (mix32 fnv_offset (target_code o.target)) o.profile)
        o.entry_point in
    let h2 =
      mix32
        (mix32 (mix32 h1 (optimization_code o.optimization)) (matrix_layout_code o.matrix_layout))
        (fp_mode_code o.fp_mode) in
    let h3 =
      mix_bool (mix_bool (mix_bool h2 o.debug_info) o.warnings_as_errors) o.glsl_scalar_layout in
    let h4 =
      mix_bool (mix_bool (mix_bool h3 o.emit_spirv_directly) o.dump_intermediates)
        o.emit_reflection in
    let h5 =
      mix_paths (fnv1a_mix_str (mix32 h4 o.vulkan_version) o.language_version) o.include_paths in
    mix_shifts (mix_defines h5 (sort by_pair o.defines)) o.vulkan_bind_shifts

-- The hash does not depend on the order in which the global defines are listed.
pub hash_compile_options-perm :
    (o : CompileOptions) (defs : List ShaderConstant)
    → Perm o.defines defs
    → hash_compile_options o ≡ hash_compile_options (record o { defines = defs })
hash_compile_options-perm o defs p = ∥∥₁_elim p (ℕ_set _ _) λ q.
    let e : sort by_pair o.defines ≡ sort by_pair defs =
      sort-Permᴰ by_pair q (λ a b _ _ h k. define_less-connex a b h k) in
    unfold hash_compile_options in rw e refl
