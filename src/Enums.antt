-- ===== src/Enums.antt =====
-- The enums of include/slangmake.hpp and their textual and numeric codes (src/slangmake_util.cpp,
-- src/slangmake_c_internal.h). The C enums have the same values as the C++ ones.
pub mod RoundTrip
use slangmake.Prelude.{
  ℕ, ◌-◌, ◌+◌, Bool, ◌&&◌, ◌||◌, map, Option, Bytes, codes, bytes_eq, leb, ◌==◌, if◌then◌else◌,
}

pub data Target : Type 0 where
  spirv dxil dxbc hlsl glsl metal metal_lib wgsl : Target

pub data Optimization : Type 0 where
  none default high maximal : Optimization

pub data Codec : Type 0 where
  none lz4 zstd : Codec

pub data MatrixLayout : Type 0 where
  row_major column_major : MatrixLayout

pub data FloatingPointMode : Type 0 where
  default fast precise : FloatingPointMode

-- `std::toupper` and `std::tolower` in the "C" locale.
unfoldable pub to_upper : ℕ → ℕ
to_upper c = if leb b'a' c && leb c b'z' then c - 32 else c

unfoldable pub to_lower : ℕ → ℕ
to_lower c = if leb b'A' c && leb c b'Z' then c + 32 else c

unfoldable pub target_to_string : Target → Bytes
target_to_string Target.spirv = codes "SPIRV"
target_to_string Target.dxil = codes "DXIL"
target_to_string Target.dxbc = codes "DXBC"
target_to_string Target.hlsl = codes "HLSL"
target_to_string Target.glsl = codes "GLSL"
target_to_string Target.metal = codes "Metal"
target_to_string Target.metal_lib = codes "MetalLib"
target_to_string Target.wgsl = codes "WGSL"

-- The comparisons of `parseTarget` on the upper-case text.
parse_upper : Bytes → Option Target
parse_upper up =
    if bytes_eq up (codes "SPIRV") || bytes_eq up (codes "SPIR-V") || bytes_eq up (codes "SPV")
    then Option.some Target.spirv
    else if bytes_eq up (codes "DXIL")
    then Option.some Target.dxil
    else if bytes_eq up (codes "DXBC")
    then Option.some Target.dxbc
    else if bytes_eq up (codes "HLSL")
    then Option.some Target.hlsl
    else if bytes_eq up (codes "GLSL")
    then Option.some Target.glsl
    else if bytes_eq up (codes "METAL")
    then Option.some Target.metal
    else if bytes_eq up (codes "METALLIB")
    then Option.some Target.metal_lib
    else if bytes_eq up (codes "WGSL")
    then Option.some Target.wgsl
    else Option.none

unfoldable pub parse_target : Bytes → Option Target
unfolding parse_upper to_upper
parse_target s = parse_upper (map to_upper s)

unfoldable pub codec_to_string : Codec → Bytes
codec_to_string Codec.none = codes "none"
codec_to_string Codec.lz4 = codes "lz4"
codec_to_string Codec.zstd = codes "zstd"

parse_lower : Bytes → Option Codec
parse_lower low =
    if bytes_eq low (codes "none") || bytes_eq low (codes "")
    then Option.some Codec.none
    else if bytes_eq low (codes "lz4")
    then Option.some Codec.lz4
    else if bytes_eq low (codes "zstd") || bytes_eq low (codes "zst")
    then Option.some Codec.zstd
    else Option.none

unfoldable pub parse_codec : Bytes → Option Codec
unfolding parse_lower to_lower
parse_codec s = parse_lower (map to_lower s)

-- `detail::targetToBlobCode` and its inverse, which reads an unknown code as SPIRV.
unfoldable pub target_to_blob_code : Target → ℕ
target_to_blob_code Target.glsl = 2
target_to_blob_code Target.hlsl = 5
target_to_blob_code Target.spirv = 6
target_to_blob_code Target.dxbc = 8
target_to_blob_code Target.dxil = 10
target_to_blob_code Target.metal = 24
target_to_blob_code Target.metal_lib = 25
target_to_blob_code Target.wgsl = 28

unfoldable pub blob_code_to_target : ℕ → Target
blob_code_to_target code =
    if code == 2
    then Target.glsl
    else if code == 5
    then Target.hlsl
    else if code == 6
    then Target.spirv
    else if code == 8
    then Target.dxbc
    else if code == 10
    then Target.dxil
    else if code == 24
    then Target.metal
    else if code == 25
    then Target.metal_lib
    else if code == 28
    then Target.wgsl
    else Target.spirv

-- The numeric values of the enums, which `static_cast<uint32_t>` gives.
unfoldable pub target_code : Target → ℕ
target_code Target.spirv = 0
target_code Target.dxil = 1
target_code Target.dxbc = 2
target_code Target.hlsl = 3
target_code Target.glsl = 4
target_code Target.metal = 5
target_code Target.metal_lib = 6
target_code Target.wgsl = 7

unfoldable pub codec_code : Codec → ℕ
codec_code Codec.none = 0
codec_code Codec.lz4 = 1
codec_code Codec.zstd = 2

unfoldable pub optimization_code : Optimization → ℕ
optimization_code Optimization.none = 0
optimization_code Optimization.default = 1
optimization_code Optimization.high = 2
optimization_code Optimization.maximal = 3

unfoldable pub matrix_layout_code : MatrixLayout → ℕ
matrix_layout_code MatrixLayout.row_major = 0
matrix_layout_code MatrixLayout.column_major = 1

unfoldable pub fp_mode_code : FloatingPointMode → ℕ
fp_mode_code FloatingPointMode.default = 0
fp_mode_code FloatingPointMode.fast = 1
fp_mode_code FloatingPointMode.precise = 2
