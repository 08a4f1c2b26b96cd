-- ===== src/Enums/RoundTrip.antt =====
-- Names and codes of targets and codecs are read back.
use slangmake.Prelude.{◌≡◌, refl, map, Option, Bytes, bytes_eq}
use slangmake.Enums.{
  Target, Codec, to_upper, to_lower, target_to_string, parse_target, codec_to_string, parse_codec,
  target_to_blob_code, blob_code_to_target,
}

-- Every spelling of a target's canonical name, whatever its letter case, parses to that target.
pub parse_target-target_to_string :
    (t : Target) (s : Bytes)
    → map to_upper s ≡ map to_upper (target_to_string t)
    → parse_target s ≡ Option.some t
unfolding parse_target target_to_string to_upper bytes_eq
parse_target-target_to_string Target.spirv s h = rw h refl
parse_target-target_to_string t s h = rw h refl

-- Every spelling of a codec's canonical name, whatever its letter case, parses to that codec.
pub parse_codec-codec_to_string :
    (c : Codec) (s : Bytes)
    → map to_lower s ≡ map to_lower (codec_to_string c)
    → parse_codec s ≡ Option.some c
unfolding parse_codec codec_to_string to_lower bytes_eq
parse_codec-codec_to_string Codec.none s h = rw h refl
parse_codec-codec_to_string c s h = rw h refl

-- The target code of a blob header decodes to the target that was encoded.
pub blob_code_to_target-target_to_blob_code :
    (t : Target) → blob_code_to_target (target_to_blob_code t) ≡ t
unfolding blob_code_to_target target_to_blob_code
blob_code_to_target-target_to_blob_code Target.spirv = refl
blob_code_to_target-target_to_blob_code t = refl
