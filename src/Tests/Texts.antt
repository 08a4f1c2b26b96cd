-- ===== src/Tests/Texts.antt =====
-- Directives, permutations, options and names.
use mathlib.Core.List.Perm
use slangmake.Prelude.{
  ◌≡◌, refl, true, false, codes, List, [], ◌∷◌, some, map, length, All, bytes_eq, bytes_lt,
  if◌then◌else◌,
}
use slangmake.Enums.{
  Target, Codec, Optimization, MatrixLayout, FloatingPointMode, to_upper, to_lower,
  target_to_string, parse_target, codec_to_string, parse_codec, target_to_blob_code,
  blob_code_to_target,
}
use slangmake.Enums.RoundTrip.{
  parse_target-target_to_string, parse_codec-codec_to_string,
  blob_code_to_target-target_to_blob_code,
}
use slangmake.Permutation.{Kind, PermutationDefine, ShaderConstant, empty}
use slangmake.Permutation.Expand.{canonical, expand, merge, defines_name, find_duplicate_names}
use slangmake.Permutation.Expand.Product.{
  product, axes, value_lists, build, product_nat, expand-product, length-expand,
}
use slangmake.Permutation.Expand.Merge.{named, merge-named}
use slangmake.Permutation.Expand.Duplicates.{occurrences, occurrences-find_duplicate_names}
use slangmake.Hash.Options.{CompileOptions, hash_compile_options, hash_compile_options-perm}
use slangmake.Directives.Nesting.{
  advance_quoted, advance_plain, advance, at_end, find_end, find_value_list_end,
}
use slangmake.Directives.Values.{
  is_space, trim_front, trim_cons, trim_end, trim, flush_token, separates, all_closed, values_from,
  parse_values,
}
use slangmake.Directives.{
  is_ident_start, is_ident_cont, strip_from, strip_comments, split_lines, skip_ws, strip_prefix,
  parse_marker, span_ident, parse_name, parse_braced, parse_axis, parse_line, parse_lines, parse,
  line_disables, any_disables, source_has_no_reflection,
}
use slangmake.Directives.WellFormed.{IsDirective, parse-IsDirective}
use slangmake.Directives.Print.{print}
use slangmake.Directives.RoundTrip.{IsPrintable, parse-print}

program : Unit {0}
unfolding advance_quoted advance_plain advance at_end find_end find_value_list_end is_space
    trim_front trim_cons trim_end trim flush_token separates all_closed values_from parse_values
    is_ident_start is_ident_cont strip_from strip_comments split_lines skip_ws strip_prefix
    parse_marker span_ident parse_name parse_braced parse_axis parse_line parse_lines parse
    line_disables any_disables source_has_no_reflection bytes_eq bytes_lt
program = tt

abbrev quality : PermutationDefine
quality = record {
  name = codes "QUALITY";
  values = codes "0" ∷ codes "1" ∷ [];
  kind = Kind.constant;
}

abbrev material : PermutationDefine
material = record { name = codes "Mat"; values = codes "Metal" ∷ []; kind = Kind.type }

-- a comment, a nested list of types, and a line that is no directive
parse_run :
    parse
      (codes "/* x */// [permutation type] T={ Pair<A,B>, C }\nfloat x;\n// [permutation] Q={}\n")
    ≡ record { name = codes "T"; values = codes "Pair<A,B>" ∷ codes "C" ∷ []; kind = Kind.type }
      ∷ []
unfolding program
parse_run = refl

-- a comment that never ends leaves its last byte
strip_unterminated : strip_comments (codes "a/*b!") ≡ codes "a !"
unfolding program
strip_unterminated = refl

no_reflection_run :
    source_has_no_reflection (codes "float x;\n  // [noreflection] for tools\n") ≡ true
unfolding program
no_reflection_run = refl

parse-IsDirective_example : All IsDirective (parse (codes "// [permutation] Q={ 1 , 2 }\n"))
parse-IsDirective_example = parse-IsDirective (codes "// [permutation] Q={ 1 , 2 }\n")

quality-IsPrintable : IsPrintable quality
unfolding program
quality-IsPrintable = record {
  directive = record {
    named = record {
      first = b'Q';
      others = codes "UALITY";
      splits = refl;
      starts = refl;
      goes_on = (refl, (refl, (refl, (refl, (refl, (refl, tt))))));
    };
    some_values = λ e. cc;
    good_values = (
      record { full = λ e. cc; trimmed = refl },
      (record { full = λ e. cc; trimmed = refl }, tt),
    );
  };
  plain = ((refl, tt), ((refl, tt), tt));
}

parse-print_example : parse (print (quality ∷ [])) ≡ quality ∷ []
parse-print_example = parse-print (quality ∷ []) (quality-IsPrintable, tt)

expand-product_example :
    expand (quality ∷ material ∷ [])
    ≡ map
        (λ c. canonical (build empty (axes (quality ∷ material ∷ [])) c))
        (product (value_lists (axes (quality ∷ material ∷ []))))
expand-product_example = expand-product (quality ∷ material ∷ [])

length-expand_example :
    length (expand (quality ∷ material ∷ []))
    ≡ product_nat (value_lists (axes (quality ∷ material ∷ [])))
length-expand_example = length-expand (quality ∷ material ∷ [])

merge-named_example : named (codes "Mat") (merge (quality ∷ material ∷ []) (quality ∷ [])) ≡ (
    if defines_name (quality ∷ []) (codes "Mat")
    then named (codes "Mat") (quality ∷ [])
    else named (codes "Mat") (quality ∷ material ∷ []))
merge-named_example = merge-named (codes "Mat") (quality ∷ material ∷ []) (quality ∷ [])

occurrences-find_duplicate_names_example :
    occurrences (codes "Q") (find_duplicate_names (codes "Q" ∷ codes "R" ∷ codes "Q" ∷ [])) ≡ 1
unfolding program
occurrences-find_duplicate_names_example =
    occurrences-find_duplicate_names (codes "Q") (codes "Q" ∷ codes "R" ∷ codes "Q" ∷ [])

abbrev pub options : CompileOptions
options = record {
  input_file = codes "a.slang";
  entry_point = codes "main";
  target = Target.spirv;
  profile = [];
  include_paths = [];
  defines =
      record { name = codes "A"; value = codes "1" }
      ∷ record { name = codes "B"; value = codes "2" }
      ∷ [];
  optimization = Optimization.high;
  matrix_layout = MatrixLayout.row_major;
  fp_mode = FloatingPointMode.default;
  debug_info = false;
  warnings_as_errors = false;
  glsl_scalar_layout = false;
  emit_spirv_directly = true;
  dump_intermediates = false;
  emit_reflection = true;
  vulkan_version = 0;
  vulkan_bind_shifts = [];
  language_version = [];
}

abbrev swapped : List ShaderConstant
swapped =
    record { name = codes "B"; value = codes "2" }
    ∷ record { name = codes "A"; value = codes "1" }
    ∷ []

hash_compile_options-perm_example :
    hash_compile_options options ≡ hash_compile_options (record options { defines = swapped })
hash_compile_options-perm_example = hash_compile_options-perm options swapped (Perm.swap _ _ [])

parse_target-target_to_string_example : parse_target (codes "metalLIB") ≡ some Target.metal_lib
unfolding to_upper target_to_string
parse_target-target_to_string_example =
    parse_target-target_to_string Target.metal_lib (codes "metalLIB") refl

parse_codec-codec_to_string_example : parse_codec (codes "ZSTD") ≡ some Codec.zstd
unfolding to_lower codec_to_string
parse_codec-codec_to_string_example = parse_codec-codec_to_string Codec.zstd (codes "ZSTD") refl

blob_code_to_target-target_to_blob_code_example :
    blob_code_to_target (target_to_blob_code Target.wgsl) ≡ Target.wgsl
blob_code_to_target-target_to_blob_code_example =
    blob_code_to_target-target_to_blob_code Target.wgsl
