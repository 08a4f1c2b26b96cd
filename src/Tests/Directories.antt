-- ===== src/Tests/Directories.antt =====
-- A directory with one shader and one other file.
use slangmake.Prelude.{
  ◌≡◌, refl, true, false, codes, List, [], ◌∷◌, Option, none, some, length, arith, bytes_eq,
  bytes_lt, if◌then◌else◌,
}
use slangmake.Enums.{Codec}
use slangmake.Blob.Codecs.{CodecLibraries}
use slangmake.Batch.{Input, Output, Stats, compile_file, merged_defines}
use slangmake.Batch.Success.{compile_file-all}
use slangmake.Batch.Directory.{Files, DirEntry, Directory, compile_directory, exit_code}
use slangmake.Batch.Directory.Written.{Wrote, Apart, compile_directory-Wrote}
use slangmake.Permutation.Expand.{expand}
use slangmake.Batch.{
  quoted_names, duplicate_message, count, add_failure, add_success, assemble, zip_indices, finish,
  compile_perms, merged_defines, file_options, compile_file,
}
use slangmake.Batch.Directory.{store, is_shader, compile_shader, compile_directory, exit_code}
use slangmake.Batch.Reuse.{
  previous_reader, index_of_key, deps_ok, dep_paths_of, reusable, reused_outcome, compiled_outcome,
  outcome_of,
}
use slangmake.Batch.Deps.{index_of_path, intern_dep, intern_paths, intern_entries}
use slangmake.Batch.Surroundings.{hash_file_contents, succeeded}
use slangmake.Blob.Writer.{
  new, add_entry, set_dependencies, set_options_hash, set_compression, plan_after, plan, header,
  emit, wrap, compressed, finalize,
}
use slangmake.Blob.Writer.Layout.{
  place, layout_entry, layout_entries, path_slots, dep_slots, index_count,
}
use slangmake.Blob.Writer.Dedup.{find_hash, emplace, earlier, dedup_step, dedup_from, dedup}
use slangmake.Blob.Writer.Emit.{
  pad_loop, pad_to8, pad_to4, pad_until_loop, pad_until, emit_records, emit_payload, emit_entry,
  emit_entries, emit_paths, emit_deps, emit_index_list, emit_indices, store32,
}
use slangmake.Blob.Format.{
  header_bytes, record_bytes, dep_bytes, load_header, read_record, read_dep,
}
use slangmake.Blob.Codecs.{compress_payload, exact_size, decompress_payload}
use slangmake.Permutation.{join_sorted, key}
use slangmake.Permutation.Expand.{
  expand, merge, increment, count_names, repeated, find_duplicate_names,
}
use slangmake.Directives.{
  is_ident_start, is_ident_cont, strip_from, strip_comments, split_lines, skip_ws, strip_prefix,
  parse_marker, span_ident, parse_name, parse_braced, parse_axis, parse_line, parse_lines, parse,
  line_disables, any_disables, source_has_no_reflection,
}
use slangmake.Directives.Values.{
  is_space, trim_front, trim_cons, trim_end, trim, flush_token, separates, all_closed, values_from,
  parse_values,
}
use slangmake.Directives.Nesting.{
  advance_quoted, advance_plain, advance, at_end, find_end, find_value_list_end,
}
use slangmake.Hash.{fnv1a_mix, fnv1a_mix_str}
use slangmake.Hash.Options.{
  mix32, mix_bool, mix_paths, mix_defines, mix_shifts, define_less, hash_compile_options,
}
use slangmake.Enums.{
  to_upper, to_lower, target_to_string, parse_target, codec_to_string, parse_codec,
  target_to_blob_code, blob_code_to_target, target_code, codec_code, optimization_code,
  matrix_layout_code, fp_mode_code,
}
use slangmake.Batch.Surroundings.{Environment}
use slangmake.Tests.Texts.{options}

program : Unit {0}
unfolding quoted_names duplicate_message count add_failure add_success assemble zip_indices finish
    compile_perms merged_defines file_options compile_file store is_shader compile_shader
    compile_directory exit_code previous_reader index_of_key deps_ok dep_paths_of reusable
    reused_outcome compiled_outcome outcome_of index_of_path intern_dep intern_paths intern_entries
    hash_file_contents succeeded new add_entry set_dependencies set_options_hash set_compression
    plan_after plan header emit wrap compressed finalize place layout_entry layout_entries
    path_slots dep_slots index_count find_hash emplace earlier dedup_step dedup_from dedup pad_loop
    pad_to8 pad_to4 pad_until_loop pad_until emit_records emit_payload emit_entry emit_entries
    emit_paths emit_deps emit_index_list emit_indices store32 header_bytes record_bytes dep_bytes
    load_header read_record read_dep compress_payload exact_size decompress_payload join_sorted key
    expand merge increment count_names repeated find_duplicate_names is_ident_start is_ident_cont
    strip_from strip_comments split_lines skip_ws strip_prefix parse_marker span_ident parse_name
    parse_braced parse_axis parse_line parse_lines parse line_disables any_disables
    source_has_no_reflection is_space trim_front trim_cons trim_end trim flush_token separates
    all_closed values_from parse_values advance_quoted advance_plain advance at_end find_end
    find_value_list_end fnv1a_mix fnv1a_mix_str mix32 mix_bool mix_paths mix_defines mix_shifts
    define_less hash_compile_options to_upper to_lower target_to_string parse_target codec_to_string
    parse_codec target_to_blob_code blob_code_to_target target_code codec_code optimization_code
    matrix_layout_code fp_mode_code bytes_eq bytes_lt
program = tt

abbrev failing : CodecLibraries
failing = record {
  lz4 = record { compress = λ b. none; decompress = λ n b. none };
  zstd = record { compress = λ b. none; decompress = λ n b. none };
}

abbrev directory : Directory
directory = record {
  libs = failing;
  compile = λ opts perm. record {
    success = true;
    code = 1 ∷ 2 ∷ [];
    reflection = [];
    dependencies = [];
    diagnostics = [];
  };
  settings = record { incremental = false; keep_going = true; compression = Codec.none };
  base = options;
  cli_override = [];
  extension = λ p. if bytes_eq p (codes "a") then codes ".slang" else [];
  out_path = λ p. 0 ∷ p;
}

abbrev files : Files
files p = if bytes_eq p (codes "a") then some [] else none

abbrev entries : List DirEntry
entries =
    record { path = codes "a"; is_regular = true }
    ∷ record { path = codes "b"; is_regular = true }
    ∷ []

abbrev given : Option (List Output × Files) → List Output × Files
given none = ([], files)
given (some r) = r

abbrev left : List Output × Files
left = given (compile_directory directory entries files)

run : compile_directory directory entries files ≡ some left
unfolding program
run = refl

no_failure : exit_code left.0 ≡ 0
unfolding program
no_failure = refl

entries-Apart : Apart directory entries
entries-Apart = ((λ e. grind arith, tt), (tt, tt))

compile_directory-Wrote_example : Wrote directory left.1 entries left.0
compile_directory-Wrote_example =
    compile_directory-Wrote directory entries files left.1 left.0 run entries-Apart no_failure

abbrev environment : Environment
environment = record { read = files; compile = directory.compile }

abbrev input : Input
input = record { file = codes "a"; options = options; cli_override = [] }

abbrev reported : Option (Output × Stats) → Output × Stats
reported none = (
  record { compiled = []; failures = []; blob = []; written = none },
  record { compiled = 0; reused = 0 },
)
reported (some r) = r

abbrev one_file : Output × Stats
one_file = reported (compile_file failing environment directory.settings input none)

one_file_run : compile_file failing environment directory.settings input none ≡ some one_file
unfolding program
one_file_run = refl

no_failure_listed : length one_file.0.failures ≡ 0
unfolding program
no_failure_listed = refl

compile_file-all_example :
    (one_file.0.compiled ≡ expand (merged_defines input (files (codes "a"))))
    × (one_file.0.written ≡ some one_file.0.blob)
compile_file-all_example =
    compile_file-all failing environment directory.settings input none one_file.0 one_file.1
      one_file_run no_failure_listed

-- 56 of header, 32 of the record, 16 of an empty key, the code and padding
blob_size : length one_file.0.blob ≡ 104
unfolding program
blob_size = refl
