-- ===== src/Batch.antt =====
-- `BatchCompiler` (src/slangmake_batch.cpp): one shader file, all of its permutations, with the reuse
-- of entries of the previous blob. `Reuse` and `Deps` hold the loops of `compileFile`.
pub mod Reuse
pub mod Deps
pub mod Unchanged
pub mod Complete
pub mod Indices
pub mod Surroundings
pub mod Workers
pub mod Success
pub mod Directory
use slangmake.Prelude.{
  ℕ, ◌+◌, Bool, true, false, Bytes, List, [], ◌∷◌, ◌++◌, map, Option, none, some, ◌>>=◌, is_empty,
  codes, if◌then◌else◌,
}
use slangmake.Enums.{Codec}
use slangmake.Permutation.{Permutation, PermutationDefine, key}
use slangmake.Permutation.Expand.{expand, merge, find_duplicate_names}
use slangmake.Directives.{parse, source_has_no_reflection}
use slangmake.Hash.Options.{CompileOptions, hash_compile_options}
use slangmake.Blob.Codecs.{CodecLibraries}
use slangmake.Blob.Writer.Layout.{DepInfo}
use slangmake.Blob.Writer.{
  BlobWriter, new, add_entry, set_dependencies, set_options_hash, set_compression, finalize,
}
use Surroundings.{Environment, Result, Outcome, succeeded}
use Reuse.{previous_reader, outcome_of}
use Deps.{intern_entries}

-- `BatchCompiler::Input`.
pub record Input : Type 0 where
  pub file : Bytes
  pub options : CompileOptions
  pub cli_override : List PermutationDefine

-- The members that the setters fill; the number of jobs and the log switches change no result.
pub record Settings : Type 0 where
  pub incremental : Bool
  pub keep_going : Bool
  pub compression : Codec

-- `Output`, with the bytes that `writeToFile` got, if it was called.
pub record Output : Type 0 where
  pub compiled : List Permutation
  pub failures : List Bytes
  pub blob : Bytes
  pub written : Option Bytes

-- `Stats`.
pub record Stats : Type 0 where
  pub compiled : ℕ
  pub reused : ℕ

-- The names in the message, between `'` and `, `.
unfoldable pub quoted_names : List Bytes → Bytes
quoted_names [] = []
quoted_names (n ∷ []) = codes "'" ++ (n ++ codes "'")
quoted_names (n ∷ m ∷ ns) = codes "'" ++ (n ++ (codes "', " ++ quoted_names (m ∷ ns)))

unfoldable pub duplicate_message : List Bytes → Bytes
duplicate_message names =
    codes "duplicate permutation axis name(s): "
    ++ (quoted_names names
        ++ codes ". Each permutation axis name must be unique after CLI overrides are merged.")

-- The locals of the last loop.
pub record Assembly : Type 0 where
  pub writer : BlobWriter
  pub compiled : List Permutation
  pub failures : List Bytes
  pub stats : Stats

unfoldable pub count : Bool → Stats → Stats
count true s = record s { reused = s.reused + 1 }
count false s = record s { compiled = s.compiled + 1 }

unfoldable pub add_failure : Permutation → Result → Assembly → Assembly
add_failure perm r a = record a {
  failures = a.failures ++ ((key perm ++ (codes ": " ++ r.diagnostics)) ∷ []);
}

unfoldable pub add_success : Permutation → Outcome → List ℕ → Assembly → Assembly
add_success perm o dep_indices a = record {
  writer = add_entry perm o.result.code o.result.reflection dep_indices a.writer;
  compiled = a.compiled ++ (perm ∷ []);
  failures = a.failures;
  stats = count o.reused a.stats;
}

-- The loop; the flag tells that a failure ended it.
unfoldable pub assemble : Bool → List (Permutation × Outcome × List ℕ) → Assembly → Bool × Assembly
assemble keep_going [] a = (false, a)
assemble keep_going ((perm, o, dep_indices) ∷ rest) a = elim (succeeded o) [
  | true ↦ assemble keep_going rest (add_success perm o dep_indices a)
  | false ↦ elim keep_going [
    | true ↦ assemble keep_going rest (add_failure perm o.result a)
    | false ↦ (true, add_failure perm o.result a)
  ]
]

unfoldable pub zip_indices :
    List Permutation → List Outcome → List (List ℕ) → List (Permutation × Outcome × List ℕ)
zip_indices (p ∷ ps) (o ∷ os) (is ∷ iss) = (p, o, is) ∷ zip_indices ps os iss
zip_indices _ _ _ = []

-- The end of `compileFile`. A blob of a run that a failure ended is not written, and has no
-- dependencies.
unfoldable pub finish : CodecLibraries → List DepInfo → Bool × Assembly → Option (Output × Stats)
finish libs deps (true, a) = do
  blob ← finalize libs a.writer
  some (
    record { compiled = a.compiled; failures = a.failures; blob = blob; written = none },
    a.stats,
  )
finish libs deps (false, a) = do
  blob ← finalize libs (set_dependencies deps a.writer)
  some (
    record { compiled = a.compiled; failures = a.failures; blob = blob; written = some blob },
    a.stats,
  )

-- The parts of `compileFile` that see the permutations.
unfoldable pub compile_perms :
    CodecLibraries
    → Environment
    → Settings
    → Input
    → CompileOptions
    → List Permutation
    → Option Bytes
    → Option (Output × Stats)
compile_perms libs env s input opts perms old_blob =
    let hash = hash_compile_options opts in
    let prev = previous_reader libs s.incremental old_blob input.options.target hash in
    let outcomes = map (outcome_of env opts prev) perms in
    let (indices, deps) = intern_entries env outcomes [] in
    let writer = set_compression s.compression (set_options_hash hash (new input.options.target)) in
    finish libs deps (
      assemble s.keep_going (zip_indices perms outcomes indices) (record {
        writer = writer;
        compiled = [];
        failures = [];
        stats = record { compiled = 0; reused = 0 };
      }))

-- `old_blob` is the file at the output path, `source` the shader's text; a file that cannot be read
-- has no directives.
unfoldable pub merged_defines : Input → Option Bytes → List PermutationDefine
merged_defines input source = elim source [
  | none ↦ merge [] input.cli_override
  | some text ↦ merge (parse text) input.cli_override
]

unfoldable pub file_options : Input → Option Bytes → CompileOptions
file_options input source =
    let opts = record (input.options) { input_file = input.file } in
    elim source [
      | none ↦ opts
      | some text ↦
          if source_has_no_reflection text then record opts { emit_reflection = false } else opts
    ]

unfoldable pub compile_file :
    CodecLibraries → Environment → Settings → Input → Option Bytes → Option (Output × Stats)
compile_file libs env s input old_blob =
    let source = env.read input.file in
    let merged = merged_defines input source in
    let duplicates = find_duplicate_names (map (λ d. d.name) merged) in
    elim (is_empty duplicates) [
      | false ↦ some (
        record {
          compiled = [];
          failures = duplicate_message duplicates ∷ [];
          blob = [];
          written = none;
        },
        record { compiled = 0; reused = 0 },
      )
      | true ↦ compile_perms libs env s input (file_options input source) (expand merged) old_blob
    ]
