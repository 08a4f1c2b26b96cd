-- ===== src/Batch/Directory.antt =====
-- `BatchCompiler::compileDirectory` (src/slangmake_batch.cpp) and the exit code of `main`
-- (src/main.cpp). The files are a function from paths to contents; the iterator gives the entries of
-- the tree, among which the blobs that the run writes make no difference.
pub mod Written
use slangmake.Prelude.{
  ℕ, Bool, true, false, ◌&&◌, Bytes, bytes_eq, codes, List, [], ◌∷◌, Option, none, some, ◌>>=◌,
  is_empty, if◌then◌else◌,
}
use slangmake.Permutation.{Permutation, PermutationDefine}
use slangmake.Hash.Options.{CompileOptions}
use slangmake.Blob.Codecs.{CodecLibraries}
use slangmake.Batch.Surroundings.{Result}
use slangmake.Batch.{Settings, Output, compile_file}

abbrev pub Files : Type 0
Files = Bytes → Option Bytes

-- A write of the content, where there is one.
unfoldable pub store : Bytes → Option Bytes → Files → Files
store p none files = files
store p (some content) files = λ q. if bytes_eq p q then some content else files q

pub record DirEntry : Type 0 where
  pub path : Bytes
  pub is_regular : Bool

-- What does not change from file to file. `extension` and `out_path` are of std::filesystem: the
-- second is `outDir / relative(path, root)` with the extension `.bin`.
pub record Directory : Type 0 where
  pub libs : CodecLibraries
  pub compile : CompileOptions → Permutation → Result
  pub settings : Settings
  pub base : CompileOptions
  pub cli_override : List PermutationDefine
  pub extension : Bytes → Bytes
  pub out_path : Bytes → Bytes

unfoldable pub is_shader : Directory → DirEntry → Bool
is_shader d e = e.is_regular && bytes_eq (d.extension e.path) (codes ".slang")

unfoldable pub compile_shader : Directory → Bytes → Files → Option (Output × Files)
compile_shader d path files =
    let out = d.out_path path in
    compile_file d.libs (record { read = files; compile = d.compile }) d.settings
      (record { file = path; options = d.base; cli_override = d.cli_override }) (files out)
    >>= λ r. some (r.0, store out r.0.written files)

unfoldable pub compile_directory : Directory → List DirEntry → Files → Option (List Output × Files)
compile_directory d [] files = some ([], files)
compile_directory d (e ∷ es) files = elim (is_shader d e) [
  | false ↦ compile_directory d es files
  | true ↦ compile_shader d e.path files >>= λ r.
      compile_directory d es r.1 >>= λ rest. some (r.0 ∷ rest.0, rest.1)
]

-- The exit code of `main` for the outputs of a directory or of one file.
unfoldable pub exit_code : List Output → ℕ
exit_code [] = 0
exit_code (o ∷ os) = let rest = exit_code os in if is_empty o.failures then rest else 1
