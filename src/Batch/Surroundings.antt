-- ===== src/Batch/Surroundings.antt =====
-- What a permutation's compilation gives, and what `compileFile` uses of its surroundings.
use slangmake.Prelude.{ℕ, Bool, Bytes, List, Option, none, some}
use slangmake.Permutation.{Permutation}
use slangmake.Hash.{fnv_offset, fnv1a_mix}
use slangmake.Hash.Options.{CompileOptions}

-- `Compiler::Result`.
pub record Result : Type 0 where
  pub success : Bool
  pub code : Bytes
  pub reflection : Bytes
  pub dependencies : List Bytes
  pub diagnostics : Bytes

-- The file system, which nobody else changes during the call, and the Slang compiler.
pub record Environment : Type 0 where
  pub read : Bytes → Option Bytes
  pub compile : CompileOptions → Permutation → Result

-- `hashFileContents`; the chunks of 4096 bytes are mixed one after the other.
unfoldable pub hash_file_contents : Environment → Bytes → ℕ
hash_file_contents env path = elim (env.read path) [
  | none ↦ 0
  | some text ↦ fnv1a_mix fnv_offset text
]

-- `results[i]`, `reused[i]` and `entryDepPaths[i]`.
pub record Outcome : Type 0 where
  pub reused : Bool
  pub result : Result
  pub dep_paths : List Bytes

unfoldable pub succeeded : Outcome → Bool
succeeded o = o.result.success
