-- ===== src/Batch/Reuse.antt =====
-- The reuse of entries of the previous blob.
use slangmake.Prelude.{
  ℕ, zero, suc, Bool, true, false, ◌&&◌, Bytes, List, [], ◌∷◌, get_or, length, Option, none, some,
  bytes_eq, ltb, ◌==◌, if◌then◌else◌,
}
use slangmake.Enums.{Target, target_code}
use slangmake.Permutation.{Permutation, key}
use slangmake.Hash.Options.{CompileOptions}
use slangmake.Blob.Codecs.{CodecLibraries}
use slangmake.Blob.Reader.{
  BlobReader, Entry, Dep, rebind, valid, target, options_hash, entry_count, at, dependencies,
}
use slangmake.Batch.Surroundings.{Environment, Result, Outcome, hash_file_contents}

-- A previous blob counts if it is one, and for the same target and options.
unfoldable pub previous_reader :
    CodecLibraries → Bool → Option Bytes → Target → ℕ → Option BlobReader
previous_reader libs false old_blob t hash = none
previous_reader libs true none t hash = none
previous_reader libs true (some bytes) t hash =
    let r = rebind libs bytes in
    if valid r && ((target_code (target r) == target_code t) && (options_hash r == hash))
    then some r
    else none

-- `reuseKeyToIdx`; `emplace` keeps the first index of a key.
unfoldable pub index_of_key : BlobReader → Bytes → ℕ → ℕ → Option ℕ
index_of_key r k zero i = none
index_of_key r k (suc n) i = elim (bytes_eq (at r i).key k) [
  | true ↦ some i
  | false ↦ index_of_key r k n (suc i)
]

abbrev pub no_dep : Dep
no_dep = record { path = []; content_hash = 0 }

-- The loop over an entry's dependencies: each is listed, and its file hashes as it did.
unfoldable pub deps_ok : Environment → List Dep → List ℕ → Bool
deps_ok env deps [] = true
deps_ok env deps (i ∷ is) = elim (ltb i (length deps)) [
  | false ↦ false
  | true ↦
      elim (hash_file_contents env (get_or deps i no_dep).path
        == (get_or deps i no_dep).content_hash) [ true ↦ deps_ok env deps is | false ↦ false ]
]

-- The paths carried over from the previous blob.
unfoldable pub dep_paths_of : List Dep → List ℕ → List Bytes
dep_paths_of deps [] = []
dep_paths_of deps (i ∷ is) =
    let rest = dep_paths_of deps is in
    if ltb i (length deps) then (get_or deps i no_dep).path ∷ rest else rest

-- The previous entry under the permutation's key, if it can be reused.
unfoldable pub reusable : Environment → BlobReader → Permutation → Option Entry
reusable env r p = elim (index_of_key r (key p) (entry_count r) 0) [
  | none ↦ none
  | some i ↦ let e = at r i in if deps_ok env (dependencies r) e.dep_indices then some e else none
]

unfoldable pub reused_outcome : BlobReader → Entry → Outcome
reused_outcome r e = record {
  reused = true;
  result = record {
    success = true;
    code = e.code;
    reflection = e.reflection;
    dependencies = [];
    diagnostics = [];
  };
  dep_paths = dep_paths_of (dependencies r) e.dep_indices;
}

unfoldable pub compiled_outcome : Result → Outcome
compiled_outcome res = record {
  reused = false;
  result = res;
  dep_paths = if res.success then res.dependencies else [];
}

-- One round of the loop over the permutations: reuse, or else compile.
unfoldable pub outcome_of : Environment → CompileOptions → Option BlobReader → Permutation → Outcome
outcome_of env opts none p = compiled_outcome (env.compile opts p)
outcome_of env opts (some r) p = elim (reusable env r p) [
  | some e ↦ reused_outcome r e
  | none ↦ compiled_outcome (env.compile opts p)
]
