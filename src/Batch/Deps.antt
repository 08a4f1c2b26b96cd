-- ===== src/Batch/Deps.antt =====
-- The list of dependencies of the new blob: `internDep` and the loop that calls it.
use slangmake.Prelude.{
  ℕ, suc, Bytes, List, [], ◌∷◌, ◌++◌, length, Option, none, some, bytes_eq, if◌then◌else◌, true,
  false,
}
use slangmake.Blob.Writer.Layout.{DepInfo, u32}
use slangmake.Batch.Surroundings.{Environment, Outcome, hash_file_contents}

-- `pathToIdx`, which holds the index of each path of `depVec`.
unfoldable pub index_of_path : Bytes → ℕ → List DepInfo → Option ℕ
index_of_path p i [] = none
index_of_path p i (d ∷ ds) = elim (bytes_eq d.path p) [
  | true ↦ some i
  | false ↦ index_of_path p (suc i) ds
]

-- `internDep`.
unfoldable pub intern_dep : Environment → Bytes → List DepInfo → ℕ × List DepInfo
intern_dep env p deps = elim (index_of_path p 0 deps) [
  | some i ↦ (i, deps)
  | none ↦ (
    u32 (length deps),
    deps ++ (record { path = p; content_hash = hash_file_contents env p } ∷ []),
  )
]

unfoldable pub intern_paths : Environment → List Bytes → List DepInfo → List ℕ × List DepInfo
intern_paths env [] deps = ([], deps)
intern_paths env (p ∷ ps) deps =
    let (i, deps1) = intern_dep env p deps in
    let (is, deps2) = intern_paths env ps deps1 in (i ∷ is, deps2)

-- A failed permutation has no indices.
unfoldable pub intern_entries :
    Environment → List Outcome → List DepInfo → List (List ℕ) × List DepInfo
intern_entries env [] deps = ([], deps)
intern_entries env (o ∷ os) deps =
    let (is, deps1) = intern_paths env (if o.result.success then o.dep_paths else []) deps in
    let (iss, deps2) = intern_entries env os deps1 in (is ∷ iss, deps2)
