-- ===== src/Permutation/Expand.antt =====
-- `PermutationExpander::expand`, `mergePermutationDefines` (src/slangmake_util.cpp) and
-- `findDuplicateAxisNames` (src/slangmake_batch.cpp).
pub mod Product
pub mod Merge
pub mod Duplicates
use mathlib.Core.List.{foldl, flat_map}
use slangmake.Prelude.{
  ℕ, Bytes, bytes_eq, bytes_lt, bytes_lt_asymm, bytes_lt_cotrans, List, [], ◌∷◌, ◌++◌, map, Bool,
  false, is_empty, ltb, if◌then◌else◌, ◌||◌, ◌+◌,
}
use slangmake.Prelude.Sort.{Order, sort}
use slangmake.Permutation.{Kind, PermutationDefine, Permutation, empty, by_name}

-- The body of the innermost loop: `base` with one more binding.
pub bind : PermutationDefine → Permutation → Bytes → Permutation
bind d base v = elim d.kind [
  | Kind.type ↦ record base {
    type_args = base.type_args ++ (record { name = d.name; value = v } ∷ []);
  }
  | Kind.constant ↦ record base {
    constants = base.constants ++ (record { name = d.name; value = v } ∷ []);
  }
]

-- One round of the loop over the directives; one with no value is skipped.
pub expand_define : List Permutation → PermutationDefine → List Permutation
unfolding bind flat_map
expand_define out d =
    if is_empty d.values then out else flat_map (λ base. map (bind d base) d.values) out

-- The final loop sorts both lists of every permutation.
pub canonical : Permutation → Permutation
unfolding sort
canonical p = record { constants = sort by_name p.constants; type_args = sort by_name p.type_args }

unfoldable pub expand : List PermutationDefine → List Permutation
unfolding expand_define canonical
expand defs = map canonical (foldl expand_define (empty ∷ []) defs)

-- `overridden.contains(name)`.
pub defines_name : List PermutationDefine → Bytes → Bool
defines_name [] n = false
defines_name (d ∷ ds) n = bytes_eq d.name n || defines_name ds n

-- The loop over the file's directives.
keep_file : List PermutationDefine → List PermutationDefine → List PermutationDefine
unfolding defines_name
keep_file cli [] = []
keep_file cli (d ∷ ds) =
    let rest = keep_file cli ds in if defines_name cli d.name then rest else d ∷ rest

unfoldable pub merge : List PermutationDefine → List PermutationDefine → List PermutationDefine
unfolding keep_file
merge file_defines cli_override = keep_file cli_override file_defines ++ cli_override

-- `++counts[name]`.
unfoldable pub increment : Bytes → List (Bytes × ℕ) → List (Bytes × ℕ)
increment n [] = (n, 1) ∷ []
increment n ((m, c) ∷ counts) =
    if bytes_eq m n then (m, c + 1) ∷ counts else (m, c) ∷ increment n counts

unfoldable pub count_names : List Bytes → List (Bytes × ℕ) → List (Bytes × ℕ)
unfolding increment
count_names [] counts = counts
count_names (n ∷ ns) counts = count_names ns (increment n counts)

unfoldable pub repeated : List (Bytes × ℕ) → List Bytes
repeated [] = []
repeated ((n, c) ∷ counts) = let rest = repeated counts in if ltb 1 c then n ∷ rest else rest

abbrev pub bytes_order : Order Bytes
bytes_order = record { less = bytes_lt; asymm = bytes_lt_asymm; cotrans = bytes_lt_cotrans }

-- The names that occur more than once, in order.
unfoldable pub find_duplicate_names : List Bytes → List Bytes
unfolding count_names repeated sort
find_duplicate_names names = sort bytes_order (repeated (count_names names []))
