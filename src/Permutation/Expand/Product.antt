-- ===== src/Permutation/Expand/Product.antt =====
-- `expand` is the Cartesian product of the axes, the first axis varying slowest.
use mathlib.Core.List.{foldl, flat_map}
use mathlib.Core.Path.{fun_ext}
use slangmake.Prelude.{
  ℕ, ◌*◌, ◌≡◌, refl, sym, ap, ◌∙◌, inl, inr, Bytes, List, [], ◌∷◌, map, is_empty, length,
  length-append, length-map, if◌then◌else◌, arith, Bool-cases, append-nil,
}
use slangmake.Prelude.FlatMap.{
  flat_map_single, map-flat_map, flat_map-map, map-map, flat_map-flat_map,
}
use slangmake.Permutation.{Permutation, PermutationDefine, empty}
use slangmake.Permutation.Expand.{bind, expand_define, canonical, expand}

-- The product of the value lists.
abbrev pub product : List (List Bytes) → List (List Bytes)
product [] = [] ∷ []
product (vs ∷ axes) = flat_map (λ v. map (◌∷◌ v) (product axes)) vs

-- The directives that contribute an axis.
abbrev pub axes : List PermutationDefine → List PermutationDefine
axes [] = []
axes (d ∷ ds) = if is_empty d.values then axes ds else d ∷ axes ds

abbrev pub value_lists : List PermutationDefine → List (List Bytes)
value_lists = map (λ d. d.values)

-- The permutation of one cell: a value for each axis.
abbrev pub build : Permutation → List PermutationDefine → List Bytes → Permutation
build p [] c = p
build p (d ∷ ds) [] = p
build p (d ∷ ds) (v ∷ c) = build (bind d p v) ds c

pub product_nat : List (List Bytes) → ℕ
product_nat [] = 1
product_nat (vs ∷ r) = length vs * product_nat r

-- what the loops make of one base permutation
abbrev cells_from : List PermutationDefine → Permutation → List Permutation
cells_from ds b = map (build b ds) (product (value_lists ds))

cells_from-cons :
    (d : PermutationDefine) (ds : List PermutationDefine) (b : Permutation)
    → cells_from (d ∷ ds) b ≡ flat_map (cells_from ds) (map (bind d b) d.values)
cells_from-cons d ds b = simp (map-flat_map, flat_map-map, map-map)

cells_from-expand_define :
    (d : PermutationDefine) (ds : List PermutationDefine) (out : List Permutation)
    → flat_map (cells_from (axes ds)) (expand_define out d)
      ≡ flat_map (cells_from (axes (d ∷ ds))) out
unfolding expand_define
cells_from-expand_define d ds out = elim (Bool-cases (is_empty d.values)) [
  | inl e ↦ rw e
  | inr e ↦ rw e (
      flat_map-flat_map (cells_from (axes ds)) (λ base. map (bind d base) d.values) out
      ∙ ap (λ f. flat_map f out) (fun_ext (λ b. sym (cells_from-cons d (axes ds) b))))
]

foldl-cells_from :
    (defs : List PermutationDefine) (out : List Permutation)
    → foldl expand_define out defs ≡ flat_map (cells_from (axes defs)) out
foldl-cells_from [] out = sym (flat_map_single out)
foldl-cells_from (d ∷ ds) out =
    foldl-cells_from ds (expand_define out d) ∙ cells_from-expand_define d ds out

-- The permutations of `expand`, in order: one for each cell of the product of the value lists of
-- the directives that have values, the first directive varying slowest, with sorted bindings.
pub expand-product :
    (defs : List PermutationDefine)
    → expand defs
      ≡ map (λ c. canonical (build empty (axes defs) c)) (product (value_lists (axes defs)))
unfolding expand
expand-product defs =
    rw (foldl-cells_from defs (empty ∷ []))
      (unfold flat_map in rw append-nil (map-map canonical (build empty (axes defs)) _))

length-cells :
    (vs : List Bytes) (p : List (List Bytes))
    → length (flat_map (λ v. map (◌∷◌ v) p) vs) ≡ length vs * length p
unfolding flat_map
length-cells [] p = omega arith
length-cells (v ∷ vs) p =
    rw (length-append (map (◌∷◌ v) p) (flat_map (λ v. map (◌∷◌ v) p) vs), length-map (◌∷◌ v) p)
      (omega (arith, length-cells vs p))

length-product : (ls : List (List Bytes)) → length (product ls) ≡ product_nat ls
unfolding product_nat
length-product [] = refl
length-product (vs ∷ ls) =
    length-cells vs (product ls) ∙ ap (λ n. length vs * n) (length-product ls)

-- The number of permutations is the product of the numbers of values, directives with none left
-- out; without directives there is one.
pub length-expand :
    (defs : List PermutationDefine) → length (expand defs) ≡ product_nat (value_lists (axes defs))
length-expand defs =
    rw (expand-product defs) (length-map _ _ ∙ length-product (value_lists (axes defs)))
