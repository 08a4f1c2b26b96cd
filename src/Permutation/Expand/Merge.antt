-- ===== src/Permutation/Expand/Merge.antt =====
-- Which directives `mergePermutationDefines` keeps.
use slangmake.Prelude.{
  ◌≡◌, refl, ap, ◌∙◌, false, Bytes, bytes_eq, List, [], ◌∷◌, ◌++◌, if◌then◌else◌, Bool-cases, inl,
  inr, bytes_eq_iff, append-nil,
}
use slangmake.Permutation.{PermutationDefine}
use slangmake.Permutation.Expand.{defines_name, keep_file, merge}

-- The directives of one name, in order.
abbrev pub named : Bytes → List PermutationDefine → List PermutationDefine
named n [] = []
named n (d ∷ ds) = if bytes_eq d.name n then d ∷ named n ds else named n ds

named-append :
    (n : Bytes) (xs ys : List PermutationDefine) → named n (xs ++ ys) ≡ named n xs ++ named n ys
named-append n [] ys = refl
named-append n (d ∷ xs) ys = elim (Bool-cases (bytes_eq d.name n)) [
  | inl b ↦ rw b (ap (◌∷◌ d) (named-append n xs ys))
  | inr b ↦ rw b (named-append n xs ys)
]

named-undefined :
    (n : Bytes) (ds : List PermutationDefine) → defines_name ds n ≡ false → named n ds ≡ []
unfolding defines_name
named-undefined n [] h = refl
named-undefined n (d ∷ ds) h = elim (Bool-cases (bytes_eq d.name n)) [
  | inl b ↦ cc (rw (b, defines_name) at h)
  | inr b ↦ rw b (named-undefined n ds (rw (b, defines_name) at h))
]

named-keep_file :
    (n : Bytes) (cli ds : List PermutationDefine)
    → named n (keep_file cli ds) ≡ (if defines_name cli n then [] else named n ds)
unfolding keep_file
named-keep_file n cli [] = elim (Bool-cases (defines_name cli n)) [
  | inl b ↦ rw b refl
  | inr b ↦ rw b refl
]
named-keep_file n cli (d ∷ ds) = elim (Bool-cases (bytes_eq d.name n)) [
  | inl e ↦
      let same : defines_name cli d.name ≡ defines_name cli n =
        ap (defines_name cli) ((bytes_eq_iff d.name n).0 e) in
      elim (Bool-cases (defines_name cli n)) [
        | inl b ↦ rw (same, b) (named-keep_file n cli ds ∙ rw b refl)
        | inr b ↦ rw (same, b, e) (ap (◌∷◌ d) (named-keep_file n cli ds ∙ rw b refl))
      ]
  | inr e ↦ elim (Bool-cases (defines_name cli d.name)) [
    | inl b ↦ rw (b, e) (named-keep_file n cli ds)
    | inr b ↦ rw (b, e) (named-keep_file n cli ds)
  ]
]

-- For every name, the merged list has the command line's directives of that name, in order, if there
-- are any, and the file's otherwise.
pub merge-named :
    (n : Bytes) (file_defines cli_override : List PermutationDefine)
    → named n (merge file_defines cli_override)
      ≡ (if defines_name cli_override n then named n cli_override else named n file_defines)
unfolding merge
merge-named n fs cs =
    named-append n (keep_file cs fs) cs
    ∙ ap (λ l. l ++ named n cs) (named-keep_file n cs fs)
    ∙ elim (Bool-cases (defines_name cs n)) [
      | inl b ↦ rw b refl
      | inr b ↦ rw (b, named-undefined n cs b) (append-nil (named n fs))
    ]
