-- ===== src/Cli/Values.antt =====
-- What the arguments of the command line become.
use slangmake.Prelude.{
  ◌≡◌, ◌≢◌, refl, true, false, ◌||◌, Bool, Bytes, List, [], ◌∷◌, ◌++◌, ℕ, some, bind-some, is_empty,
  All, Bool-cases, inl, inr, ◌==◌,
}
use slangmake.Permutation.{PermutationDefine, Kind}
use slangmake.Directives.Nesting.{flat}
use slangmake.Directives.Values.{parse_values}
use slangmake.Directives.WellFormed.{IsValue, values_from-IsValue}
use slangmake.Cli.{split_at, parse_define, trim_copy, inside_braces, parse_permutation}

split_at-append :
    (name value : Bytes) (sep : ℕ)
    → All (λ (c : ℕ). (c == sep) ≡ false) name
    → (sep == sep) ≡ true
    → split_at sep (name ++ (sep ∷ value)) ≡ some (name, value)
unfolding split_at
split_at-append [] value sep h e = rw (e, split_at) refl
split_at-append (c ∷ name) value sep h e =
    rw (h.0, split_at) (rw (split_at-append name value sep h.1 e) refl)

-- `NAME=VALUE` with a non-empty name without `=` becomes a define of that name and value, whatever
-- the value holds.
pub parse_define-name :
    (c : ℕ) (name value : Bytes)
    → All (λ (d : ℕ). (d == b'=') ≡ false) (c ∷ name)
    → parse_define ((c ∷ name) ++ (b'=' ∷ value)) ≡ some record { name = c ∷ name; value = value }
unfolding parse_define
parse_define-name c name value h =
    rw (split_at-append (c ∷ name) value b'=' h refl, parse_define) refl

-- A permutation argument that is accepted has the kind it was asked for, a non-empty name, and at
-- least one value, each of them non-empty and without white space around it.
pub parse_permutation-IsValue :
    (allow_angle : Bool) (kind : Kind) (s : Bytes) (d : PermutationDefine)
    → parse_permutation allow_angle kind s ≡ some d
    → (d.kind ≡ kind) × ((d.name ≢ []) × ((d.values ≢ []) × All IsValue d.values))
unfolding parse_permutation parse_values
parse_permutation-IsValue allow_angle kind s d e =
    let (parts, _, e1) = bind-some (split_at b'=' s) _ d e in
    let (inside, _, e2) = bind-some (inside_braces (trim_copy parts.1)) _ d e1 in
    let (values, found, e3) = bind-some (parse_values allow_angle inside) _ d e2 in
    elim (Bool-cases (is_empty (trim_copy parts.0) || is_empty values)) [
      | inl b ↦ cc (rw b at e3)
      | inr b ↦
          let same : record { name = trim_copy parts.0; values = values; kind = kind } ≡ d =
            cc (rw b at e3) in
          let (f, g) = both (trim_copy parts.0) values b in
          rw (← same)
            (refl, (f, (g, values_from-IsValue allow_angle inside flat [] [] values tt found)))
    ]
  where
    both :
        (n : Bytes) (vs : List Bytes) → (is_empty n || is_empty vs) ≡ false → (n ≢ []) × (vs ≢ [])
    both [] vs b = cc
    both (c ∷ n) [] b = cc
    both (c ∷ n) (v ∷ vs) b = ((λ e. cc), (λ e. cc))
