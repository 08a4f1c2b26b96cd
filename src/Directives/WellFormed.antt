-- ===== src/Directives/WellFormed.antt =====
-- What `parse` returns is well-formed.
use slangmake.Prelude.{
  ℕ, ◌≡◌, ◌≢◌, refl, ap, ◌∙◌, Bool, true, false, Bytes, List, [], ◌∷◌, ◌++◌, some, is_empty, All,
  All-append, Bool-cases, Option-cases, inl, inr, take, bind-some,
}
use slangmake.Permutation.{Kind, PermutationDefine}
use slangmake.Directives.Nesting.{Nesting, advance, flat, find_value_list_end}
use slangmake.Directives.Values.{
  is_space, trim_front, trim_cons, trim_end, trim, flush_token, separates, all_closed, values_from,
  parse_values,
}
use slangmake.Directives.{
  is_ident_start, is_ident_cont, span_ident, parse_name, parse_braced, parse_axis, parse_marker,
  parse_line, parse_lines, parse, skip_ws, strip_prefix, slashes, split_lines, strip_comments,
  allows_angle,
}

-- A value: not empty, with no white space around it.
pub record IsValue (v : Bytes) : Type 0 where
  pub full : v ≢ []
  pub trimmed : trim v ≡ v

trim_end-trim_cons : (c : ℕ) (r : Bytes) → trim_end r ≡ r → trim_end (trim_cons c r) ≡ trim_cons c r
unfolding trim_end trim_cons
trim_end-trim_cons c [] e = elim (Bool-cases (is_space c)) [
  | inl b ↦ rw b refl
  | inr b ↦ rw b (rw b refl)
]
trim_end-trim_cons c (d ∷ ds) e = ap (trim_cons c) e

trim_end_idem : (s : Bytes) → trim_end (trim_end s) ≡ trim_end s
unfolding trim_end
trim_end_idem [] = refl
trim_end_idem (c ∷ cs) = trim_end-trim_cons c (trim_end cs) (trim_end_idem cs)

trim_front-trim_cons :
    (c : ℕ) (r : Bytes) → is_space c ≡ false → trim_front (trim_cons c r) ≡ trim_cons c r
unfolding trim_front trim_cons
trim_front-trim_cons c [] b = rw b (rw (b, trim_front) refl)
trim_front-trim_cons c (d ∷ ds) b = rw (b, trim_front) refl

trim_front-trim_end : (s : Bytes) → trim_front (trim_end (trim_front s)) ≡ trim_end (trim_front s)
unfolding trim_front trim_end
trim_front-trim_end [] = refl
trim_front-trim_end (c ∷ cs) = elim (Bool-cases (is_space c)) [
  | inl b ↦ rw (b, trim_front) (trim_front-trim_end cs)
  | inr b ↦ rw (b, trim_front) (trim_front-trim_cons c (trim_end cs) b)
]

trim_idem : (s : Bytes) → trim (trim s) ≡ trim s
unfolding trim
trim_idem s = ap trim_end (trim_front-trim_end s) ∙ trim_end_idem (trim_front s)

flush_token-IsValue :
    (token : Bytes) (values : List Bytes)
    → All IsValue values
    → All IsValue (flush_token token values)
unfolding flush_token
flush_token-IsValue token values h = elim (Bool-cases (is_empty (trim token))) [
  | inl b ↦ rw b h
  | inr b ↦ rw b (
      All-append IsValue values (trim token ∷ []) h
        (record { full = not_empty (trim token) b; trimmed = trim_idem token }, tt))
]
  where
    not_empty : (t : Bytes) → is_empty t ≡ false → t ≢ []
    not_empty [] e = cc
    not_empty (c ∷ t) e = cc

pub values_from-IsValue :
    (allow_angle : Bool) (s : Bytes) (n : Nesting) (token : Bytes) (values out : List Bytes)
    → All IsValue values
    → values_from allow_angle s n token values ≡ some out
    → All IsValue out
unfolding values_from
values_from-IsValue allow_angle [] n token values out h e = elim (Bool-cases (all_closed n)) [
  | inl b ↦
      let same : flush_token token values ≡ out = cc (rw (b, values_from) at e) in
      rw (← same) (flush_token-IsValue token values h)
  | inr b ↦ cc (rw (b, values_from) at e)
]
values_from-IsValue allow_angle (ch ∷ s) n token values out h e =
    elim (Bool-cases (separates ch n)) [
      | inl b ↦
          values_from-IsValue allow_angle s n [] (flush_token token values) out
            (flush_token-IsValue token values h) (rw (b, values_from) at e)
      | inr b ↦ elim (Option-cases (advance allow_angle ch n)) [
        | inl a ↦ cc (rw (b, a, values_from) at e)
        | inr (m, a) ↦
            values_from-IsValue allow_angle s m (token ++ (ch ∷ [])) values out h
              (rw (b, a, values_from) at e)
      ]
    ]

-- A name: a letter or `_`, then letters, digits and `_`.
pub record IsIdentifier (name : Bytes) : Type 0 where
  pub first : ℕ
  pub others : Bytes
  pub splits : name ≡ first ∷ others
  pub starts : is_ident_start first ≡ true
  pub goes_on : All (λ (c : ℕ). is_ident_cont c ≡ true) others

-- A directive with an axis to it.
pub record IsDirective (d : PermutationDefine) : Type 0 where
  pub named : IsIdentifier d.name
  pub some_values : d.values ≢ []
  pub good_values : All IsValue d.values

span_ident-All : (s : Bytes) → All (λ (c : ℕ). is_ident_cont c ≡ true) (span_ident s).0
unfolding span_ident
span_ident-All [] = tt
span_ident-All (c ∷ cs) = elim (Bool-cases (is_ident_cont c)) [
  | inl b ↦ rw (b, span_ident) (b, span_ident-All cs)
  | inr b ↦ rw (b, span_ident) tt
]

ident_start-cont : (c : ℕ) → is_ident_start c ≡ true → is_ident_cont c ≡ true
unfolding is_ident_cont
ident_start-cont c h = rw h refl

parse_name-IsIdentifier :
    (s : Bytes) (named : Bytes × Bytes) → parse_name s ≡ some named → IsIdentifier named.0
unfolding parse_name span_ident
parse_name-IsIdentifier [] named e = cc
parse_name-IsIdentifier (c ∷ cs) named e = elim (Bool-cases (is_ident_start c)) [
  | inl b ↦
      let shape : (c ∷ (span_ident cs).0, (span_ident cs).1) ≡ named =
        cc (rw (b, parse_name, ident_start-cont c b, span_ident) at e) in
      rw (← shape) (record {
        first = c;
        others = (span_ident cs).0;
        splits = refl;
        starts = b;
        goes_on = span_ident-All cs;
      })
  | inr b ↦ cc (rw (b, parse_name) at e)
]

parse_braced-IsValue :
    (allow_angle : Bool) (s : Bytes) (values : List Bytes)
    → parse_braced allow_angle s ≡ some values
    → (values ≢ []) × All IsValue values
unfolding parse_braced parse_values
parse_braced-IsValue allow_angle s values e =
    let (close, _, e1) = bind-some (find_value_list_end allow_angle s) _ values e in
    let (vs, found, e2) = bind-some (parse_values allow_angle (take close s)) _ values e1 in
    elim (Bool-cases (is_empty vs)) [
      | inl b ↦ cc (rw b at e2)
      | inr b ↦
          let same : vs ≡ values = cc (rw b at e2) in
          rw (← same) (
            (λ z. cc (rw z at b)),
            values_from-IsValue allow_angle (take close s) flat [] [] vs tt found,
          )
    ]

parse_axis-IsDirective :
    (kind : Kind) (name s : Bytes) (d : PermutationDefine)
    → IsIdentifier name
    → parse_axis kind name s ≡ some d
    → IsDirective d
unfolding parse_axis
parse_axis-IsDirective kind name s d n e =
    let (after_eq, _, e1) = bind-some (strip_prefix (b'=' ∷ []) (skip_ws s)) _ d e in
    let (inside, _, e2) = bind-some (strip_prefix (b'{' ∷ []) (skip_ws after_eq)) _ d e1 in
    let (values, found, e3) = bind-some (parse_braced (allows_angle kind) inside) _ d e2 in
    let (full, good) = parse_braced-IsValue (allows_angle kind) inside values found in
    let same : record { name = name; values = values; kind = kind } ≡ d = cc e3 in
    rw (← same) (record { named = n; some_values = full; good_values = good })

parse_line-IsDirective :
    (line : Bytes) (d : PermutationDefine) → parse_line line ≡ some d → IsDirective d
unfolding parse_line
parse_line-IsDirective line d e =
    let (comment, _, e1) = bind-some (strip_prefix slashes (skip_ws line)) _ d e in
    let (marked, _, e2) = bind-some (parse_marker (skip_ws comment)) _ d e1 in
    let (named, found, e3) = bind-some (parse_name (skip_ws marked.1)) _ d e2 in
    parse_axis-IsDirective marked.0 named.0 named.1 d
      (parse_name-IsIdentifier (skip_ws marked.1) named found) e3

parse_lines-IsDirective : (ls : List Bytes) → All IsDirective (parse_lines ls)
unfolding parse_lines
parse_lines-IsDirective [] = tt
parse_lines-IsDirective (l ∷ ls) = elim (Option-cases (parse_line l)) [
  | inl e ↦ rw (e, parse_lines) (parse_lines-IsDirective ls)
  | inr (d, e) ↦ rw (e, parse_lines) (parse_line-IsDirective l d e, parse_lines-IsDirective ls)
]

-- Whatever the source text is, every directive that `parse` returns is named by an identifier and
-- has at least one value, and each value is non-empty and has no white space around it.
pub parse-IsDirective : (source : Bytes) → All IsDirective (parse source)
unfolding parse
parse-IsDirective source = parse_lines-IsDirective (split_lines (strip_comments source))
