-- ===== src/Directives/RoundTrip.antt =====
-- Directives printed one to a line are parsed back.
use slangmake.Prelude.{
  ℕ, ◌≡◌, refl, ap, ◌∙◌, sym, Bool, true, false, not, ◌&&◌, ◌||◌, Bytes, codes, List, [], ◌∷◌, ◌++◌,
  some, ◌==◌, All, arith,
}
use slangmake.Permutation.{Kind, PermutationDefine}
use slangmake.Directives.{
  is_ident_start, is_ident_cont, span_ident, parse_name, parse_axis, parse_marker, parse_line,
  parse_lines, parse, skip_ws, strip_prefix, split_lines, strip_comments, strip_from, allows_angle,
  marker_constant, marker_type,
}
use slangmake.Directives.WellFormed.{IsValue, IsIdentifier, IsDirective}
use slangmake.Directives.Print.{
  is_text, AllBytes, IsPlain, print_values, marker_of, print_line, print, is_inner, AllBytes-append,
  AllBytes-weaken, print_values-inner, parse_braced-print_values,
}

ident_stops : is_ident_cont b'=' ≡ false
unfolding is_ident_cont is_ident_start
ident_stops = refl

span_ident-append :
    (name s : Bytes)
    → AllBytes is_ident_cont name
    → span_ident (name ++ (b'=' ∷ s)) ≡ (name, b'=' ∷ s)
unfolding span_ident
span_ident-append [] s h = rw (ident_stops, span_ident) refl
span_ident-append (c ∷ name) s h = rw (h.0, span_ident) (rw (span_ident-append name s h.1) refl)

skip_ws-name : (c : ℕ) (s : Bytes) → is_ident_start c ≡ true → skip_ws (c ∷ s) ≡ c ∷ s
unfolding skip_ws is_ident_start
skip_ws-name c s h =
    let b : ((c == b' ') || (c == 9)) ≡ false = ground arith in rw (b, skip_ws) refl

start-cont : (c : ℕ) → is_ident_start c ≡ true → is_ident_cont c ≡ true
unfolding is_ident_cont
start-cont c h = rw h refl

parse_name-append :
    (c : ℕ) (others s : Bytes)
    → is_ident_start c ≡ true
    → AllBytes is_ident_cont others
    → parse_name ((c ∷ others) ++ (b'=' ∷ s)) ≡ some (c ∷ others, b'=' ∷ s)
unfolding parse_name
parse_name-append c others s h k =
    rw (h, parse_name) (ap some (span_ident-append (c ∷ others) s (start-cont c h, k)))

-- What can be printed: a directive whose values are plain.
pub record IsPrintable (d : PermutationDefine) : Type 0 where
  pub directive : IsDirective d
  pub plain : All IsPlain d.values

parse_axis-print :
    (kind : Kind) (name v : Bytes) (vs : List Bytes)
    → All IsValue (v ∷ vs)
    → All IsPlain (v ∷ vs)
    → parse_axis kind name (b'=' ∷ b'{' ∷ print_values (v ∷ vs) ++ (b'}' ∷ []))
      ≡ some record { name = name; values = v ∷ vs; kind = kind }
unfolding parse_axis skip_ws strip_prefix
parse_axis-print kind name v vs h p =
    rw (parse_braced-print_values (allows_angle kind) v vs [] h p) refl

-- The line up to the name, for the name in parts.
abbrev line_of : Kind → ℕ → Bytes → List Bytes → Bytes
line_of kind c others vs =
    codes "// "
    ++ (marker_of kind ++ (b' ' ∷ (c ∷ others) ++ (b'=' ∷ b'{' ∷ print_values vs ++ (b'}' ∷ []))))

parse_marker-print : (kind : Kind) (s : Bytes) → parse_marker (marker_of kind ++ s) ≡ some (kind, s)
unfolding parse_marker strip_prefix
parse_marker-print Kind.constant s = refl
parse_marker-print Kind.type s = refl

skip_ws-marker : (kind : Kind) (s : Bytes) → skip_ws (marker_of kind ++ s) ≡ marker_of kind ++ s
unfolding skip_ws
skip_ws-marker Kind.constant s = refl
skip_ws-marker Kind.type s = refl

parse_line-print :
    (kind : Kind) (c : ℕ) (others v : Bytes) (vs : List Bytes)
    → is_ident_start c ≡ true
    → AllBytes is_ident_cont others
    → All IsValue (v ∷ vs)
    → All IsPlain (v ∷ vs)
    → parse_line (line_of kind c others (v ∷ vs))
      ≡ some record { name = c ∷ others; values = v ∷ vs; kind = kind }
unfolding parse_line skip_ws strip_prefix
parse_line-print kind c others v vs i k h p =
    let behind : Bytes = b'=' ∷ b'{' ∷ print_values (v ∷ vs) ++ (b'}' ∷ []) in
    rw
      (
        skip_ws-marker kind (b' ' ∷ (c ∷ others) ++ behind),
        parse_marker-print kind (b' ' ∷ (c ∷ others) ++ behind),
        skip_ws-name c (others ++ behind) i,
        parse_name-append c others (b'{' ∷ print_values (v ∷ vs) ++ (b'}' ∷ [])) i k,
      )
      (parse_axis-print kind (c ∷ others) v vs h p)

all_of : (ℕ → Bool) → Bytes → Bool
all_of p [] = true
all_of p (c ∷ s) = p c && all_of p s

AllBytes-test : (p : ℕ → Bool) (s : Bytes) → all_of p s ≡ true → AllBytes p s
unfolding all_of
AllBytes-test p [] h = tt
AllBytes-test p (c ∷ s) h = (ground (arith, h), AllBytes-test p s (ground (arith, h)))

-- The text of a line has no `*` and no line feed.
marker-text : (kind : Kind) → AllBytes is_text (marker_of kind)
unfolding all_of
marker-text Kind.constant = AllBytes-test is_text marker_constant refl
marker-text Kind.type = AllBytes-test is_text marker_type refl

ident-text : (c : ℕ) → is_ident_cont c ≡ true → is_text c ≡ true
unfolding is_ident_cont is_ident_start
ident-text c h = ground arith

name-text : (name : Bytes) → IsIdentifier name → AllBytes is_text name
name-text name n = rw (n.splits) (
  ident-text n.first (start-cont n.first n.starts),
  AllBytes-weaken is_ident_cont is_text n.others ident-text n.goes_on,
)

print_line-text : (d : PermutationDefine) → IsPrintable d → AllBytes is_text (print_line d)
print_line-text d ok =
    let values : AllBytes is_text (print_values d.values) =
      AllBytes-weaken is_inner is_text (print_values d.values) (λ c e. ground arith)
        (print_values-inner d.values ok.plain) in
    let behind = b'=' ∷ b'{' ∷ print_values d.values ++ (b'}' ∷ []) in
    AllBytes-append is_text (codes "// ") (marker_of d.kind ++ (b' ' ∷ d.name ++ behind))
      (refl, (refl, (refl, tt)))
      (AllBytes-append is_text (marker_of d.kind) (b' ' ∷ d.name ++ behind) (marker-text d.kind) (
        refl,
        AllBytes-append is_text d.name behind (name-text d.name ok.directive.named) (
          refl,
          (refl, AllBytes-append is_text (print_values d.values) (b'}' ∷ []) values (refl, tt)),
        ),
      ))

parse_line-print_line : (d : PermutationDefine) → IsPrintable d → parse_line (print_line d) ≡ some d
parse_line-print_line d ok = go d.values refl
  where
    go : (vs : List Bytes) → d.values ≡ vs → parse_line (print_line d) ≡ some d
    go [] e = absurd (ok.directive.some_values e)
    go (v ∷ vs) e =
        let n = ok.directive.named in
        let shape : d ≡ record { name = n.first ∷ n.others; values = v ∷ vs; kind = d.kind } =
          λ i. record { name = n.splits i; values = e i; kind = d.kind } in
        ap (λ x. parse_line (print_line x)) shape
        ∙ parse_line-print d.kind n.first n.others v vs n.starts n.goes_on
            (rw e at ok.directive.good_values) (rw e at ok.plain)
        ∙ ap some (sym shape)

strip_from-no_star : (s : Bytes) → AllBytes (λ c. not (c == b'*')) s → strip_from false s ≡ s
unfolding strip_from
strip_from-no_star [] h = refl
strip_from-no_star (a ∷ []) h = refl
strip_from-no_star (a ∷ b ∷ s) h =
    let e : ((a == b'/') && (b == b'*')) ≡ false = ground (arith, h.1.0) in
    rw (e, strip_from) (ap (◌∷◌ a) (strip_from-no_star (b ∷ s) h.1))

split_lines-line :
    (l rest : Bytes) → AllBytes is_text l → split_lines (l ++ (10 ∷ rest)) ≡ l ∷ split_lines rest
unfolding split_lines
split_lines-line [] rest h = refl
split_lines-line (c ∷ l) rest h =
    let e : (c == 10) ≡ false = ground (arith, h.0) in
    rw (e, split_lines) (rw (split_lines-line l rest h.1) refl)

print-no_star :
    (ds : List PermutationDefine) → All IsPrintable ds → AllBytes (λ c. not (c == b'*')) (print ds)
print-no_star [] h = tt
print-no_star (d ∷ ds) h =
    AllBytes-append (λ c. not (c == b'*')) (print_line d) (10 ∷ print ds)
      (AllBytes-weaken is_text (λ c. not (c == b'*')) (print_line d) (λ c e. ground arith)
        (print_line-text d h.0))
      (refl, print-no_star ds h.1)

parse_lines-print :
    (ds : List PermutationDefine) → All IsPrintable ds → parse_lines (split_lines (print ds)) ≡ ds
unfolding parse_lines split_lines
parse_lines-print [] h = refl
parse_lines-print (d ∷ ds) h =
    rw (split_lines-line (print_line d) (print ds) (print_line-text d h.0))
      (rw (parse_line-print_line d h.0, parse_lines) (ap (◌∷◌ d) (parse_lines-print ds h.1)))

-- Directives whose names are identifiers and whose values are non-empty, trimmed and free of
-- brackets, quotes, commas, stars and line feeds, printed one to a line, are parsed back as they are
-- and in order.
pub parse-print : (ds : List PermutationDefine) → All IsPrintable ds → parse (print ds) ≡ ds
unfolding parse strip_comments
parse-print ds h = rw (strip_from-no_star (print ds) (print-no_star ds h)) (parse_lines-print ds h)
