-- ===== src/Directives.antt =====
-- The magic comments of a shader: `PermutationParser::parse`, `sourceHasNoReflection` and their
-- helpers (src/slangmake_util.cpp). A `string_view` from an index on is the list of its bytes.
pub mod Nesting
pub mod Values
pub mod WellFormed
pub mod Print
pub mod RoundTrip
use mathlib.Core.Option
use slangmake.Prelude.{
  ℕ, ◌+◌, ◌-◌, Bool, true, false, ◌&&◌, ◌||◌, not, Bytes, codes, List, [], ◌∷◌, Option, none, some,
  length, leb, ◌==◌, take, drop, is_empty, ◌>>=◌,
}
use slangmake.Permutation.{Kind, PermutationDefine}
use Nesting.{find_value_list_end}
use Values.{parse_values}

unfoldable pub is_ident_start : ℕ → Bool
is_ident_start c = (leb b'a' c && leb c b'z') || ((leb b'A' c && leb c b'Z') || (c == b'_'))

unfoldable pub is_ident_cont : ℕ → Bool
is_ident_cont c = is_ident_start c || (leb b'0' c && leb c b'9')

-- Block comments become a blank. `true` is the inside of a comment; one that never ends leaves the
-- last byte of the text.
unfoldable pub strip_from : Bool → Bytes → Bytes
strip_from inside [] = []
strip_from inside (a ∷ []) = a ∷ []
strip_from false (a ∷ b ∷ rest) = elim ((a == b'/') && (b == b'*')) [
  | true ↦ b' ' ∷ strip_from true rest
  | false ↦ a ∷ strip_from false (b ∷ rest)
]
strip_from true (a ∷ b ∷ rest) = elim ((a == b'*') && (b == b'/')) [
  | true ↦ strip_from false rest
  | false ↦ strip_from true (b ∷ rest)
]

unfoldable pub strip_comments : Bytes → Bytes
strip_comments = strip_from false

-- The scan for `\n`; there is no line behind a final one.
abbrev pub cons_line : ℕ → List Bytes → List Bytes
cons_line c [] = (c ∷ []) ∷ []
cons_line c (l ∷ ls) = (c ∷ l) ∷ ls

unfoldable pub split_lines : Bytes → List Bytes
split_lines [] = []
split_lines (c ∷ cs) = elim (c == 10) [
  | true ↦ [] ∷ split_lines cs
  | false ↦ cons_line c (split_lines cs)
]

-- `skipWs`.
unfoldable pub skip_ws : Bytes → Bytes
skip_ws [] = []
skip_ws (c ∷ cs) = elim ((c == b' ') || (c == 9)) [ true ↦ skip_ws cs | false ↦ c ∷ cs ]

-- What follows a marker, if the line has it here.
unfoldable pub strip_prefix : Bytes → Bytes → Option Bytes
strip_prefix [] s = some s
strip_prefix (m ∷ ms) [] = none
strip_prefix (m ∷ ms) (c ∷ cs) = elim (m == c) [ true ↦ strip_prefix ms cs | false ↦ none ]

abbrev pub slashes : Bytes
slashes = codes "//"

abbrev pub marker_constant : Bytes
marker_constant = codes "[permutation]"

abbrev pub marker_type : Bytes
marker_type = codes "[permutation type]"

abbrev pub marker_no_reflection : Bytes
marker_no_reflection = codes "[noreflection]"

-- The marker behind `//`: which kind of axis, and the rest of the line.
unfoldable pub parse_marker : Bytes → Option (Kind × Bytes)
parse_marker s = elim (strip_prefix marker_type s) [
  | some rest ↦ some (Kind.type, rest)
  | none ↦ elim (strip_prefix marker_constant s) [
    | some rest ↦ some (Kind.constant, rest)
    | none ↦ none
  ]
]

-- The loop over `isIdentCont`: the name's bytes and the rest.
unfoldable pub span_ident : Bytes → Bytes × Bytes
span_ident [] = ([], [])
span_ident (c ∷ cs) = elim (is_ident_cont c) [
  | true ↦ let (name, rest) = span_ident cs in (c ∷ name, rest)
  | false ↦ ([], c ∷ cs)
]

unfoldable pub parse_name : Bytes → Option (Bytes × Bytes)
parse_name [] = none
parse_name (c ∷ cs) = elim (is_ident_start c) [ true ↦ some (span_ident (c ∷ cs)) | false ↦ none ]

-- The values up to the closing brace; none at all is no directive.
unfoldable pub parse_braced : Bool → Bytes → Option (List Bytes)
parse_braced allow_angle s = do
  close ← find_value_list_end allow_angle s
  values ← parse_values allow_angle (take close s)
  elim (is_empty values) [ true ↦ none | false ↦ some values ]

abbrev pub allows_angle : Kind → Bool
allows_angle Kind.type = true
allows_angle Kind.constant = false

-- What follows the name.
unfoldable pub parse_axis : Kind → Bytes → Bytes → Option PermutationDefine
parse_axis kind name s = do
  after_eq ← strip_prefix (b'=' ∷ []) (skip_ws s)
  inside ← strip_prefix (b'{' ∷ []) (skip_ws after_eq)
  values ← parse_braced (allows_angle kind) inside
  some (record { name = name; values = values; kind = kind })

-- One round of the loop over the lines; `none` is a `continue`.
unfoldable pub parse_line : Bytes → Option PermutationDefine
parse_line line = do
  comment ← strip_prefix slashes (skip_ws line)
  marked ← parse_marker (skip_ws comment)
  named ← parse_name (skip_ws marked.1)
  parse_axis marked.0 named.0 named.1

unfoldable pub parse_lines : List Bytes → List PermutationDefine
parse_lines [] = []
parse_lines (l ∷ ls) = elim (parse_line l) [ some d ↦ d ∷ parse_lines ls | none ↦ parse_lines ls ]

-- `PermutationParser::parse`.
unfoldable pub parse : Bytes → List PermutationDefine
parse source = parse_lines (split_lines (strip_comments source))

-- `// [noreflection]`, whatever follows it.
unfoldable pub line_disables : Bytes → Bool
line_disables line = elim (strip_prefix slashes (skip_ws line)) [
  | none ↦ false
  | some comment ↦ elim (strip_prefix marker_no_reflection (skip_ws comment)) [
    | none ↦ false
    | some rest ↦ true
  ]
]

unfoldable pub any_disables : List Bytes → Bool
any_disables [] = false
any_disables (l ∷ ls) = elim (line_disables l) [ true ↦ true | false ↦ any_disables ls ]

-- `sourceHasNoReflection`.
unfoldable pub source_has_no_reflection : Bytes → Bool
source_has_no_reflection source = any_disables (split_lines (strip_comments source))
