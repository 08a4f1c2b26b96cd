-- ===== src/Directives/Values.antt =====
-- `trim` and `detail::parsePermutationValueList` (src/slangmake_util.cpp).
use slangmake.Prelude.{
  ℕ, Bool, true, false, ◌&&◌, ◌||◌, not, Bytes, List, [], ◌∷◌, ◌++◌, Option, none, some, ◌==◌,
  is_empty, if◌then◌else◌,
}
use slangmake.Directives.Nesting.{Nesting, flat, advance, in_quote, no_brackets}

-- Blank, tab, carriage return and line feed.
unfoldable pub is_space : ℕ → Bool
is_space c = (c == b' ') || ((c == 9) || ((c == 13) || (c == 10)))

-- The two loops of `trim`: its front, and its end.
unfoldable pub trim_front : Bytes → Bytes
trim_front [] = []
trim_front (c ∷ cs) = elim (is_space c) [ true ↦ trim_front cs | false ↦ c ∷ cs ]

unfoldable pub trim_cons : ℕ → Bytes → Bytes
trim_cons c [] = if is_space c then [] else c ∷ []
trim_cons c (d ∷ ds) = c ∷ d ∷ ds

unfoldable pub trim_end : Bytes → Bytes
trim_end [] = []
trim_end (c ∷ cs) = trim_cons c (trim_end cs)

unfoldable pub trim : Bytes → Bytes
trim s = trim_end (trim_front s)

-- `flushToken`.
unfoldable pub flush_token : Bytes → List Bytes → List Bytes
flush_token token values = let t = trim token in if is_empty t then values else values ++ (t ∷ [])

-- A comma outside of brackets and literals.
unfoldable pub separates : ℕ → Nesting → Bool
separates ch n = not (in_quote n) && ((ch == b',') && (no_brackets n && (n.brace == 0)))

-- The test behind the loop.
unfoldable pub all_closed : Nesting → Bool
all_closed n = not (in_quote n) && (no_brackets n && (n.brace == 0))

-- The loop, with the bytes of the token since `tokenStart` and the values so far.
unfoldable pub values_from : Bool → Bytes → Nesting → Bytes → List Bytes → Option (List Bytes)
values_from allow_angle [] n token values =
    if all_closed n then some (flush_token token values) else none
values_from allow_angle (ch ∷ s) n token values = elim (separates ch n) [
  | true ↦ values_from allow_angle s n [] (flush_token token values)
  | false ↦ elim (advance allow_angle ch n) [
    | none ↦ none
    | some m ↦ values_from allow_angle s m (token ++ (ch ∷ [])) values
  ]
]

unfoldable pub parse_values : Bool → Bytes → Option (List Bytes)
parse_values allow_angle inside = values_from allow_angle inside flat [] []
