-- ===== src/Directives/Nesting.antt =====
-- Nesting of brackets and quotes in a value list: the loop of `findDirectiveValueListEnd`, whose body
-- `parsePermutationValueList` shares (src/slangmake_util.cpp). The depths are `int`s, which no line
-- is long enough to overflow.
use slangmake.Prelude.{
  ℕ, ◌+◌, ◌-◌, Bool, true, false, ◌&&◌, ◌||◌, not, Bytes, [], ◌∷◌, Option, none, some, ltb, ◌==◌,
  if◌then◌else◌,
}

-- `quote` is 0 outside of a literal.
pub record Nesting : Type 0 where
  pub angle : ℕ
  pub paren : ℕ
  pub bracket : ℕ
  pub brace : ℕ
  pub quote : ℕ
  pub escape : Bool

abbrev pub flat : Nesting
flat = record { angle = 0; paren = 0; bracket = 0; brace = 0; quote = 0; escape = false }

-- One byte inside of a literal: an escaped byte, a backslash (92), the closing quote, or another.
unfoldable pub advance_quoted : ℕ → Nesting → Nesting
advance_quoted ch n =
    if n.escape
    then record n { escape = false }
    else if ch == 92
    then record n { escape = true }
    else if ch == n.quote
    then record n { quote = 0 }
    else n

-- The `switch` of the loop; `none` is a bracket that closes nothing. Quotes are 34 and 39.
unfoldable pub advance_plain : Bool → ℕ → Nesting → Option Nesting
advance_plain allow_angle ch n =
    if (ch == 34) || (ch == 39)
    then some (record n { quote = ch })
    else if ch == b'<'
    then some (if allow_angle then record n { angle = n.angle + 1 } else n)
    else if ch == b'>'
    then some (if allow_angle && ltb 0 n.angle then record n { angle = n.angle - 1 } else n)
    else if ch == b'('
    then some (record n { paren = n.paren + 1 })
    else if ch == b')'
    then (if n.paren == 0 then none else some (record n { paren = n.paren - 1 }))
    else if ch == b'['
    then some (record n { bracket = n.bracket + 1 })
    else if ch == b']'
    then (if n.bracket == 0 then none else some (record n { bracket = n.bracket - 1 }))
    else if ch == b'{'
    then some (record n { brace = n.brace + 1 })
    else if ch == b'}'
    then (if n.brace == 0 then none else some (record n { brace = n.brace - 1 }))
    else some n

abbrev pub in_quote : Nesting → Bool
in_quote n = not (n.quote == 0)

unfoldable pub advance : Bool → ℕ → Nesting → Option Nesting
advance allow_angle ch n =
    if in_quote n then some (advance_quoted ch n) else advance_plain allow_angle ch n

abbrev pub no_brackets : Nesting → Bool
no_brackets n = (n.angle == 0) && ((n.paren == 0) && (n.bracket == 0))

-- `case '}'` at brace depth 0, outside of a literal.
unfoldable pub at_end : ℕ → Nesting → Bool
at_end ch n = not (in_quote n) && ((ch == b'}') && (n.brace == 0))

-- The index of the brace that ends the value list, from index `i`.
unfoldable pub find_end : Bool → ℕ → Bytes → Nesting → Option ℕ
find_end allow_angle i [] n = none
find_end allow_angle i (ch ∷ s) n = elim (at_end ch n) [
  | true ↦ if no_brackets n then some i else none
  | false ↦ elim (advance allow_angle ch n) [
    | none ↦ none
    | some m ↦ find_end allow_angle (i + 1) s m
  ]
]

unfoldable pub find_value_list_end : Bool → Bytes → Option ℕ
find_value_list_end allow_angle s = find_end allow_angle 0 s flat
