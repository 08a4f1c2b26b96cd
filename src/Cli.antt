-- ===== src/Cli.antt =====
-- The arguments of the command line (src/main.cpp): `parseDefine`, `parsePermutation` and
-- `parseBindShift`. `std::stoul` belongs to the standard library: the section below takes it as a
-- parameter, `none` being an exception.
pub mod Values
use slangmake.Prelude.{
  ℕ, ◌-◌, ◌%◌, ◌^◌, Bool, true, false, ◌&&◌, ◌||◌, Bytes, codes, List, [], ◌∷◌, ◌++◌, Option, none,
  some, ◌>>=◌, is_empty, leb, ◌==◌, if◌then◌else◌,
}
use slangmake.Permutation.{ShaderConstant, PermutationDefine, Kind}
use slangmake.Hash.Options.{VulkanBindShift}
use slangmake.Directives.Values.{parse_values}

-- `find` and the two `substr` around the byte, if there is one.
unfoldable pub split_at : ℕ → Bytes → Option (Bytes × Bytes)
split_at sep [] = none
split_at sep (c ∷ s) = elim (c == sep) [
  | true ↦ some ([], s)
  | false ↦ elim (split_at sep s) [ none ↦ none | some parts ↦ some (c ∷ parts.0, parts.1) ]
]

-- The value is `1` if there is no `=`; a name must not be empty.
unfoldable pub parse_define : Bytes → Option ShaderConstant
parse_define s = elim (split_at b'=' s) [
  | none ↦ if is_empty s then none else some (record { name = s; value = codes "1" })
  | some parts ↦
      if is_empty parts.0 then none else some (record { name = parts.0; value = parts.1 })
]

-- `std::isspace` in the "C" locale.
unfoldable pub is_blank : ℕ → Bool
is_blank c = (c == b' ') || (leb 9 c && leb c 13)

unfoldable pub copy_front : Bytes → Bytes
copy_front [] = []
copy_front (c ∷ cs) = elim (is_blank c) [ true ↦ copy_front cs | false ↦ c ∷ cs ]

unfoldable pub copy_cons : ℕ → Bytes → Bytes
copy_cons c [] = if is_blank c then [] else c ∷ []
copy_cons c (d ∷ ds) = c ∷ d ∷ ds

unfoldable pub copy_end : Bytes → Bytes
copy_end [] = []
copy_end (c ∷ cs) = copy_cons c (copy_end cs)

-- `trimCopy`.
unfoldable pub trim_copy : Bytes → Bytes
trim_copy s = copy_end (copy_front s)

-- All bytes but the last, if that is `}`.
unfoldable pub before_brace : Bytes → Option Bytes
before_brace [] = none
before_brace (c ∷ []) = if c == b'}' then some [] else none
before_brace (c ∷ d ∷ s) = elim (before_brace (d ∷ s)) [ none ↦ none | some t ↦ some (c ∷ t) ]

-- The text between the braces around it.
unfoldable pub inside_braces : Bytes → Option Bytes
inside_braces [] = none
inside_braces (c ∷ s) = elim (c == b'{') [ true ↦ before_brace s | false ↦ none ]

-- The caller sets the kind: constant axes nest no `<`, type axes do.
unfoldable pub parse_permutation : Bool → Kind → Bytes → Option PermutationDefine
parse_permutation allow_angle kind s = do
  parts ← split_at b'=' s
  inside ← inside_braces (trim_copy parts.1)
  values ← parse_values allow_angle inside
  let name = trim_copy parts.0
  if is_empty name || is_empty values
      then none
      else some (record { name = name; values = values; kind = kind })

module _ (stoul : Bytes → Option ℕ) where
  -- `kind:space:shift`; at least five bytes, the second a colon. The numbers are cut to 32 bits.
  unfoldable pub parse_bind_shift : Bytes → Option VulkanBindShift
  parse_bind_shift (k ∷ c ∷ x ∷ y ∷ z ∷ s) = elim (c == b':') [
    | false ↦ none
    | true ↦ do
      parts ← split_at b':' (x ∷ y ∷ z ∷ s)
      space ← stoul parts.0
      shift ← stoul parts.1
      some (record { kind = k; space = space % 2 ^ 32; shift = shift % 2 ^ 32 })
  ]
  parse_bind_shift _ = none
