-- ===== src/Reflection/Builder.antt =====
-- How a `ReflectionSerializer` fills its tables: strings, pools, modifiers, attributes and hashed
-- strings (src/slangmake_reflection_serialize.cpp).
pub mod Strings
pub mod Ranges
pub mod Attributes
use slangmake.Prelude.{
  ℕ, zero, suc, ◌+◌, ◌*◌, ◌-◌, ◌%◌, ◌^◌, Bool, bit_xor, Bytes, List, [], ◌∷◌, ◌++◌, Option, none,
  some, length, ltb, bytes_eq, is_empty, if◌then◌else◌,
}
use slangmake.Blob.Writer.Layout.{u32}
use slangmake.Reflection.Format.Header.{invalid_index}
use slangmake.Reflection.Format.Attributes.{HashedStr, AttrArg, Attribute}
use slangmake.Reflection.Section.{Tables}

unfoldable pub find_string : List (Bytes × ℕ) → Bytes → Option ℕ
find_string [] s = none
find_string ((k, off) ∷ more) s =
    let rest = find_string more s in if bytes_eq k s then some off else rest

-- `internStr(std::string_view)` behind the search in the map, for a view that is not null.
unfoldable pub intern_found : Option ℕ → Bytes → Tables → ℕ × Tables
intern_found (some off) s t = (off, t)
intern_found none s t = (
  u32 (length t.strings),
  record t {
    strings = t.strings ++ (s ++ (0 ∷ []));
    string_idx = (s, u32 (length t.strings)) ∷ t.string_idx;
  },
)

unfoldable pub intern_str : Bytes → Tables → ℕ × Tables
intern_str s t = intern_found (find_string t.string_idx s) s t

-- `internStr(const char*)`; `none` is a null pointer.
unfoldable pub intern_c_str : Option Bytes → Tables → ℕ × Tables
intern_c_str none t = (invalid_index, t)
intern_c_str (some s) t = intern_str s t

unfoldable pub push_u32_list : List ℕ → Tables → ℕ × Tables
push_u32_list [] t = (0, t)
push_u32_list (n ∷ ns) t = (u32 (length t.u32_pool), record t { u32_pool = t.u32_pool ++ (n ∷ ns) })

-- The modifiers of `kAllModifiers`, whose numbers are Slang's, that `findModifier` finds.
unfoldable pub modifier_ids : List ℕ → (ℕ → Bool) → List ℕ
modifier_ids [] found = []
modifier_ids (id ∷ ids) found =
    let rest = modifier_ids ids found in if found id then id ∷ rest else rest

unfoldable pub push_modifiers : List ℕ → Tables → (ℕ × ℕ) × Tables
push_modifiers [] t = ((0, 0), t)
push_modifiers (id ∷ ids) t = (
  (u32 (length t.modifier_pool), u32 (length (id ∷ ids))),
  record t { modifier_pool = t.modifier_pool ++ (id ∷ ids) },
)

-- `addModifiersFromVar` and `addModifiersFromFunc`; `none` is a null pointer.
unfoldable pub add_modifiers : List ℕ → Option (ℕ → Bool) → Tables → (ℕ × ℕ) × Tables
add_modifiers all none t = ((0, 0), t)
add_modifiers all (some found) t = push_modifiers (modifier_ids all found) t

-- What Slang says of an argument: an `int` as 32 bits, a `float` as the bits of the `double` it
-- converts to, a string; `none` where the query fails.
pub record SlangArg : Type 0 where
  pub int_value : Option ℕ
  pub float_value : Option ℕ
  pub string_value : Option Bytes

pub record SlangAttribute : Type 0 where
  pub name : Option Bytes
  pub arguments : List SlangArg

-- `int64_t v64 = iv`, as bits.
abbrev pub sign_extend : ℕ → ℕ
sign_extend n = if ltb n (2 ^ 31) then n else n + (2 ^ 64 - 2 ^ 32)

unfoldable pub attr_arg : SlangArg → Tables → AttrArg × Tables
attr_arg a t = elim a.int_value [
  | some n ↦ (record { kind = 1; str_idx = invalid_index; raw = sign_extend n }, t)
  | none ↦ elim a.float_value [
    | some d ↦ (record { kind = 2; str_idx = invalid_index; raw = d }, t)
    | none ↦ elim a.string_value [
      | none ↦ (record { kind = 0; str_idx = invalid_index; raw = 0 }, t)
      | some s ↦ let (i, t') = intern_str s t in (record { kind = 3; str_idx = i; raw = 0 }, t')
    ]
  ]
]

unfoldable pub push_args : List SlangArg → Tables → Tables
push_args [] t = t
push_args (a ∷ more) t =
    let (arg, t') = attr_arg a t in
    push_args more (record t' { attr_args = t'.attr_args ++ (arg ∷ []) })

-- `a->getName() ? a->getName() : ""`.
abbrev pub name_or_empty : Option Bytes → Bytes
name_or_empty none = []
name_or_empty (some s) = s

abbrev pub push_attr : Attribute → Tables → Tables
push_attr a t = record t { attrs = t.attrs ++ (a ∷ []) }

-- The body of the loop; `none` is a null pointer.
unfoldable pub push_attribute : Option SlangAttribute → Tables → Tables
push_attribute none t =
    push_attr (record { name_str_idx = invalid_index; arg_off = 0; arg_count = 0 }) t
push_attribute (some a) t =
    let (name, t1) = intern_str (name_or_empty a.name) t in
    push_attr
      (record {
        name_str_idx = name;
        arg_off = u32 (length t1.attr_args);
        arg_count = u32 (length a.arguments);
      })
      (push_args a.arguments t1)

unfoldable pub push_attributes : List (Option SlangAttribute) → Tables → Tables
push_attributes [] t = t
push_attributes (a ∷ more) t = push_attributes more (push_attribute a t)

unfoldable pub serialize_attributes : List (Option SlangAttribute) → Tables → (ℕ × ℕ) × Tables
serialize_attributes list t =
    if is_empty list
    then ((0, 0), t)
    else ((u32 (length t.attrs), u32 (length list)), push_attributes list t)

-- `addAttributesFromVar` and `addAttributesFromFunc`; `none` is a null pointer.
unfoldable pub add_attributes : Option (List (Option SlangAttribute)) → Tables → (ℕ × ℕ) × Tables
add_attributes none t = ((0, 0), t)
add_attributes (some list) t = serialize_attributes list t

-- The 32-bit FNV-1a loop.
unfoldable pub fnv1a_32 : ℕ → Bytes → ℕ
fnv1a_32 h [] = h
fnv1a_32 h (b ∷ bs) = fnv1a_32 (bit_xor h b * 0x01000193 % 2 ^ 32) bs

unfoldable pub add_hashed_string : Option Bytes → Tables → Tables
add_hashed_string none t = record t {
  hashed_strs = t.hashed_strs ++ (record { str_idx = invalid_index; hash = 0x811c9dc5 } ∷ []);
}
add_hashed_string (some s) t =
    let (i, t') = intern_str s t in
    record t' {
      hashed_strs = t'.hashed_strs ++ (record { str_idx = i; hash = fnv1a_32 0x811c9dc5 s } ∷ []);
    }
