-- ===== src/Reflection/Format/Attributes.antt =====
-- The strings, attributes and declarations of a reflection section (include/slangmake.hpp).
use slangmake.Prelude.{ℕ, List, [], ◌∷◌, ◌≡◌, refl, get_or, arith, ◌+◌, ◌*◌, ◌/◌, ◌%◌}
use slangmake.Reflection.Format.Rows.{Row, IsRow}

pub record HashedStr : Type 0 where
  pub str_idx : ℕ
  pub hash : ℕ

unfoldable pub hashed_str_words : HashedStr → List ℕ
hashed_str_words r = r.str_idx ∷ r.hash ∷ []

unfoldable pub hashed_str_of_words : List ℕ → HashedStr
hashed_str_of_words ws = record { str_idx = get_or ws 0 0; hash = get_or ws 1 0 }

abbrev pub hashed_str_row : Row HashedStr
hashed_str_row = record { size = 2; words = hashed_str_words; of_words = hashed_str_of_words }

pub hashed_str_row-IsRow : IsRow hashed_str_row
unfolding hashed_str_words hashed_str_of_words
hashed_str_row-IsRow = record {
  of_words-words = λ r. refl;
  length-words = λ r. refl;
  positive = omega arith;
}

pub record AttrArg : Type 0 where
  pub kind : ℕ
  pub str_idx : ℕ
  pub raw : ℕ  -- uint64_t

unfoldable pub attr_arg_words : AttrArg → List ℕ
attr_arg_words r = r.kind ∷ r.str_idx ∷ (r.raw % 4294967296) ∷ (r.raw / 4294967296) ∷ []

unfoldable pub attr_arg_of_words : List ℕ → AttrArg
attr_arg_of_words ws = record {
  kind = get_or ws 0 0;
  str_idx = get_or ws 1 0;
  raw = get_or ws 2 0 + 4294967296 * get_or ws 3 0;
}

abbrev pub attr_arg_row : Row AttrArg
attr_arg_row = record { size = 4; words = attr_arg_words; of_words = attr_arg_of_words }

pub attr_arg_row-IsRow : IsRow attr_arg_row
unfolding attr_arg_words attr_arg_of_words
attr_arg_row-IsRow = record {
  of_words-words = halves_joined;
  length-words = λ r. refl;
  positive = omega arith;
}
  where
    joined : (n : ℕ) → n % 4294967296 + 4294967296 * (n / 4294967296) ≡ n
    joined n = omega arith

    halves_joined : (r : AttrArg) → attr_arg_of_words (attr_arg_words r) ≡ r
    halves_joined r = λ i. record r { raw = joined r.raw i }

pub record Attribute : Type 0 where
  pub name_str_idx : ℕ
  pub arg_off : ℕ
  pub arg_count : ℕ

unfoldable pub attribute_words : Attribute → List ℕ
attribute_words r = r.name_str_idx ∷ r.arg_off ∷ r.arg_count ∷ []

unfoldable pub attribute_of_words : List ℕ → Attribute
attribute_of_words ws = record {
  name_str_idx = get_or ws 0 0;
  arg_off = get_or ws 1 0;
  arg_count = get_or ws 2 0;
}

abbrev pub attribute_row : Row Attribute
attribute_row = record { size = 3; words = attribute_words; of_words = attribute_of_words }

pub attribute_row-IsRow : IsRow attribute_row
unfolding attribute_words attribute_of_words
attribute_row-IsRow = record {
  of_words-words = λ r. refl;
  length-words = λ r. refl;
  positive = omega arith;
}

pub record Decl : Type 0 where
  pub kind : ℕ
  pub name_str_idx : ℕ
  pub parent_decl_idx : ℕ
  pub child_off : ℕ
  pub child_count : ℕ
  pub payload_idx : ℕ

unfoldable pub decl_words : Decl → List ℕ
decl_words r =
    r.kind ∷ r.name_str_idx ∷ r.parent_decl_idx ∷ r.child_off ∷ r.child_count ∷ r.payload_idx ∷ []

unfoldable pub decl_of_words : List ℕ → Decl
decl_of_words ws = record {
  kind = get_or ws 0 0;
  name_str_idx = get_or ws 1 0;
  parent_decl_idx = get_or ws 2 0;
  child_off = get_or ws 3 0;
  child_count = get_or ws 4 0;
  payload_idx = get_or ws 5 0;
}

abbrev pub decl_row : Row Decl
decl_row = record { size = 6; words = decl_words; of_words = decl_of_words }

pub decl_row-IsRow : IsRow decl_row
unfolding decl_words decl_of_words
decl_row-IsRow = record {
  of_words-words = λ r. refl;
  length-words = λ r. refl;
  positive = omega arith;
}
